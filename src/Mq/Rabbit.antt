-- ===== src/Mq/Rabbit.antt =====
-- mq/rabbitmq/rabbitMQ.go: the connection's state and the operations on it. Connections, channels
-- and delivery streams of amqp091-go are numbers; what the broker answers is an argument. Each region
-- under `mu` is one step. Logging is left out.
pub mod Backoff
pub mod Config
pub mod Lifecycle
pub mod Connecting
pub mod Reconnecting
pub mod Producing
use arcella_lib.Prelude.Int.{ℤ, pos, ltb_int, leb_int}
use arcella_lib.Prelude.Text.{to_lower, codes}
use arcella_lib.Prelude.{
  ◌==◌, ◌&&◌, ◌++◌, ◌∷◌, ◌^◌, ◌/◌, ◌*◌, ◌+◌, if◌then◌else◌, ltb, map, [], List, some, none, Option,
  false, true, Bool, suc, zero, ℕ,
}

abbrev pub second : ℕ
second = 1000000000

abbrev pub max_reconnect_delay : ℕ
max_reconnect_delay = 60 * second

pub record ConfigRabbitMq : Type 0 where
  pub disabled : Bool
  pub url : List ℕ
  pub queue : List ℕ
  pub consumer : List ℕ
  pub exchange : List ℕ
  pub quorum : Bool
  pub concurrency_count : ℤ
  pub dead_letter_exchange : List ℕ
  pub retry_delay : List ℕ
  pub confirm_timeout : List ℕ

pub record RabbitMq : Type 0 where
  pub connected : Bool
  pub queue_name : List ℕ
  pub has_consumer : Bool
  pub config : ConfigRabbitMq
  pub mq_connect : Option ℕ
  pub mq_channel : Option ℕ
  pub mq_queue : List ℕ
  pub mq_messages : Option ℕ
  pub retry_delay : ℕ
  pub confirm_timeout : ℕ
  pub args : Option (List (List ℕ × List ℕ))
  pub stopped : Bool
  pub confirms : Bool

pub data Error : Type 0 where
  empty_url not_connected no_connection connection_changed no_channel channel_changed : Error
  is_stopped confirm_nack confirm_timed_out cancelled broker_error : Error

pub data Result : Type 0 where
  ok : Result
  err : Error → Result

abbrev pub is_empty : List ℕ → Bool
is_empty [] = true
is_empty (_ ∷ _) = false

-- `time.ParseDuration`, with 0 beside its error, and a default for what is not positive
abbrev pub duration_or : Option ℤ → ℕ → ℕ
duration_or none d = d
duration_or (some (pos zero)) d = d
duration_or (some (pos (suc n))) d = suc n
duration_or (some (ℤ.negsuc n)) d = d

abbrev pub quorum_args : ConfigRabbitMq → List (List ℕ × List ℕ)
quorum_args cfg = if cfg.quorum then (codes "x-queue-type", codes "quorum") ∷ [] else []

abbrev pub dead_letter_args : ConfigRabbitMq → List (List ℕ × List ℕ)
dead_letter_args cfg =
    if is_empty cfg.dead_letter_exchange
    then []
    else (codes "x-dead-letter-exchange", cfg.dead_letter_exchange) ∷ []

abbrev pub non_empty : List (List ℕ × List ℕ) → Option (List (List ℕ × List ℕ))
non_empty [] = none
non_empty (x ∷ xs) = some (x ∷ xs)

unfoldable pub new_rabbitmq : (List ℕ → Option ℤ) → ConfigRabbitMq → List ℕ → Bool → RabbitMq
new_rabbitmq parse_duration cfg queue_name has_consumer = record {
  connected = false;
  queue_name = if is_empty queue_name then cfg.queue else queue_name;
  has_consumer = has_consumer;
  config =
      if ltb_int cfg.concurrency_count (pos 1)
      then record cfg { concurrency_count = pos 1 }
      else cfg;
  mq_connect = none;
  mq_channel = none;
  mq_queue = [];
  mq_messages = none;
  retry_delay = duration_or (parse_duration cfg.retry_delay) second;
  confirm_timeout = duration_or (parse_duration cfg.confirm_timeout) (10 * second);
  args = non_empty (quorum_args cfg ++ dead_letter_args cfg);
  stopped = false;
  confirms = false;
}

-- `Start`; the Boolean says whether `connectAsync` is called
unfoldable pub start : RabbitMq → RabbitMq × Bool × Result
start r =
    let r' = record r { stopped = false } in
    if r.config.disabled
    then (r', false, ok)
    else if is_empty r.config.url
    then (r', false, err empty_url)
    else (r', true, ok)

-- `Stop`, with the outcomes of the two `Close` calls. The named result collects an error, and the
-- last line returns nil.
unfoldable pub stop : RabbitMq → Result → Result → RabbitMq × Result
stop r channel_close connect_close =
    if r.config.disabled
    then (r, ok)
    else (record r { stopped = true; mq_channel = none; mq_connect = none; mq_messages = none }, ok)

-- the loop of `backoffDelay`
unfoldable pub double_delay : ℕ → ℕ → ℕ
double_delay zero d = d
double_delay (suc attempt) d = if ltb d max_reconnect_delay then double_delay attempt (d * 2) else d

unfoldable pub backoff_base : ℕ → ℕ → ℕ
unfolding double_delay
backoff_base retry_delay attempt =
    let d = double_delay attempt retry_delay in
    if ltb max_reconnect_delay d then max_reconnect_delay else d

-- `backoffDelay`; `rand.Float64()` is `k / 2 ^ 53`
unfoldable pub backoff_delay : RabbitMq → ℕ → ℕ → ℕ
unfolding backoff_base
backoff_delay r attempt k = backoff_base r.retry_delay attempt * (2 ^ 52 + k) / 2 ^ 53

unfoldable pub close_conn_locked : RabbitMq → RabbitMq
close_conn_locked r = record r { mq_channel = none; mq_connect = none; mq_messages = none }

-- `strings.HasPrefix(strings.ToLower(url), "amqps")`: which of `DialTLS` and `Dial` is called
abbrev pub starts_with : List ℕ → List ℕ → Bool
starts_with [] s = true
starts_with (c ∷ p) [] = false
starts_with (c ∷ p) (d ∷ s) = c == d && starts_with p s

unfoldable pub uses_tls : RabbitMq → Bool
unfolding to_lower
uses_tls r = starts_with (codes "amqps") (map to_lower r.config.url)

-- the region of `dial` behind a successful dial
unfoldable pub dialed : RabbitMq → ℕ → RabbitMq × Result
dialed r conn = if r.stopped then (r, err is_stopped) else (record r { mq_connect = some conn }, ok)

abbrev pub same : Option ℕ → ℕ → Bool
same none n = false
same (some m) n = m == n

-- the region of `channel` behind a successful `conn.Channel()`
unfoldable pub channel_opened : RabbitMq → ℕ → ℕ → RabbitMq × Result
channel_opened r conn ch =
    if same r.mq_connect conn
    then (record r { mq_channel = some ch }, ok)
    else (r, err connection_changed)

unfoldable pub confirms_enabled : RabbitMq → RabbitMq
confirms_enabled r = record r { confirms = true }

-- the region of `queue` behind a successful declaration
unfoldable pub queue_declared : RabbitMq → ℕ → List ℕ → RabbitMq × Result
queue_declared r ch name =
    if same r.mq_channel ch then (record r { mq_queue = name }, ok) else (r, err channel_changed)

-- the region of `initConsumer` behind a successful `Consume`
unfoldable pub consuming : RabbitMq → ℕ → RabbitMq
consuming r messages = record r { mq_messages = some messages }

unfoldable pub is_connected : RabbitMq → Bool
is_connected r = r.connected
