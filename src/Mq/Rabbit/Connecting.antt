-- ===== src/Mq/Rabbit/Connecting.antt =====
-- mq/rabbitmq/rabbitMQ.go: one attempt to connect, with nobody else at work.
use arcella_lib.Mq.Rabbit.{
  RabbitMq, Result, ok, err, Error, no_connection, no_channel, broker_error, is_empty,
  close_conn_locked, dialed, channel_opened, confirms_enabled, queue_declared, consuming,
}
use arcella_lib.Prelude.{
  ◌≢◌, ◌≡◌, if◌then◌else◌, arith, List, some, none, Option, not, false, true, Bool, ℕ,
}

-- What the broker answers: `none` and `false` stand for an error.
pub record Broker : Type 0 where
  pub dial : Option ℕ
  pub open_channel : Option ℕ
  pub confirm : Bool
  pub declare : Option (List ℕ)
  pub qos : Bool
  pub consume : Option ℕ

-- `if err = m; err == nil { k }`
abbrev pub and_then : RabbitMq × Result → (RabbitMq → RabbitMq × Result) → RabbitMq × Result
and_then (r, ok) k = k r
and_then (r, err e) k = (r, err e)

unfoldable pub dial : RabbitMq → Broker → RabbitMq × Result
unfolding close_conn_locked dialed
dial r b = elim b.dial [
  | none ↦ (close_conn_locked r, err broker_error)
  | some conn ↦ dialed (close_conn_locked r) conn
]

unfoldable pub channel : RabbitMq → Broker → RabbitMq × Result
unfolding channel_opened
channel r b = elim r.mq_connect [
  | none ↦ (r, err no_connection)
  | some conn ↦ elim b.open_channel [
    | none ↦ (r, err broker_error)
    | some ch ↦ channel_opened r conn ch
  ]
]

unfoldable pub enable_confirms : RabbitMq → Broker → RabbitMq
unfolding confirms_enabled
enable_confirms r b = elim r.mq_channel [
  | none ↦ r
  | some ch ↦ if b.confirm then confirms_enabled r else r
]

unfoldable pub init_consumer : RabbitMq → Broker → RabbitMq × Result
unfolding consuming
init_consumer r b = if not r.has_consumer then (r, ok) else elim r.mq_channel [
  | none ↦ (r, err no_channel)
  | some ch ↦ if not b.qos then (r, err broker_error) else elim b.consume [
    | none ↦ (r, err broker_error)
    | some messages ↦ (consuming r messages, ok)
  ]
]

unfoldable pub queue : RabbitMq → Broker → RabbitMq × Result
unfolding queue_declared init_consumer
queue r b = if is_empty r.queue_name then (r, ok) else elim r.mq_channel [
  | none ↦ (r, err no_channel)
  | some ch ↦ elim b.declare [
    | none ↦ (r, err broker_error)
    | some name ↦ and_then (queue_declared r ch name) (λ r'. init_consumer r' b)
  ]
]

-- `connect`; `setupReturns` only logs
unfoldable pub connect : RabbitMq → Broker → RabbitMq × Result
unfolding dial channel enable_confirms queue
connect r b = and_then (dial r b) (λ r1.
    and_then (channel r1 b) (λ r2.
      and_then (queue (enable_confirms r2 b) b) (λ r3. (record r3 { connected = true }, ok))))

-- A successful attempt leaves the client connected over the new connection and channel, and is made
-- only by a client that is not stopped.
pub connect_ok :
    (r : RabbitMq) (b : Broker)
    → (connect r b).1 ≡ ok
    → ((connect r b).0.connected ≡ true)
      × ((connect r b).0.mq_connect ≡ b.dial)
      × ((connect r b).0.mq_channel ≡ b.open_channel)
      × (b.dial ≢ none)
      × (b.open_channel ≢ none)
      × (r.stopped ≡ false)
unfolding connect
connect_ok r b e = ground arith

-- A failed attempt leaves the flag as it was.
pub connect_err :
    (r : RabbitMq) (b : Broker) (e : Error)
    → (connect r b).1 ≡ err e
    → (connect r b).0.connected ≡ r.connected
unfolding connect
connect_err r b e h = ground arith

-- If the broker answers every request, a client that is not stopped does connect.
pub connect_succeeds :
    (r : RabbitMq) (b : Broker) (conn ch messages : ℕ) (name : List ℕ)
    → r.stopped ≡ false
    → b.dial ≡ some conn
    → b.open_channel ≡ some ch
    → b.declare ≡ some name
    → b.qos ≡ true
    → b.consume ≡ some messages
    → (connect r b).1 ≡ ok
unfolding connect
connect_succeeds r b conn ch messages name h e1 e2 e3 e4 e5 = ground arith
