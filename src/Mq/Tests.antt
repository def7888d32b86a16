-- ===== src/Mq/Tests.antt =====
-- The broker's client on small inputs.
use arcella_lib.Prelude.Int.{ℤ, pos}
use arcella_lib.Prelude.Text.{codes}
use arcella_lib.Mq.Rabbit.{ConfigRabbitMq, RabbitMq, ok, new_rabbitmq, start, stop, dialed, second}
use arcella_lib.Mq.Rabbit.Lifecycle
use arcella_lib.Mq.Rabbit.Lifecycle.{IsSound, Reach, stopped_holds_nothing}
use arcella_lib.Mq.Rabbit.Connecting.{Broker, connect}
use arcella_lib.Mq.Rabbit.Producing.{Publication, produce, returned, produce_ok_iff, acked}
use arcella_lib.Prelude.{
  ◌∷◌, ◌↔◌, ◌⊎◌, ◌≢◌, ◌≡◌, ◌*◌, [], List, some, none, Option, false, true, refl, ℕ,
}

abbrev durations : List ℕ → Option ℤ
durations [] = none
durations (c ∷ s) = some (pos 5000000000)

abbrev config : ConfigRabbitMq
config = record {
  disabled = false;
  url = codes "amqp://mq";
  queue = codes "work";
  consumer = [];
  exchange = [];
  quorum = true;
  concurrency_count = pos 0;
  dead_letter_exchange = [];
  retry_delay = codes "5s";
  confirm_timeout = [];
}

abbrev client : RabbitMq
client = record {
  connected = false;
  queue_name = codes "work";
  has_consumer = false;
  config = config;
  mq_connect = none;
  mq_channel = none;
  mq_queue = [];
  mq_messages = none;
  retry_delay = 5 * second;
  confirm_timeout = 10 * second;
  args = none;
  stopped = false;
  confirms = false;
}

abbrev broker : Broker
broker = record {
  dial = some 1;
  open_channel = some 2;
  confirm = true;
  declare = some (codes "work");
  qos = true;
  consume = some 3;
}

abbrev without_confirms : Broker
without_confirms = record broker { confirm = false }

abbrev unreachable : Broker
unreachable = record broker { dial = none }

abbrev publication : Publication
publication = record { accepted = true; confirm_mode = false; confirmation = acked }

new_client : new_rabbitmq durations config [] true ≡ record client {
  has_consumer = true;
  config = record config { concurrency_count = pos 1 };
  args = some ((codes "x-queue-type", codes "quorum") ∷ []);
}
unfolding new_rabbitmq
new_client = refl

client-IsSound : IsSound client
client-IsSound = record { released = λ e. refl; paired = λ e. refl }

-- `Stop` while a dial is under way
abbrev overtaken : RabbitMq
unfolding dialed stop start
overtaken = (dialed (stop (start client).0 ok ok).0 7).0

overtaken-Reach : Reach client overtaken
unfolding dialed stop start
overtaken-Reach =
    Lifecycle.next
      (Lifecycle.next (Lifecycle.next Lifecycle.here Lifecycle.start_step)
        (Lifecycle.stop_step ok ok))
      (Lifecycle.dial_step 7)

overtaken-stopped : overtaken.stopped ≡ true
unfolding dialed stop start
overtaken-stopped = refl

stopped_holds_nothing_example : (overtaken.mq_connect ≡ none) × (overtaken.mq_channel ≡ none)
stopped_holds_nothing_example =
    stopped_holds_nothing client-IsSound overtaken-Reach overtaken-stopped

connects : (connect client broker).1 ≡ ok
unfolding connect
connects = refl

connects_without : (connect (record client { confirms = true }) without_confirms).1 ≡ ok
unfolding connect
connects_without = refl

produce_ok_iff_example : (produce client publication ≡ returned ok) ↔ (
    (client.connected ≡ true)
    × (client.mq_channel ≢ none)
    × (publication.accepted ≡ true)
    × ((client.confirms ≡ false)
        ⊎ ((publication.confirm_mode ≡ true) × (publication.confirmation ≡ acked))))
produce_ok_iff_example = produce_ok_iff client publication
