-- ===== src/Mq/Rabbit/Config.antt =====
-- mq/rabbitmq/rabbitMQ.go: what `NewRabbitMQ` makes of any configuration.
use arcella_lib.Prelude.Int.{ℤ, pos, leb_int}
use arcella_lib.Mq.Rabbit.{ConfigRabbitMq, new_rabbitmq}
use arcella_lib.Prelude.{◌≢◌, ◌≡◌, ◌<◌, arith, [], List, some, Option, false, true, Bool, refl, ℕ}

-- Whatever the configuration, a new client has positive delays and at least one worker, is neither
-- connected nor stopped, and passes no empty table of arguments.
pub new_rabbitmq_lem :
    (parse_duration : List ℕ → Option ℤ) (cfg : ConfigRabbitMq) (queue_name : List ℕ)
    (has_consumer : Bool)
    → let r = new_rabbitmq parse_duration cfg queue_name has_consumer in
      (0 < r.retry_delay)
      × (0 < r.confirm_timeout)
      × (leb_int (pos 1) r.config.concurrency_count ≡ true)
      × (r.connected ≡ false)
      × (r.stopped ≡ false)
      × (r.args ≢ some [])
unfolding new_rabbitmq
new_rabbitmq_lem parse_duration cfg queue_name has_consumer =
    (ground arith, ground arith, ground arith, refl, refl, ground arith)
