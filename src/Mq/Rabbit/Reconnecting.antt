-- ===== src/Mq/Rabbit/Reconnecting.antt =====
-- mq/rabbitmq/rabbitMQ.go: the loop of `connectAsync`, from one attempt to the next.
use arcella_lib.Mq.Rabbit.{RabbitMq, Result, ok, err, start, stop, backoff_delay}
use arcella_lib.Mq.Rabbit.Connecting.{Broker, connect}
use arcella_lib.Prelude.{◌⊎◌, ◌≢◌, ◌≡◌, ◌+◌, if◌then◌else◌, arith, none, Option, false, true, ℕ}

-- What the goroutine waits for besides the end of its context: the notifications of a connection, if
-- there is one to register with, or a delay.
pub data Wait : Type 0 where
  watch : Option ℕ → Wait
  retry : ℕ → Wait

abbrev pub attempt_after : Result → ℕ → ℕ
attempt_after ok attempt = 0
attempt_after (err e) attempt = attempt

unfoldable pub back_off : RabbitMq → ℕ → ℕ → RabbitMq × Wait × ℕ
unfolding backoff_delay
back_off r attempt k = (r, retry (backoff_delay r attempt k), attempt + 1)

-- from the head of the loop to its next wait
unfoldable pub turn : RabbitMq → Broker → ℕ → ℕ → RabbitMq × Wait × ℕ
unfolding connect back_off
turn r b attempt k =
    let res = connect r b in
    let attempt' = attempt_after res.1 attempt in
    if res.0.connected then (res.0, watch res.0.mq_connect, attempt') else back_off res.0 attempt' k

-- from a notification that the connection is closed or blocked to the wait before the next attempt
unfoldable pub lost : RabbitMq → ℕ → ℕ → RabbitMq × Wait × ℕ
unfolding back_off
lost r attempt k = back_off (record r { connected = false }) attempt k

-- A failed attempt of a client that was not connected is counted and followed by the delay for the
-- number of failures so far. A successful one resets that number and watches the new connection.
pub turn_lem :
    (r : RabbitMq) (b : Broker) (attempt k : ℕ)
    → r.connected ≡ false
    → let t = turn r b attempt k in
      ((connect r b).1 ≡ ok) × (t.1 ≡ watch b.dial) × (b.dial ≢ none) × (t.2 ≡ 0)
      ⊎ ((connect r b).1 ≢ ok)
        × (t.1 ≡ retry (backoff_delay (connect r b).0 attempt k))
        × (t.2 ≡ attempt + 1)
unfolding turn connect
turn_lem r b attempt k h = ground arith

-- `Stop` leaves the flag of a connected client set. If the client, which is not disabled, is started
-- again while the broker cannot be reached, the failed attempt is followed by a wait for the
-- notifications of no connection instead of a delay.
pub restart_stuck :
    (r : RabbitMq) (b : Broker) (c d : Result) (attempt k : ℕ)
    → r.connected ≡ true
    → r.config.disabled ≡ false
    → b.dial ≡ none
    → (turn (start (stop r c d).0).0 b attempt k).1 ≡ watch none
unfolding start stop turn connect
restart_stuck r b c d attempt k h1 h2 h3 = ground arith
