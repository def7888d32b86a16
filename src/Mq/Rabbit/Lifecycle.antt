-- ===== src/Mq/Rabbit/Lifecycle.antt =====
-- mq/rabbitmq/rabbitMQ.go: `Stop` against a connection attempt that is under way. The steps are the
-- regions under the lock, each with any connection or channel that its goroutine may hold, in any
-- order: this covers every interleaving of the callers and the connecting goroutine.
use arcella_lib.Mq.Rabbit.{
  RabbitMq, Result, start, stop, close_conn_locked, dialed, channel_opened, confirms_enabled,
  queue_declared, consuming,
}
use arcella_lib.Prelude.{◌≡◌, arith, List, none, false, true, ℕ}

pub data Step (r : RabbitMq) : RabbitMq → Type 0 where
  start_step : Step r (start r).0
  stop_step : (c d : Result) → Step r (stop r c d).0
  close_step : Step r (close_conn_locked r)
  dial_step : (conn : ℕ) → Step r (dialed r conn).0
  channel_step : (conn ch : ℕ) → Step r (channel_opened r conn ch).0
  confirm_step : Step r (confirms_enabled r)
  queue_step : (ch : ℕ) (name : List ℕ) → Step r (queue_declared r ch name).0
  consume_step : (messages : ℕ) → Step r (consuming r messages)
  connected_step : Step r (record r { connected = true })
  lost_step : Step r (record r { connected = false })

pub data Reach (r : RabbitMq) : RabbitMq → Type 0 where
  here : Reach r r
  next : {s t : RabbitMq} → Reach r s → Step s t → Reach r t

-- A stopped client holds no connection, and a channel is held only beside a connection.
pub record IsSound (r : RabbitMq) : Type 0 where
  pub released : r.stopped ≡ true → r.mq_connect ≡ none
  pub paired : r.mq_connect ≡ none → r.mq_channel ≡ none

Step-IsSound : {r s : RabbitMq} → Step r s → IsSound r → IsSound s
unfolding start stop close_conn_locked dialed channel_opened confirms_enabled queue_declared
    consuming
Step-IsSound start_step h = ground arith
Step-IsSound (stop_step c d) h = ground arith
Step-IsSound close_step h = ground arith
Step-IsSound (dial_step conn) h = ground arith
Step-IsSound (channel_step conn ch) h = ground arith
Step-IsSound confirm_step h = ground arith
Step-IsSound (queue_step ch name) h = ground arith
Step-IsSound (consume_step messages) h = ground arith
Step-IsSound connected_step h = ground arith
Step-IsSound lost_step h = ground arith

pub Reach-IsSound : {r s : RabbitMq} → IsSound r → Reach r s → IsSound s
Reach-IsSound h here = h
Reach-IsSound h (next steps step) = Step-IsSound step (Reach-IsSound h steps)

-- However `Start`, `Stop` and the connecting goroutine interleave, a client that is stopped holds
-- neither a connection nor a channel: what a late dial or a late open brings is given up.
pub stopped_holds_nothing :
    {r s : RabbitMq}
    → IsSound r
    → Reach r s
    → s.stopped ≡ true
    → (s.mq_connect ≡ none) × (s.mq_channel ≡ none)
stopped_holds_nothing h steps e =
    let v = Reach-IsSound h steps in (v.released e, v.paired (v.released e))
