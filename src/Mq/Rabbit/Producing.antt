-- ===== src/Mq/Rabbit/Producing.antt =====
-- mq/rabbitmq/rabbitMQ.go: publishing, and the settlement of consumed messages.
use arcella_lib.Mq.Rabbit.{
  RabbitMq, Result, ok, err, not_connected, confirm_nack, confirm_timed_out, cancelled,
  broker_error,
}
use arcella_lib.Mq.Rabbit.Connecting.{Broker, connect}
use arcella_lib.Prelude.{
  ◌↔◌, ◌⊎◌, ◌≢◌, ◌≡◌, if◌then◌else◌, arith, some, none, Option, not, false, true, Bool,
}

-- What ends the wait for a deferred confirmation.
pub data Confirmation : Type 0 where
  acked nacked timed_out context_done : Confirmation

-- The answers to a publication: whether the library accepts it, whether the channel is in confirm
-- mode, for otherwise the deferred confirmation is nil, and what comes of the confirmation.
pub record Publication : Type 0 where
  pub accepted : Bool
  pub confirm_mode : Bool
  pub confirmation : Confirmation

-- A nil dereference panics.
pub data Outcome : Type 0 where
  returned : Result → Outcome
  panicked : Outcome

unfoldable pub await : Confirmation → Result
await acked = ok
await nacked = err confirm_nack
await timed_out = err confirm_timed_out
await context_done = err cancelled

unfoldable pub produce : RabbitMq → Publication → Outcome
unfolding await
produce r p = if not r.connected then returned (err not_connected) else elim r.mq_channel [
  | none ↦ returned (err not_connected)
  | some ch ↦
      if not r.confirms
      then returned (if p.accepted then ok else err broker_error)
      else if not p.accepted
      then returned (err broker_error)
      else if not p.confirm_mode
      then panicked
      else returned (await p.confirmation)
]

-- `ProduceData`; `marshalled` says whether `json.Marshal` succeeds
unfoldable pub produce_data : RabbitMq → Bool → Publication → Outcome
unfolding produce
produce_data r marshalled p =
    if r.config.disabled
    then returned ok
    else if marshalled
    then produce r p
    else returned (err broker_error)

-- What a worker does with a message: the consumer function answers, or panics and is recovered.
pub data Settlement : Type 0 where
  ack nack unsettled : Settlement

unfoldable pub settle : Option Bool → Settlement
settle (some true) = ack
settle (some false) = nack
settle none = unsettled

-- A publication succeeds exactly if the client is connected over a channel, the library accepts it,
-- and, where the client counts on confirmations, the broker acknowledges it.
pub produce_ok_iff :
    (r : RabbitMq) (p : Publication)
    → (produce r p ≡ returned ok) ↔ (
        (r.connected ≡ true)
        × (r.mq_channel ≢ none)
        × (p.accepted ≡ true)
        × ((r.confirms ≡ false) ⊎ ((p.confirm_mode ≡ true) × (p.confirmation ≡ acked))))
unfolding produce
produce_ok_iff r p = (λ h. ground arith, λ h. ground arith)

-- A client that once had confirmations still counts on them after it reconnects to a channel on
-- which `Confirm` fails; the next publication that the library accepts then dereferences nil.
pub produce_panics :
    (r : RabbitMq) (b : Broker) (p : Publication)
    → r.confirms ≡ true
    → b.confirm ≡ false
    → (connect r b).1 ≡ ok
    → p.accepted ≡ true
    → p.confirm_mode ≡ b.confirm
    → produce (connect r b).0 p ≡ panicked
unfolding produce connect
produce_panics r b p h1 h2 h3 h4 h5 = ground arith
