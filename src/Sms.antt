-- ===== src/Sms.antt =====
-- smsc/smsc.go: the client of an SMS center. Sessions and messages are numbers; each message has one
-- channel for its answer, which goes by the message's number. What gosmpp answers is an argument.
pub mod Retries
pub mod Waiters
pub mod Store
mod Tests
use arcella_lib.Prelude.Int.{ℤ, pos}
use arcella_lib.Prelude.Text.{codes, text_eq}
use arcella_lib.Prelude.Dict.{Dict, Eq, lookup, insert, remove}
use arcella_lib.Prelude.{
  ◌==◌, ◌&&◌, ◌∷◌, ◌↔◌, ◌≡◌, if◌then◌else◌, arith, [], List, some, none, Option, false, true, Bool,
  suc, zero, ℕ,
}

pub beq_iff : (a b : ℕ) → ((a == b) ≡ true) ↔ (a ≡ b)
beq_iff a b = (λ e. ground arith, λ e. ground arith)

instance abbrev pub number_eq : Eq ℕ
number_eq = record { beq = λ (a b : ℕ). a == b; beq_iff = beq_iff }

pub record SmsCenter : Type 0 where
  pub trans : Option ℕ
  pub dry_run : Bool
  pub source_addr : List ℕ
  pub result_timeout : ℕ
  pub wait_chs : Dict ℕ (Option (List ℕ))

-- `time.ParseDuration` with its error, or what is not positive, replaced by five seconds
abbrev pub timeout_or : Option ℤ → ℕ
timeout_or none = 5000000000
timeout_or (some (pos zero)) = 5000000000
timeout_or (some (pos (suc n))) = suc n
timeout_or (some (ℤ.negsuc n)) = 5000000000

unfoldable pub new_sms_center : (List ℕ → Option ℤ) → List ℕ → List ℕ → Bool → SmsCenter
new_sms_center parse_duration result_timeout source_addr dry_run = record {
  trans = none;
  dry_run = dry_run;
  source_addr = source_addr;
  result_timeout = timeout_or (parse_duration result_timeout);
  wait_chs = [];
}

-- `startLocked`, with the outcome of `gosmpp.NewSession`; the Boolean says whether the error is nil
unfoldable pub start_locked : SmsCenter → Option ℕ → SmsCenter × Bool
start_locked s session =
    if s.dry_run
    then (s, true)
    else (record s { trans = session }, elim session [ none ↦ false | some _ ↦ true ])

-- `stopLocked`, with the outcome of `Close`
unfoldable pub stop_locked : SmsCenter → Bool → Bool
stop_locked s closed = if s.dry_run then true else elim s.trans [ none ↦ true | some _ ↦ closed ]

-- `Restart`: a failed stop is only logged
unfoldable pub restart : SmsCenter → Bool → Option ℕ → SmsCenter × Bool
unfolding start_locked
restart s closed session = start_locked s session

-- the kinds of PDU that the handlers tell apart
pub data Pdu : Type 0 where
  submit_sm submit_sm_resp enquire_link enquire_link_resp : Pdu
  data_sm deliver_sm unbind unbind_resp generic_nack other : Pdu

-- `handleReceivedPduRequest`: whether a response is sent, and whether the bind is closed
unfoldable pub handle_received_pdu_request : Pdu → Bool × Bool
handle_received_pdu_request unbind = (true, true)
handle_received_pdu_request enquire_link = (true, false)
handle_received_pdu_request data_sm = (true, false)
handle_received_pdu_request deliver_sm = (true, false)
handle_received_pdu_request _ = (false, false)

-- `handleExpirePduRequest`: whether the bind is closed
unfoldable pub handle_expire_pdu_request : Pdu → Bool
handle_expire_pdu_request enquire_link = true
handle_expire_pdu_request _ = false

abbrev pub is_waiting : Option (Option (List ℕ)) → Bool
is_waiting none = false
is_waiting (some _) = true

-- whether a message has a waiter
unfoldable pub has : ℕ → Dict ℕ (Option (List ℕ)) → Bool
unfolding lookup
has msg chs = is_waiting (lookup msg chs)

-- `handleSubmitSMResponse` for the original request, if it is a SubmitSM: the waiter is removed and
-- its channel gets the identifier
unfoldable pub handle_submit_sm_response :
    SmsCenter → Option ℕ → List ℕ → SmsCenter × Option (ℕ × List ℕ)
unfolding has remove
handle_submit_sm_response s none message_id = (s, none)
handle_submit_sm_response s (some orig) message_id =
    if has orig s.wait_chs
    then (record s { wait_chs = remove orig s.wait_chs }, some (orig, message_id))
    else (s, none)

unfoldable pub drop_waiting_parts : SmsCenter → SmsCenter
drop_waiting_parts s = record s { wait_chs = [] }

unfoldable pub drop_waiting_parts_from : List ℕ → SmsCenter → SmsCenter
unfolding remove
drop_waiting_parts_from [] s = s
drop_waiting_parts_from (msg ∷ messages) s =
    drop_waiting_parts_from messages (record s { wait_chs = remove msg s.wait_chs })

abbrev pub waiting : ℕ → SmsCenter → SmsCenter
unfolding insert
waiting msg s = record s { wait_chs = insert msg none s.wait_chs }

-- The loop of `sendSMS` over the parts; `submit` is the outcome of `Submit`. The result lists the
-- parts whose channels are returned.
unfoldable pub submit_parts : (ℕ → Bool) → List ℕ → SmsCenter → SmsCenter × Option (List ℕ)
unfolding drop_waiting_parts_from insert
submit_parts submit [] s = (s, some [])
submit_parts submit (msg ∷ messages) s =
    let s' = waiting msg s in
    let rest = submit_parts submit messages s' in
    if submit msg
    then (rest.0, elim rest.1 [ none ↦ none | some parts ↦ some (msg ∷ parts) ])
    else (drop_waiting_parts_from (msg ∷ messages) s', none)

pub data Encoding : Type 0 where
  gsm7bit ucs2 : Encoding

-- What the library answers: whether an address is accepted, the characters that do not fit GSM 7 bit,
-- the parts of a text, and the outcome of each submission.
pub record Smpp : Type 0 where
  pub set_address : List ℕ → Bool
  pub validate_gsm7_string : List ℕ → List ℕ
  pub parts : List ℕ → Encoding → Option (List ℕ)
  pub submit : ℕ → Bool

abbrev pub submit_all : Smpp → SmsCenter → Option (List ℕ) → SmsCenter × Option (List ℕ)
unfolding submit_parts
submit_all smpp s none = (s, none)
submit_all smpp s (some messages) = submit_parts smpp.submit messages s

unfoldable pub send_sms : Smpp → SmsCenter → List ℕ → List ℕ → List ℕ → SmsCenter × Option (List ℕ)
unfolding submit_parts
send_sms smpp s sender to text =
    let sender' = if text_eq sender [] then s.source_addr else sender in
    let enc = if text_eq (smpp.validate_gsm7_string text) [] then gsm7bit else ucs2 in
    elim s.trans [
      | none ↦ (s, none)
      | some session ↦
          if smpp.set_address sender' && smpp.set_address to
          then submit_all smpp s (smpp.parts text enc)
          else (s, none)
    ]

-- `sendMessage`, with what arrives first of an answer and the timeout, if the parts are sent
abbrev pub collect : Option (List ℕ) → SmsCenter × Option (List ℕ) → SmsCenter × Option (List ℕ)
unfolding drop_waiting_parts
collect answer (s, none) = (s, none)
collect answer (s, some parts) = (drop_waiting_parts s, answer)

unfoldable pub send_once :
    Smpp → SmsCenter → List ℕ → List ℕ → List ℕ → Option (List ℕ) → SmsCenter × Option (List ℕ)
unfolding send_sms drop_waiting_parts
send_once smpp s sender to text answer =
    if s.dry_run
    then (s, some (codes "DryRun"))
    else collect answer (send_sms smpp s sender to text)
