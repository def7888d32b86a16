-- ===== src/Sms/Waiters.antt =====
-- smsc/smsc.go: who waits for an answer.
use arcella_lib.Prelude.Dict.{Dict, insert, remove, lookup-insert, lookup-remove}
use arcella_lib.Sms.{
  has, SmsCenter, number_eq, handle_submit_sm_response, waiting, drop_waiting_parts,
  drop_waiting_parts_from, submit_parts, Smpp, send_sms, send_once, collect,
}
use arcella_lib.Prelude.{
  ◌==◌, ◌||◌, ◌&&◌, ◌∷◌, ◌≢◌, ◌≡◌, if◌then◌else◌, Bool-cases, arith, inr, inl, [], List, some, none,
  Option, not, false, true, Bool, refl, ℕ,
}

abbrev pub waits : ℕ → SmsCenter → Bool
waits msg s = has msg s.wait_chs

abbrev pub one_of : ℕ → List ℕ → Bool
one_of m [] = false
one_of m (x ∷ xs) = (x == m) || one_of m xs

has-insert :
    (k m : ℕ) (v : Option (List ℕ)) (chs : Dict ℕ (Option (List ℕ)))
    → has m (insert k v chs) ≡ (k == m) || has m chs
unfolding has
has-insert k m v chs = elim (Bool-cases (k == m)) [
  | inl e ↦ rw (lookup-insert k m v chs, e) refl
  | inr e ↦ rw (lookup-insert k m v chs, e) refl
]

has-remove :
    (k m : ℕ) (chs : Dict ℕ (Option (List ℕ))) → has m (remove k chs) ≡ not (k == m) && has m chs
unfolding has
has-remove k m chs = elim (Bool-cases (k == m)) [
  | inl e ↦ rw (lookup-remove k m chs, e) refl
  | inr e ↦ rw (lookup-remove k m chs, e) refl
]

waits-drop_from :
    (m : ℕ) (messages : List ℕ) (s : SmsCenter)
    → waits m (drop_waiting_parts_from messages s) ≡ not (one_of m messages) && waits m s
unfolding drop_waiting_parts_from
waits-drop_from m [] s = refl
waits-drop_from m (msg ∷ messages) s = ground (
  arith,
  waits-drop_from m messages (record s { wait_chs = remove msg s.wait_chs }),
  has-remove msg m s.wait_chs,
)

-- the parts before the first that is refused
abbrev pub accepted : (ℕ → Bool) → List ℕ → List ℕ
accepted submit [] = []
accepted submit (msg ∷ messages) =
    let rest = accepted submit messages in if submit msg then msg ∷ rest else []

abbrev pub all_accepted : (ℕ → Bool) → List ℕ → Bool
all_accepted submit [] = true
all_accepted submit (msg ∷ messages) = submit msg && all_accepted submit messages

-- No part of the message waits yet: the parts are new.
abbrev pub Fresh : List ℕ → SmsCenter → Type 0
Fresh messages s = (m : ℕ) → one_of m messages ≡ true → waits m s ≡ false

-- no part occurs twice
abbrev pub Distinct : List ℕ → Type 0
Distinct [] = Unit {0}
Distinct (msg ∷ messages) = (one_of msg messages ≡ false) × Distinct messages

-- If no part of a message waits yet and none occurs twice, then after the parts have been submitted,
-- or one has been refused, exactly those wait that waited before or are parts which the library has
-- accepted.
pub waits-submit_parts :
    (submit : ℕ → Bool) (messages : List ℕ) (s : SmsCenter) (m : ℕ)
    → Fresh messages s
    → Distinct messages
    → waits m (submit_parts submit messages s).0 ≡ one_of m (accepted submit messages) || waits m s
unfolding submit_parts
waits-submit_parts submit [] s m fresh distinct = refl
waits-submit_parts submit (msg ∷ messages) s m fresh (new, distinct) =
    let s' = waiting msg s in
    let fresh' : Fresh messages s' =
      (λ x h. ground (arith, has-insert msg x none s.wait_chs, fresh x)) in
    elim (Bool-cases (submit msg)) [
      | inl e ↦ rw e (
          ground (
            arith,
            waits-submit_parts submit messages s' m fresh' distinct,
            has-insert msg m none s.wait_chs,
          ))
      | inr e ↦ rw e (
          ground (
            arith,
            waits-drop_from m messages (record s' { wait_chs = remove msg s'.wait_chs }),
            has-remove msg m s'.wait_chs,
            has-insert msg m none s.wait_chs,
            fresh m,
          ))
    ]

-- An answer reaches the channel of its message exactly if that waits, and ends its wait alone.
pub handle_submit_sm_response_lem :
    (s : SmsCenter) (orig m : ℕ) (message_id : List ℕ)
    → let r = handle_submit_sm_response s (some orig) message_id in
      (r.1 ≡ (if waits orig s then some (orig, message_id) else none))
      × (waits m r.0 ≡ not (orig == m) && waits m s)
unfolding handle_submit_sm_response
handle_submit_sm_response_lem s orig m message_id =
    ground (arith, has-remove orig m s.wait_chs, has-remove orig orig s.wait_chs)

collect-waits :
    (answer : Option (List ℕ)) (r : SmsCenter × Option (List ℕ)) (m : ℕ)
    → r.1 ≢ none
    → waits m (collect answer r).0 ≡ false
unfolding drop_waiting_parts has
collect-waits answer (s, none) m h = absurd (h refl)
collect-waits answer (s, some parts) m h = refl

-- A message that was sent, answered or not, leaves no waiter behind.
pub send_once-waits :
    (smpp : Smpp) (s : SmsCenter) (sender to text : List ℕ) (answer : Option (List ℕ)) (m : ℕ)
    → s.dry_run ≡ false
    → (send_sms smpp s sender to text).1 ≢ none
    → waits m (send_once smpp s sender to text answer).0 ≡ false
unfolding send_once
send_once-waits smpp s sender to text answer m dry parts =
    ground (arith, collect-waits answer (send_sms smpp s sender to text) m parts)
