-- ===== src/Sms/Tests.antt =====
-- The SMS client on small inputs.
use arcella_lib.Prelude.Text.{codes}
use arcella_lib.Sms.{has, SmsCenter, Smpp, submit_parts, send_sms}
use arcella_lib.Sms.Retries
use arcella_lib.Sms.Retries.{
  Attempt, count, slept, send_message, send_message_bounds, send_message_first,
}
use arcella_lib.Sms.Waiters.{Fresh}
use arcella_lib.Prelude.{
  ◌==◌, ◌∷◌, ◌≢◌, ◌≡◌, if◌then◌else◌, arith, [], some, none, not, false, true, Bool, refl, ℕ,
}

abbrev center : SmsCenter
center = record {
  trans = some 1;
  dry_run = false;
  source_addr = codes "INFO";
  result_timeout = 5000000000;
  wait_chs = [];
}

abbrev two_wait : SmsCenter
two_wait = record center { wait_chs = (7, none) ∷ (8, none) ∷ [] }

abbrev attempts : ℕ → Attempt
attempts i =
    if i == 1 then Retries.failed else if i == 2 then Retries.closing else Retries.sent (codes "id")

abbrev restarts : ℕ → Bool
restarts i = true

abbrev third_refused : ℕ → Bool
third_refused m = not (m == 12)

abbrev library : Smpp
library = record {
  set_address = λ address. true;
  validate_gsm7_string = λ text. [];
  parts = λ text enc. some (10 ∷ 11 ∷ []);
  submit = λ part. true;
}

send_message_first_example :
    ((send_message attempts restarts).1 ≡ Retries.ok (codes "id"))
    × (count (send_message attempts restarts).0 ≡ 3)
send_message_first_example =
    send_message_first attempts restarts (codes "id") 2 (omega arith) (tt, (refl, refl))

three-Fresh : Fresh (10 ∷ 11 ∷ 12 ∷ []) center
unfolding has
three-Fresh m h = refl

sends : (send_sms library center [] (codes "1") (codes "hello")).1 ≢ none
unfolding send_sms submit_parts
sends = ground arith
