-- ===== src/Db/Postgres/Listening.antt =====
-- db/postgres/postgreSql.go: listenForEvent, DoPing, and what they put into the two channels.
use mathlib.Core.List.{append-nil, append_assoc}
use arcella_lib.Prelude.{
  true, length-append, take-append_left, ◌∙◌, ◌++◌, ◌∷◌, ◌≡◌, ◌≤◌, if◌then◌else◌, if_intro,
  Bool-cases, ltb, take, length, arith, inr, inl, [], List, some, none, Option, not, false, Bool,
  ap, sym, refl, suc, zero, ℕ,
}

-- The channels of notifications, with room for 64, and of errors, with room for one.
pub record Channels : Type 0 where
  pub notifications : List ℕ
  pub errors : List ℕ

-- what WaitForNotification returns
pub data Waited : Type 0 where
  notified : ℕ → Waited
  failed : ℕ → Waited

-- The loop waits, or it is over and DoPing is called, or it hangs in sending the error.
pub data Loop : Type 0 where
  waits pings hangs : Loop

abbrev pub send : ℕ → Channels → Channels
send n ch =
    if ltb (length ch.notifications) 64
    then record ch { notifications = ch.notifications ++ (n ∷ []) }
    else ch

abbrev pub report : ℕ → Channels → Channels × Loop
report m ch =
    if ltb (length ch.errors) 1
    then (record ch { errors = ch.errors ++ (m ∷ []) }, pings)
    else (ch, hangs)

-- `listenForEvent`, while nobody reads the channels
unfoldable pub listen_for_event : Channels → List Waited → Channels × Loop
listen_for_event ch [] = (ch, waits)
listen_for_event ch (notified n ∷ es) = listen_for_event (send n ch) es
listen_for_event ch (failed m ∷ es) = report m ch

-- the notifications before the first failure
abbrev pub received : List Waited → List ℕ
received [] = []
received (notified n ∷ es) = n ∷ received es
received (failed m ∷ es) = []

-- `DoPing`, with whether the pool answers: whether it calls DoRestart
unfoldable pub do_ping : Option ℕ → Bool → Bool
do_ping none answers = false
do_ping (some pool) answers = not answers

take_all : (n : ℕ) (xs : List ℕ) → length xs ≤ n → take n xs ≡ xs
take_all zero [] le = refl
take_all zero (x ∷ xs) le = absurd (omega arith)
take_all (suc n) [] le = refl
take_all (suc n) (x ∷ xs) le = ap (◌∷◌ x) (take_all n xs (omega arith))

take-append_full : (n : ℕ) (xs ys : List ℕ) → length xs ≡ n → take n (xs ++ ys) ≡ xs
take-append_full n xs ys e = rw (← e) (take-append_left xs ys)

whole :
    (ch : Channels)
    → length ch.notifications ≤ 64
    → ch.notifications ≡ take 64 (ch.notifications ++ [])
whole ch le =
    let e = append-nil ch.notifications in sym (ap (take 64) e ∙ take_all 64 ch.notifications le)

send-notifications :
    (n : ℕ) (ch : Channels) (b : Bool)
    → ltb (length ch.notifications) 64 ≡ b
    → (send n ch).notifications ≡ (if b then ch.notifications ++ (n ∷ []) else ch.notifications)
send-notifications n ch true e =
    ap
      (λ (b : Bool).
        (if b
          then record ch { notifications = ch.notifications ++ (n ∷ []) }
          else ch).notifications)
      e
send-notifications n ch false e =
    ap
      (λ (b : Bool).
        (if b
          then record ch { notifications = ch.notifications ++ (n ∷ []) }
          else ch).notifications)
      e

-- While nobody reads, the channel holds the first 64 of what it held and of the notifications up to the
-- first failure, in their order; the rest is dropped.
pub listen_for_event-notifications :
    (es : List Waited) (ch : Channels)
    → length ch.notifications ≤ 64
    → (listen_for_event ch es).0.notifications ≡ take 64 (ch.notifications ++ received es)
unfolding listen_for_event
listen_for_event-notifications [] ch le = whole ch le
listen_for_event-notifications (failed m ∷ es) ch le =
    if_intro (λ (r : Channels × Loop). r.0.notifications ≡ take 64 (ch.notifications ++ []))
      (ltb (length ch.errors) 1) (λ _. whole ch le) (λ _. whole ch le)
listen_for_event-notifications (notified n ∷ es) ch le =
    let old = ch.notifications in
    elim (Bool-cases (ltb (length old) 64)) [
      | inl room ↦
          let sent : (send n ch).notifications ≡ old ++ (n ∷ []) =
            send-notifications n ch true room in
          let size : length (send n ch).notifications ≤ 64 =
            ground (arith, ap length sent, length-append old (n ∷ [])) in
          listen_for_event-notifications es (send n ch) size
          ∙ ap (λ (xs : List ℕ). take 64 (xs ++ received es)) sent
          ∙ ap (take 64) (append_assoc old (n ∷ []) (received es))
      | inr full ↦
          let sent : (send n ch).notifications ≡ old = send-notifications n ch false full in
          let size : length old ≡ 64 = ground arith in
          listen_for_event-notifications es (send n ch) (rw sent le)
          ∙ ap (λ (xs : List ℕ). take 64 (xs ++ received es)) sent
          ∙ take-append_full 64 old (received es) size
          ∙ sym (take-append_full 64 old (n ∷ received es) size)
    ]
