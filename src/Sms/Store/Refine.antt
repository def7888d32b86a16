-- ===== src/Sms/Store/Refine.antt =====
-- smsc/CustomStore.go: the store as a map from sequence numbers to requests.
use arcella_lib.Prelude.Int.{ℤ, pos, negsuc}
use arcella_lib.Prelude.Text.{All, text_eq, text_eq_iff}
use arcella_lib.Prelude.Parse.{format_int, parse_int, parse_int-format_int, IsInt64}
use arcella_lib.Sms.Store.{
  BigCache, Codec, Request, Error, canceled, IsFaithful, serialize, deserialize, written, put, set,
  get, delete, clear, found,
}
use arcella_lib.Prelude.{
  ◌==◌, ◌∙◌, ◌∷◌, ◌↔◌, ◌≡◌, if◌then◌else◌, arith, [], List, some, none, Option, false, true, Bool,
  ap, sym, refl, ℕ,
}

abbrev pub int_eq : ℤ → ℤ → Bool
int_eq (pos a) (pos b) = a == b
int_eq (negsuc a) (negsuc b) = a == b
int_eq _ _ = false

int_eq_iff : (a b : ℤ) → (int_eq a b ≡ true) ↔ (a ≡ b)
int_eq_iff (pos a) (pos b) = ground arith
int_eq_iff (negsuc a) (negsuc b) = ground arith
int_eq_iff (pos a) (negsuc b) = (λ e. cc, λ e. cc)
int_eq_iff (negsuc a) (pos b) = (λ e. cc, λ e. cc)

same_truth : (a b : Bool) → (a ≡ true → b ≡ true) → (b ≡ true → a ≡ true) → a ≡ b
same_truth true b f g = sym (f refl)
same_truth false true f g = g refl
same_truth false false f g = refl

some_inj : (a b : ℤ) → ◌≡◌ {A = Option ℤ} (some a) (some b) → a ≡ b
some_inj a b e = ground arith

-- Different sequence numbers have different keys.
text_eq-format_int :
    (a b : ℤ) → IsInt64 a → IsInt64 b → text_eq (format_int a) (format_int b) ≡ int_eq a b
text_eq-format_int a b ha hb =
    same_truth _ _
      (λ e. (int_eq_iff a b).1 (
        some_inj a b (
          sym (parse_int-format_int a ha)
          ∙ ap parse_int ((text_eq_iff (format_int a) (format_int b)).0 e)
          ∙ parse_int-format_int b hb)))
      (λ e. (text_eq_iff (format_int a) (format_int b)).1 (ap format_int ((int_eq_iff a b).0 e)))

-- The calls that write, each with whether its context is done.
pub data Call (Pdu : Type 0) : Type 0 where
  sets : Bool → Pdu → ℕ → Call Pdu
  deletes : Bool → ℤ → Call Pdu
  clears : Bool → Call Pdu

-- the number of a call is one of Go's
abbrev pub Numbered : {Pdu : Type 0} → Call Pdu → Type 0
Numbered (deletes is_done n) = IsInt64 n
Numbered _ = Unit {0}

abbrev pub View : Type 0 → Type 0
View Pdu = ℤ → Option (Request Pdu)

module _ {S Pdu : Type 0} (cache : BigCache S) (codec : Codec Pdu) where
  -- what a call does to the map
  abbrev pub apply : Call Pdu → View Pdu → View Pdu
  apply (sets is_done p time_sent) v n =
      if int_eq (codec.sequence_number p) n
      then some (record { pdu = some p; time_sent = time_sent })
      else v n
  apply (deletes is_done m) v n = if int_eq m n then none else v n
  apply (clears is_done) v n = none

  -- only a call that returns no error
  abbrev pub applied : Call Pdu → Option Error → View Pdu → View Pdu
  applied c none v = apply c v
  applied c (some e) v = v

  unfoldable pub replay : List (Call Pdu) → List (Option Error) → View Pdu → View Pdu
  replay (c ∷ cs) (e ∷ es) v = replay cs es (applied c e v)
  replay _ _ v = v

  unfoldable pub call : Call Pdu → Option S → Option S × Option Error
  unfolding set delete clear
  call (sets is_done p time_sent) s = set cache codec is_done s p time_sent
  call (deletes is_done n) s = delete cache codec is_done s n
  call (clears is_done) s = clear cache codec is_done s

  unfoldable pub run : List (Call Pdu) → Option S → Option S × List (Option Error)
  unfolding call
  run [] s = (s, [])
  run (c ∷ cs) s = let r = call c s in let rest = run cs r.0 in (rest.0, r.1 ∷ rest.1)

  -- what `Get` reads in a cache
  abbrev pub view : S → View Pdu
  view s n = get cache codec false (some s) n

  -- A call on a cache leaves a cache; what it reads at `n` is what the call says.
  abbrev Steps : Call Pdu → S → ℤ → Option S × Option Error → Type 0
  Steps c s n (s', e) = (t : S) × (s' ≡ some t) × (view t n ≡ applied c e (view s) n)

  written-Steps :
      (c : Call Pdu) (s : S) (n : ℤ) (o : Option S)
      → ((t : S) → o ≡ some t → view t n ≡ apply c (view s) n)
      → Steps c s n (written cache codec (some s) o)
  written-Steps c s n none k = (s, refl, refl)
  written-Steps c s n (some t) k = (t, refl, k t refl)

  guarded-Steps :
      (c : Call Pdu) (s : S) (n : ℤ) (is_done : Bool) (r : Option S × Option Error)
      → Steps c s n r
      → Steps c s n (if is_done then (some s, some canceled) else r)
  guarded-Steps c s n true r k = (s, refl, refl)
  guarded-Steps c s n false r k = k

  module _ (h : IsFaithful cache codec) where
    deserialize-serialize :
        (p : Pdu) (time_sent : ℕ) (b : List ℕ)
        → serialize cache codec p time_sent ≡ some b
        → deserialize cache codec b ≡ some (record { pdu = some p; time_sent = time_sent })
    unfolding serialize deserialize
    deserialize-serialize p time_sent b e =
        rw (h.gob_round (codec.marshal p, time_sent) b e, h.parse_marshal p) refl

    found_if :
        (b : Bool) (x y : Option (List ℕ)) (r : Option (Request Pdu))
        → found cache codec x ≡ r
        → found cache codec (if b then x else y) ≡ (if b then r else found cache codec y)
    found_if true x y r e = e
    found_if false x y r e = refl

    put-Steps :
        (is_done : Bool) (p : Pdu) (time_sent : ℕ) (s : S) (n : ℤ) (o : Option (List ℕ))
        → IsInt64 n
        → serialize cache codec p time_sent ≡ o
        → Steps
            (sets is_done p time_sent)
            s
            n
            (put cache codec s (format_int (codec.sequence_number p)) o)
    unfolding get
    put-Steps is_done p time_sent s n none hn e = (s, refl, refl)
    put-Steps is_done p time_sent s n (some b) hn e =
        let k = codec.sequence_number p in
        let r = some (record { pdu = some p; time_sent = time_sent }) in
        written-Steps (sets is_done p time_sent) s n (cache.set (format_int k) b s) λ t stored.
          ap (found cache codec) (h.get_set (format_int k) (format_int n) b s t stored)
          ∙ found_if (text_eq (format_int k) (format_int n)) (some b) (cache.get (format_int n) s) r
              (deserialize-serialize p time_sent b e)
          ∙ ap (λ (same : Bool). if same then r else view s n)
              (text_eq-format_int k n (h.is_int64 p) hn)

    call-Steps :
        (c : Call Pdu) (s : S) (n : ℤ) → IsInt64 n → Numbered c → Steps c s n (call c (some s))
    unfolding call set delete clear get
    call-Steps (sets is_done p time_sent) s n hn hc =
        guarded-Steps (sets is_done p time_sent) s n is_done _
          (put-Steps is_done p time_sent s n (serialize cache codec p time_sent) hn refl)
    call-Steps (deletes is_done m) s n hn hc = guarded-Steps (deletes is_done m) s n is_done _ (
        written-Steps (deletes is_done m) s n (cache.delete (format_int m) s) λ t gone.
          ap (found cache codec) (h.get_delete (format_int m) (format_int n) s t gone)
          ∙ found_if (text_eq (format_int m) (format_int n)) none (cache.get (format_int n) s) none
              refl
          ∙ ap (λ (same : Bool). if same then none else view s n) (text_eq-format_int m n hc hn))
    call-Steps (clears is_done) s n hn hc = guarded-Steps (clears is_done) s n is_done _ (
        written-Steps (clears is_done) s n (cache.reset s)
          λ t gone. ap (found cache codec) (h.get_reset (format_int n) s t gone))

    applied_congr :
        (c : Call Pdu) (e : Option Error) (v w : View Pdu) (n : ℤ)
        → v n ≡ w n
        → applied c e v n ≡ applied c e w n
    applied_congr c (some e) v w n k = k
    applied_congr (sets is_done p time_sent) none v w n k =
        ap
          (λ (x : Option (Request Pdu)).
            if int_eq (codec.sequence_number p) n
            then some (record { pdu = some p; time_sent = time_sent })
            else x)
          k
    applied_congr (deletes is_done m) none v w n k =
        ap (λ (x : Option (Request Pdu)). if int_eq m n then none else x) k
    applied_congr (clears is_done) none v w n k = refl

    replay_congr :
        (cs : List (Call Pdu)) (es : List (Option Error)) (v w : View Pdu) (n : ℤ)
        → v n ≡ w n
        → replay cs es v n ≡ replay cs es w n
    unfolding replay
    replay_congr [] es v w n k = k
    replay_congr (c ∷ cs) [] v w n k = k
    replay_congr (c ∷ cs) (e ∷ es) v w n k =
        replay_congr cs es (applied c e v) (applied c e w) n (applied_congr c e v w n k)

    run-Steps :
        (cs : List (Call Pdu)) (s : S) (n : ℤ)
        → IsInt64 n
        → All Numbered cs
        → (t : S) × ((run cs (some s)).0 ≡ some t)
          × (view t n ≡ replay cs (run cs (some s)).1 (view s) n)
    unfolding run replay
    run-Steps [] s n hn hcs = (s, refl, refl)
    run-Steps (c ∷ cs) s n hn (hc, hcs) =
        let (mid, em, vm) = call-Steps c s n hn hc in
        let (last, el, vl) = run-Steps cs mid n hn hcs in
        (
          last,
          ap (λ (o : Option S). (run cs o).0) em ∙ el,
          vl
              ∙ replay_congr cs (run cs (some mid)).1 (view mid)
                  (applied c (call c (some s)).1 (view s)) n vm
              ∙ ap
                  (λ (o : Option S).
                    replay cs (run cs o).1 (applied c (call c (some s)).1 (view s)) n)
                  (sym em),
        )

    -- While the cache evicts nothing, Get returns after any sequence of calls on a store that could be
    -- made the request that a map from sequence numbers holds, changed in turn by those calls that
    -- return no error; different numbers do not meet in one key.
    pub get-run-replay :
        (cs : List (Call Pdu)) (s : S) (n : ℤ)
        → IsInt64 n
        → All Numbered cs
        → get cache codec false (run cs (some s)).0 n
          ≡ replay cs (run cs (some s)).1 (get cache codec false (some s)) n
    get-run-replay cs s n hn hcs =
        let (t, e, v) = run-Steps cs s n hn hcs in
        ap (λ (o : Option S). get cache codec false o n) e ∙ v
