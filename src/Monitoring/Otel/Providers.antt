-- ===== src/Monitoring/Otel/Providers.antt =====
-- monitoring/otel/otello.go: the attributes of a service, and the loop that draws a span's number.
use arcella_lib.Prelude.Text.{codes, text_eq, text_eq_iff}
use arcella_lib.Monitoring.Otel.{
  ConfigOtello, KeyValue, blank, named, attributes, usable, new_span_id,
}
use arcella_lib.Prelude.{
  ◌⊎◌, true, from_next, ◌==◌, ◌∙◌, ◌||◌, ◌∷◌, ◌≢◌, ◌≡◌, ◌<◌, ◌≤◌, ◌+◌, if◌then◌else◌, Option-cases,
  Bool-cases, get_elem?, arith, inr, inl, [], List, some, none, Option, false, Bool, ap, refl, suc,
  zero, ℕ,
}

abbrev pub has_key : List ℕ → List KeyValue → Bool
has_key k [] = false
has_key k ((j, v) ∷ kvs) = text_eq j k || has_key k kvs

-- With a unique name set, the attributes lack the name of the service, unless a label has its key: it
-- is overwritten, and the place that is made for the unique name holds an empty key.
pub attributes_unnamed :
    (c : ConfigOtello)
    → c.unq_service_name ≢ []
    → has_key (codes "service.name") c.labels ≡ false
    → (has_key (codes "service.name") (attributes c) ≡ false)
      × (get_elem? (attributes c) 1 ≡ some blank)
unfolding attributes
attributes_unnamed c ne lack =
    let set : text_eq c.unq_service_name [] ≡ false =
      ground (arith, text_eq_iff c.unq_service_name []) in
    (
      ap
            (λ (b : Bool). has_key (codes "service.name") (
              (if b
                then (codes "service.name", c.service_name)
                else (codes "service.unique.name", c.unq_service_name))
              ∷ (if b then c.labels else blank ∷ c.labels)))
            set
          ∙ lack,
      ap (λ (b : Bool). get_elem? (named c ∷ (if b then c.labels else blank ∷ c.labels)) 1) set,
    )

module _ (is_valid : List ℕ → Bool) where
  abbrev FirstUsable : (ℕ → Option (List ℕ)) → ℕ → ℕ → List ℕ → Type 0
  FirstUsable read round end sid =
      (j : ℕ) × (round ≤ j)
      × (j < end)
      × (usable is_valid (read j) ≡ some sid)
      × ((i : ℕ) → round ≤ i → i < j → usable is_valid (read i) ≡ none)

  none_below :
      (read : ℕ → Option (List ℕ)) (round i : ℕ)
      → round ≤ i
      → i < round
      → usable is_valid (read i) ≡ none
  none_below read round i le lt = absurd (omega arith)

  new_span_id_from :
      (read : ℕ → Option (List ℕ)) (rounds round k : ℕ) (sid : List ℕ)
      → usable is_valid (read k) ≡ some sid
      → round ≤ k
      → k < round + rounds
      → (first : List ℕ) × (new_span_id is_valid read round rounds ≡ some first)
        × FirstUsable read round (suc k) first
  unfolding new_span_id
  new_span_id_from read zero round k sid e le lt = absurd (omega arith)
  new_span_id_from read (suc rounds) round k sid e le lt =
      elim (Option-cases (usable is_valid (read round))) [
        | inr (first, found) ↦
            (first, rw found refl, (round, omega arith, omega arith, found, none_below read round))
        | inl missing ↦ elim (Bool-cases (k == round)) [
          | inl same ↦
              let at : k ≡ round = ground arith in
              absurd (ground (arith, ap (λ (n : ℕ). usable is_valid (read n)) at))
          | inr other ↦
              let (first, got, (j, ge, before, usable_j, lower)) =
                new_span_id_from read rounds (suc round) k sid e (ground arith) (omega arith) in
              (
                first,
                rw missing (ap (λ (n : ℕ). new_span_id is_valid read n rounds) (omega arith) ∙ got),
                (
                  j,
                  omega arith,
                  before,
                  usable_j,
                  from_next (λ i. usable is_valid (read i) ≡ none) round j missing lower,
                ),
              )
        ]
      ]

  usable-some :
      (o : Option (List ℕ)) (sid : List ℕ)
      → usable is_valid o ≡ some sid
      → (o ≡ some sid) × (is_valid sid ≡ true)
  usable-some none sid e = absurd (ground arith)
  usable-some (some s) sid e = elim (Bool-cases (is_valid s)) [
    | inl valid ↦ let same : s ≡ sid = ground arith in (ap some same, rw (← same) valid)
    | inr bad ↦ absurd (ground arith)
  ]

  -- A reading fails, or what it reads is not valid.
  abbrev pub IsLost : Option (List ℕ) → Type 0
  IsLost o = (o ≡ none) ⊎ ((sid : List ℕ) × (o ≡ some sid) × (is_valid sid ≡ false))

  usable-none : (o : Option (List ℕ)) → usable is_valid o ≡ none → IsLost o
  usable-none none e = inl refl
  usable-none (some s) e = elim (Bool-cases (is_valid s)) [
    | inl valid ↦ absurd (ground arith)
    | inr bad ↦ inr (s, refl, bad)
  ]

  -- A reading up to the k-th succeeds with a valid number, and all before it are lost.
  abbrev pub IsFirst : (ℕ → Option (List ℕ)) → ℕ → List ℕ → Type 0
  IsFirst read k sid =
      (j : ℕ) × (j ≤ k)
      × (read j ≡ some sid)
      × (is_valid sid ≡ true)
      × ((i : ℕ) → i < j → IsLost (read i))

  -- The loop that draws a span's number ends: if some reading of crypto/rand succeeds with a valid
  -- number, then as many rounds as reach it are enough. The result is what the first reading gives that
  -- neither fails nor has a number that is not valid.
  pub new_span_id_lem :
      (read : ℕ → Option (List ℕ)) (rounds k : ℕ) (sid : List ℕ)
      → read k ≡ some sid
      → is_valid sid ≡ true
      → k < rounds
      → (first : List ℕ) × (new_span_id is_valid read 0 rounds ≡ some first) × IsFirst read k first
  new_span_id_lem read rounds k sid e valid lt =
      let good : usable is_valid (read k) ≡ some sid = rw (e, valid) refl in
      let (first, got, (j, _, before, found, lost)) =
        new_span_id_from read rounds 0 k sid good (omega arith) (omega arith) in
      let (reads, fine) = usable-some (read j) first found in
      (
        first,
        got,
        (j, omega arith, reads, fine, λ i lower. usable-none (read i) (lost i (omega arith) lower)),
      )
