-- ===== src/Prelude/Base64/Prefix.antt =====
-- What Go's base64 `DecodeString` returns beside an error.
use mathlib.Core.Path.{◌≡◌, refl}
use mathlib.Core.Option.{Option, none, some}
use mathlib.Core.Logic.{inl, inr}
use arcella_lib.Prelude.Tests.{Bool-cases, ◌==◌, if◌then◌else◌}
use arcella_lib.Prelude.Text.{AllBytes, keep}
use arcella_lib.Prelude.Base64.{
  ◌∷◌, arith, [], some, ◌||◌, ◌≡◌, Option, List, ℕ, value, pad, byte1, byte2, byte3, bad,
  last_quantum, whole_quantum, decode_groups, no_break, encode, keep-encode, decode_groups-encode,
}

-- The bytes of the quanta before the one that is refused, and of a padded quantum that more text
-- follows.
last_prefix : ℕ → ℕ → ℕ → List ℕ
unfolding bad
last_prefix a b c =
    if bad a || bad b
    then []
    else if c == pad
    then byte1 (value a) (value b) ∷ []
    else if bad c
    then []
    else byte1 (value a) (value b) ∷ byte2 (value b) (value c) ∷ []

whole_prefix : ℕ → ℕ → ℕ → ℕ → List ℕ → List ℕ
unfolding bad
whole_prefix a b c d r =
    if bad a || (bad b || (bad c || bad d))
    then []
    else byte1 (value a) (value b) ∷ byte2 (value b) (value c) ∷ byte3 (value c) (value d) ∷ r

unfoldable pub prefix_groups : List ℕ → List ℕ
unfolding last_prefix whole_prefix
prefix_groups [] = []
prefix_groups (a ∷ b ∷ c ∷ d ∷ s) =
    let rest = prefix_groups s in if d == pad then last_prefix a b c else whole_prefix a b c d rest
prefix_groups _ = []

-- `DecodeString` with its error ignored
unfoldable pub decode_prefix : List ℕ → List ℕ
unfolding prefix_groups keep
decode_prefix s = prefix_groups (keep no_break s)

last_prefix_of : (a b c : ℕ) (s r : List ℕ) → last_quantum a b c s ≡ some r → last_prefix a b c ≡ r
unfolding last_quantum last_prefix
last_prefix_of a b c [] r e = ground arith
last_prefix_of a b c (_ ∷ _) r e = ground arith

whole_prefix_of :
    (a b c d : ℕ) (o : Option (List ℕ)) (t r : List ℕ)
    → ((q : List ℕ) → o ≡ some q → t ≡ q)
    → whole_quantum a b c d o ≡ some r
    → whole_prefix a b c d t ≡ r
unfolding whole_quantum whole_prefix
whole_prefix_of a b c d none t r same e = ground arith
whole_prefix_of a b c d (some q) t r same e = ground (arith, same q refl)

prefix_groups_of : (s r : List ℕ) → decode_groups s ≡ some r → prefix_groups s ≡ r
unfolding decode_groups prefix_groups
prefix_groups_of [] r e = ground arith
prefix_groups_of (a ∷ []) r e = ground arith
prefix_groups_of (a ∷ b ∷ []) r e = ground arith
prefix_groups_of (a ∷ b ∷ c ∷ []) r e = ground arith
prefix_groups_of (a ∷ b ∷ c ∷ d ∷ s) r e = elim (Bool-cases (d == pad)) [
  | inl last ↦ rw last (last_prefix_of a b c s r (ground arith))
  | inr whole ↦ rw whole (
      whole_prefix_of a b c d (decode_groups s) (prefix_groups s) r (λ q h. prefix_groups_of s q h)
        (ground arith))
]

-- Without an error it is what decoding gives.
pub decode_prefix-encode : (s : List ℕ) → AllBytes s → decode_prefix (encode s) ≡ s
unfolding decode_prefix
decode_prefix-encode s h =
    rw (keep-encode s h) (prefix_groups_of (encode s) s (decode_groups-encode s h))
