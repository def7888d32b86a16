-- ===== src/Prelude/Parse.antt =====
-- Numbers and Booleans as Go's strconv reads them from decimal text.
use Prim.Native.Nat.{ℕ, zero, suc, ◌+◌, ◌-◌, ◌*◌, ◌/◌, ◌%◌, ◌^◌, ◌<◌}
use mathlib.Core.Path.{◌≡◌, refl}
use mathlib.Core.Logic.{◌≢◌}
use mathlib.Core.Bool.{Bool, true, false, ◌&&◌, ◌||◌}
use mathlib.Core.Option.{Option, none, some}
use mathlib.Core.List.{List, [], ◌∷◌}
use native.Mathlib.Omega.{arith}
use arcella_lib.Prelude.Tests.{ltb, leb, ◌==◌, if◌then◌else◌}
use arcella_lib.Prelude.Int.{ℤ, pos, negsuc, opposite}
use arcella_lib.Prelude.Text.{codes, text_eq, dec_digit, show_rounds, itoa}

abbrev pub is_digit : ℕ → Bool
is_digit c = leb b'0' c && leb c b'9'

-- the number whose digits follow those of `n`
unfoldable pub digits_from : ℕ → List ℕ → Option ℕ
digits_from n [] = some n
digits_from n (c ∷ s) =
    let rest = digits_from (n * 10 + (c - b'0')) s in if is_digit c then rest else none

abbrev pub below : ℕ → Option ℕ → Option ℕ
below bound none = none
below bound (some n) = if ltb n bound then some n else none

-- `strconv.ParseUint(s, 10, 64)`
unfoldable pub parse_uint : List ℕ → Option ℕ
unfolding digits_from
parse_uint [] = none
parse_uint (c ∷ s) = below (2 ^ 64) (digits_from 0 (c ∷ s))

abbrev pub positive : Option ℕ → Option ℤ
positive none = none
positive (some n) = if ltb n (2 ^ 63) then some (pos n) else none

abbrev pub negative : Option ℕ → Option ℤ
negative none = none
negative (some n) = if leb n (2 ^ 63) then some (opposite n) else none

-- `strconv.ParseInt(s, 10, 64)`, and `strconv.Atoi`
unfoldable pub parse_int : List ℕ → Option ℤ
unfolding parse_uint
parse_int [] = none
parse_int (c ∷ s) =
    if c == b'-'
    then negative (parse_uint s)
    else if c == b'+'
    then positive (parse_uint s)
    else positive (parse_uint (c ∷ s))

abbrev pub one_of : List ℕ → List (List ℕ) → Bool
one_of s [] = false
one_of s (t ∷ ts) = text_eq s t || one_of s ts

-- `strconv.ParseBool`
unfoldable pub parse_bool : List ℕ → Option Bool
parse_bool s =
    if one_of s
      (codes "1" ∷ codes "t" ∷ codes "T" ∷ codes "TRUE" ∷ codes "true" ∷ codes "True" ∷ [])
    then some true
    else if one_of s
        (codes "0" ∷ codes "f" ∷ codes "F" ∷ codes "FALSE" ∷ codes "false" ∷ codes "False" ∷ [])
    then some false
    else none

digits_from-show_rounds :
    (rounds n : ℕ) (acc : List ℕ)
    → n < rounds
    → digits_from 0 (show_rounds 10 dec_digit rounds n acc) ≡ digits_from n acc
unfolding digits_from show_rounds
digits_from-show_rounds zero n acc lt = absurd (omega arith)
digits_from-show_rounds (suc r) n acc lt =
    ground (arith, digits_from-show_rounds r (n / 10) (dec_digit (n % 10) ∷ acc))

show_rounds_ne : (rounds n d : ℕ) (acc : List ℕ) → show_rounds 10 dec_digit rounds n (d ∷ acc) ≢ []
unfolding show_rounds
show_rounds_ne zero n d acc = λ e. cc
show_rounds_ne (suc r) n d acc =
    ground (arith, show_rounds_ne r (n / 10) (dec_digit (n % 10)) (d ∷ acc))

pub itoa_ne : (n : ℕ) → itoa n ≢ []
unfolding itoa show_rounds
itoa_ne n = ground (arith, show_rounds_ne n (n / 10) (dec_digit (n % 10)) [])

pub digits_from-itoa : (n : ℕ) → digits_from 0 (itoa n) ≡ some n
unfolding itoa digits_from
digits_from-itoa n = digits_from-show_rounds (suc n) n [] (omega arith)

parse_uint_digits :
    (s : List ℕ) (n : ℕ) → s ≢ [] → digits_from 0 s ≡ some n → n < 2 ^ 64 → parse_uint s ≡ some n
unfolding parse_uint
parse_uint_digits [] n ne e fits = absurd (ne refl)
parse_uint_digits (c ∷ s) n ne e fits = rw e (ground arith)

parse_int_digits :
    (s : List ℕ) (n : ℕ)
    → s ≢ []
    → digits_from 0 s ≡ some n
    → n < 2 ^ 63
    → parse_int s ≡ some (pos n)
unfolding parse_int
parse_int_digits [] n ne e fits = absurd (ne refl)
parse_int_digits (c ∷ s) n ne e fits =
    let sign : (c == b'-' ≡ false) × (c == b'+' ≡ false) = unfold digits_from in ground arith in
    rw (sign.0, sign.1, parse_uint_digits (c ∷ s) n ne e (omega arith)) (ground arith)

-- Reading gives back every number below 2^64 that was written in decimal.
pub parse_uint-itoa : (n : ℕ) → n < 2 ^ 64 → parse_uint (itoa n) ≡ some n
parse_uint-itoa n fits = parse_uint_digits (itoa n) n (itoa_ne n) (digits_from-itoa n) fits

-- `strconv.FormatInt(i, 10)`
unfoldable pub format_int : ℤ → List ℕ
unfolding itoa
format_int (pos n) = itoa n
format_int (negsuc n) = b'-' ∷ itoa (suc n)

abbrev pub IsInt64 : ℤ → Type 0
IsInt64 (pos n) = n < 2 ^ 63
IsInt64 (negsuc n) = n < 2 ^ 63

-- Reading gives back every 64-bit integer that was written in decimal.
pub parse_int-format_int : (i : ℤ) → IsInt64 i → parse_int (format_int i) ≡ some i
unfolding format_int
parse_int-format_int (pos n) fits =
    parse_int_digits (itoa n) n (itoa_ne n) (digits_from-itoa n) fits
parse_int-format_int (negsuc n) fits =
    let read : parse_uint (itoa (suc n)) ≡ some (suc n) = parse_uint-itoa (suc n) (omega arith) in
    unfold parse_int in rw read (ground arith)
