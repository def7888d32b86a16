-- ===== src/Utils/Numbers.antt =====
-- utils/utilsString.go: numbers as text and back.
use arcella_lib.Prelude.Int.{ℤ, pos, negsuc, opposite}
use arcella_lib.Prelude.Text.{itoa, dec_digit, show_rounds}
use arcella_lib.Prelude.Parse.{
  digits_from-itoa, itoa_ne, digits_from, is_digit, parse_uint, parse_int, format_int, IsInt64,
  parse_uint-itoa, parse_int-format_int,
}
use arcella_lib.Prelude.{
  Bool, ◌≢◌, false, refl, ◌==◌, ◌∙◌, ◌∷◌, ◌≡◌, ◌<◌, ◌^◌, ◌%◌, ◌/◌, ◌*◌, ◌-◌, ◌+◌, if◌then◌else◌,
  ltb, arith, [], List, some, none, Option, ap, suc, zero, ℕ,
}

-- How strconv reads digits: it stops at the first byte that is none, or where 64 bits are exceeded.
pub data Scan : Type 0 where
  read : ℕ → Scan
  bad_syntax out_of_range : Scan

unfoldable pub scan : ℕ → List ℕ → Scan
scan n [] = read n
scan n (c ∷ s) =
    let m = n * 10 + (c - b'0') in
    let rest = scan m s in
    if is_digit c then if ltb m (2 ^ 64) then rest else out_of_range else bad_syntax

abbrev pub max_int : ℕ
max_int = 2 ^ 63 - 1

-- the value that `strconv.Atoi` returns, also beside an error
abbrev pub at_most : Scan → ℤ
at_most bad_syntax = pos 0
at_most out_of_range = pos max_int
at_most (read n) = if ltb n (2 ^ 63) then pos n else pos max_int

abbrev pub at_least : Scan → ℤ
at_least bad_syntax = pos 0
at_least out_of_range = negsuc max_int
at_least (read n) = if ltb (2 ^ 63) n then negsuc max_int else opposite n

abbrev pub scan_digits : List ℕ → Scan
scan_digits [] = bad_syntax
scan_digits (c ∷ s) = scan 0 (c ∷ s)

-- `StrToInt`, which drops the error of `strconv.Atoi`
unfoldable pub str_to_int : List ℕ → ℤ
unfolding scan
str_to_int [] = pos 0
str_to_int (c ∷ s) =
    if c == b'-'
    then at_least (scan_digits s)
    else if c == b'+'
    then at_most (scan_digits s)
    else at_most (scan_digits (c ∷ s))

abbrev pub or_default {ℓ} : {A : Type ℓ} → Option A → A → A
or_default none default = default
or_default (some a) default = a

abbrev pub in_int32 : Option ℤ → Option ℤ
in_int32 none = none
in_int32 (some (pos n)) = if ltb n (2 ^ 31) then some (pos n) else none
in_int32 (some (negsuc n)) = if ltb n (2 ^ 31) then some (negsuc n) else none

unfoldable pub str_to_int32_default : List ℕ → ℤ → ℤ
unfolding parse_int
str_to_int32_default str default = or_default (in_int32 (parse_int str)) default

unfoldable pub str_to_int64_default : List ℕ → ℤ → ℤ
unfolding parse_int
str_to_int64_default str default = or_default (parse_int str) default

unfoldable pub str_to_uint64_default : List ℕ → ℕ → ℕ
unfolding parse_uint
str_to_uint64_default str default = or_default (parse_uint str) default

-- `Int64ToStr`, `Int32ToStr`, `Int16ToStr`, `Int8ToStr` and `IntToStr`
unfoldable pub int_to_str : ℤ → List ℕ
unfolding format_int
int_to_str i = format_int i

-- `UInt64ToStr`, `UInt32ToStr` and `UInt16ToStr`
unfoldable pub uint_to_str : ℕ → List ℕ
unfolding itoa
uint_to_str i = itoa i

abbrev pub within : ℕ → Scan → Scan
within n s = if ltb n (2 ^ 64) then s else out_of_range

scan-show_rounds :
    (rounds n : ℕ) (acc : List ℕ)
    → n < rounds
    → scan 0 (show_rounds 10 dec_digit rounds n acc) ≡ within n (scan n acc)
unfolding scan show_rounds
scan-show_rounds zero n acc lt = absurd (omega arith)
scan-show_rounds (suc r) n acc lt =
    ground (arith, scan-show_rounds r (n / 10) (dec_digit (n % 10) ∷ acc))

-- the nearest 64-bit integer
abbrev pub clamp : ℤ → ℤ
clamp (pos n) = if ltb n (2 ^ 63) then pos n else pos max_int
clamp (negsuc n) = if ltb n (2 ^ 63) then negsuc n else negsuc max_int

scan-itoa : (n : ℕ) → scan 0 (itoa n) ≡ within n (read n)
unfolding itoa scan
scan-itoa n = scan-show_rounds (suc n) n [] (omega arith)

str_to_int_digits :
    (s : List ℕ) (n : ℕ) → s ≢ [] → digits_from 0 s ≡ some n → str_to_int s ≡ at_most (scan 0 s)
unfolding str_to_int
str_to_int_digits [] n ne e = absurd (ne refl)
str_to_int_digits (c ∷ s) n ne e =
    let sign : (c == b'-' ≡ false) × (c == b'+' ≡ false) = unfold digits_from in ground arith in
    rw (sign.0, sign.1) refl

scan_digits-itoa : (n : ℕ) → scan_digits (itoa n) ≡ within n (read n)
scan_digits-itoa n = scan_digits_ne (itoa n) (itoa_ne n) ∙ scan-itoa n
  where
    scan_digits_ne : (s : List ℕ) → s ≢ [] → scan_digits s ≡ scan 0 s
    scan_digits_ne [] ne = absurd (ne refl)
    scan_digits_ne (c ∷ s) ne = refl

at_most-within : (n : ℕ) → at_most (within n (read n)) ≡ clamp (pos n)
at_most-within n = ground arith

at_least-within : (n : ℕ) → at_least (within (suc n) (read (suc n))) ≡ clamp (negsuc n)
at_least-within n = ground arith

-- StrToInt of an integer of any size, written in decimal, is the nearest 64-bit integer: a number that
-- is too large gives the largest or the least one, and not 0.
pub str_to_int-format_int : (i : ℤ) → str_to_int (format_int i) ≡ clamp i
unfolding format_int
str_to_int-format_int (pos n) =
    str_to_int_digits (itoa n) n (itoa_ne n) (digits_from-itoa n)
    ∙ ap at_most (scan-itoa n)
    ∙ at_most-within n
str_to_int-format_int (negsuc n) =
    unfold str_to_int in ap at_least (scan_digits-itoa (suc n)) ∙ at_least-within n

abbrev pub fits_int32 : ℤ → Bool
fits_int32 (pos n) = ltb n (2 ^ 31)
fits_int32 (negsuc n) = ltb n (2 ^ 31)

in_int32_lem : (j d : ℤ) → or_default (in_int32 (some j)) d ≡ (if fits_int32 j then j else d)
in_int32_lem (pos n) d = ground arith
in_int32_lem (negsuc n) d = ground arith

clamp_lem : (j : ℤ) → IsInt64 j → clamp j ≡ j
clamp_lem (pos n) lt = ground arith
clamp_lem (negsuc n) lt = ground arith

-- Each integer of 64 bits, written in decimal, is read back by StrToInt and by StrToInt64Default,
-- whatever the default; StrToInt32Default reads it back if it is one of 32 bits, and returns the default
-- otherwise. An unsigned integer of 64 bits is read back by StrToUInt64Default, which returns the default
-- for a negative one.
pub str_to-to_str :
    (j d : ℤ) (n m e : ℕ)
    → IsInt64 j
    → n < 2 ^ 64
    → (str_to_int (int_to_str j) ≡ j)
      × (str_to_int64_default (int_to_str j) d ≡ j)
      × (str_to_int32_default (int_to_str j) d ≡ (if fits_int32 j then j else d))
      × (str_to_uint64_default (uint_to_str n) e ≡ n)
      × (str_to_uint64_default (int_to_str (negsuc m)) e ≡ e)
unfolding str_to_int32_default str_to_int64_default str_to_uint64_default int_to_str uint_to_str
str_to-to_str j d n m e hj hn = (
  str_to_int-format_int j ∙ clamp_lem j hj,
  ap (λ (o : Option ℤ). or_default o d) (parse_int-format_int j hj),
  ap (λ (o : Option ℤ). or_default (in_int32 o) d) (parse_int-format_int j hj) ∙ in_int32_lem j d,
  ap (λ (o : Option ℕ). or_default o e) (parse_uint-itoa n hn),
  unfold parse_uint in unfold format_int in unfold digits_from in refl,
)
