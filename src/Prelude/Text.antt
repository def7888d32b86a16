-- ===== src/Prelude/Text.antt =====
-- Texts that a function takes apart, as the list of their bytes; numbers in decimal and hexadecimal
-- as Go's strconv, fmt and encoding/hex print them.
use Prim.Native.Nat.{◌-◌, ℕ, zero, suc, ◌+◌, ◌/◌, ◌%◌, ◌<◌}
use Prim.Native.Char.{code}
use Prim.Native.String.{String}
use mathlib.Core.Path.{◌≡◌, refl}
use mathlib.Core.Logic.{◌↔◌}
use mathlib.Core.Bool.{Bool, true, false, ◌&&◌, ◌||◌}
use mathlib.Core.List.{List, [], ◌∷◌, ◌++◌}
use native.Mathlib.Omega.{arith}
use arcella_lib.Prelude.Tests.{ltb, leb, ◌==◌, if◌then◌else◌}

-- The bytes of an ASCII text.
abbrev pub codes : String → List ℕ
codes String.[] = []
codes (String.◌∷◌ c s) = code c ∷ codes s

abbrev pub text_eq : List ℕ → List ℕ → Bool
text_eq [] [] = true
text_eq (x ∷ xs) (y ∷ ys) = (x == y) && text_eq xs ys
text_eq _ _ = false

pub text_eq_iff : (xs ys : List ℕ) → (text_eq xs ys ≡ true) ↔ (xs ≡ ys)
text_eq_iff [] [] = (λ _. refl, λ _. refl)
text_eq_iff [] (y ∷ ys) = (λ e. cc, λ e. cc)
text_eq_iff (x ∷ xs) [] = (λ e. cc, λ e. cc)
text_eq_iff (x ∷ xs) (y ∷ ys) = ground (arith, text_eq_iff xs ys)

-- every element passes
abbrev pub All {ℓ κ} : {A : Type ℓ} → (A → Type κ) → List A → Type κ
All P [] = Unit
All P (x ∷ xs) = P x × All P xs

abbrev pub AllBytes : List ℕ → Type 0
AllBytes = All (λ b. b < 256)

pub AllBytes-append : (xs ys : List ℕ) → AllBytes xs → AllBytes ys → AllBytes (xs ++ ys)
AllBytes-append [] ys h k = k
AllBytes-append (x ∷ xs) ys (lt, h) k = (lt, AllBytes-append xs ys h k)

-- strings.HasPrefix, the prefix first
unfoldable pub has_prefix : List ℕ → List ℕ → Bool
has_prefix [] s = true
has_prefix (c ∷ p) [] = false
has_prefix (c ∷ p) (d ∷ s) = c == d && has_prefix p s

-- strings.Split at a byte
abbrev cons_first : ℕ → List (List ℕ) → List (List ℕ)
cons_first c [] = (c ∷ []) ∷ []
cons_first c (w ∷ ws) = (c ∷ w) ∷ ws

unfoldable pub split : ℕ → List ℕ → List (List ℕ)
split sep [] = [] ∷ []
split sep (c ∷ s) = let rest = split sep s in if c == sep then [] ∷ rest else cons_first c rest

-- strings.ToLower on ASCII
unfoldable pub to_lower : ℕ → ℕ
to_lower c = if leb b'A' c && leb c b'Z' then c + 32 else c

unfoldable pub is_alnum : ℕ → Bool
is_alnum c =
    (leb b'a' c && leb c b'z') || ((leb b'A' c && leb c b'Z') || (leb b'0' c && leb c b'9'))

-- what is left when a pattern's matches are deleted, one byte at a time
unfoldable pub keep : (ℕ → Bool) → List ℕ → List ℕ
keep p [] = []
keep p (c ∷ s) = let rest = keep p s in if p c then c ∷ rest else rest

pub keep_all :
    (p : ℕ → Bool) (a b : ℕ) (s : List ℕ)
    → p a ≡ true
    → p b ≡ true
    → keep p (a ∷ b ∷ s) ≡ a ∷ b ∷ keep p s
unfolding keep
keep_all p a b s pa pb = rw (pa, pb)

unfoldable pub hex_upper : ℕ → ℕ
hex_upper d = if ltb d 10 then b'0' + d else b'A' + d - 10

unfoldable pub hex_lower : ℕ → ℕ
hex_lower d = if ltb d 10 then b'0' + d else b'a' + d - 10

-- `n` in the base, most significant digit first; `n + 1` rounds are enough
unfoldable pub show_rounds : ℕ → (ℕ → ℕ) → ℕ → ℕ → List ℕ → List ℕ
show_rounds base digit zero n acc = acc
show_rounds base digit (suc f) n acc =
    let rest = show_rounds base digit f (n / base) (digit (n % base) ∷ acc) in
    if n / base == 0 then digit (n % base) ∷ acc else rest

abbrev pub dec_digit : ℕ → ℕ
dec_digit d = b'0' + d

-- strconv.Itoa and FormatUint(n, 10)
unfoldable pub itoa : ℕ → List ℕ
unfolding show_rounds
itoa n = show_rounds 10 dec_digit (suc n) n []

-- ToUpper(FormatInt(n, 16))
unfoldable pub itoa_hex : ℕ → List ℕ
unfolding show_rounds hex_upper
itoa_hex n = show_rounds 16 hex_upper (suc n) n []

test_itoa : itoa 30210 ≡ codes "30210"
unfolding itoa
test_itoa = refl

test_hex : itoa_hex 48879 ≡ codes "BEEF"
unfolding itoa_hex
test_hex = refl

-- Over a small range, every value is checked by evaluation.
abbrev pub all_below : ℕ → (ℕ → Bool) → Bool
all_below zero p = true
all_below (suc n) p = p n && all_below n p

pub all_below_sound : (n : ℕ) (p : ℕ → Bool) (x : ℕ) → all_below n p ≡ true → x < n → p x ≡ true
all_below_sound zero p x h lt = absurd (omega arith)
all_below_sound (suc n) p x h lt = ground (arith, all_below_sound n p x)
