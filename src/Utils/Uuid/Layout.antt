-- ===== src/Utils/Uuid/Layout.antt =====
-- utils/uuid/uuid.go: the fields of a new UUID, and its text.
use arcella_lib.Prelude.Text.{hex_lower, keep, keep_all}
use arcella_lib.Utils.Uuid.{new_uuid7, nano_per_milli, hex_encode, dash, to_string}
use arcella_lib.Utils.Uuid.Bytes.{version_byte, variant_byte}
use arcella_lib.Prelude.{
  length-drop, length-take, length-append, drop-drop, take-append-drop, ◌∙◌, ap, sym, ◌==◌, ◌++◌,
  ◌∷◌, ◌≡◌, ◌<◌, ◌^◌, ◌%◌, ◌/◌, ◌*◌, ◌+◌, drop, take, length, arith, [], List, not, true, Bool,
  refl, suc, zero, ℕ,
}

-- The number whose digits to the base 256 are given.
abbrev pub number_from : ℕ → List ℕ → ℕ
number_from n [] = n
number_from n (b ∷ s) = number_from (n * 256 + b) s

unfoldable pub be_number : List ℕ → ℕ
be_number s = number_from 0 s

-- The byte at a position, 0 past the end.
abbrev pub byte_at : List ℕ → ℕ → ℕ
byte_at [] i = 0
byte_at (b ∷ s) zero = b
byte_at (b ∷ s) (suc i) = byte_at s i

-- A new UUID of ten random bytes has 16 bytes, the version 7 and the variant 2; all other bits behind
-- the first six bytes are the random ones.
pub new_uuid7-bits :
    (nanos r6 r7 r8 : ℕ) (rest : List ℕ)
    → r6 < 256
    → r8 < 256
    → length rest ≡ 7
    → let u = new_uuid7 nanos (r6 ∷ r7 ∷ r8 ∷ rest) in
      (length u ≡ 16)
      × (byte_at u 6 / 16 ≡ 7)
      × (byte_at u 6 % 16 ≡ r6 % 16)
      × (byte_at u 8 / 64 ≡ 2)
      × (byte_at u 8 % 64 ≡ r8 % 64)
      × (drop 9 u ≡ rest)
unfolding new_uuid7
new_uuid7-bits nanos r6 r7 r8 rest h6 h8 len =
    let v = version_byte r6 h6 in
    let w = variant_byte r8 h8 in
    (omega arith, omega arith, omega arith, omega arith, omega arith, refl)

-- The first six bytes of a new UUID are the high 48 of the 64 bits of the millisecond clock: its
-- number of whole periods of 65536 ms, and not the number of milliseconds.
pub new_uuid7-time :
    (nanos : ℕ) (random_bytes : List ℕ)
    → be_number (take 6 (new_uuid7 nanos random_bytes)) ≡ nanos / nano_per_milli % 2 ^ 64 / 65536
unfolding new_uuid7 be_number
new_uuid7-time nanos random_bytes = omega arith

-- Two UUIDs that are made within the same period of 65536 ms do not differ in the first six bytes,
-- whichever is made first.
pub new_uuid7_same_period :
    (n m : ℕ) (r s : List ℕ)
    → n / nano_per_milli / 65536 ≡ m / nano_per_milli / 65536
    → take 6 (new_uuid7 n r) ≡ take 6 (new_uuid7 m s)
unfolding new_uuid7
new_uuid7_same_period n m r s e =
    let b = λ (k : ℕ). k / nano_per_milli % 2 ^ 64 in
    let e0 : b n / 2 ^ 56 % 256 ≡ b m / 2 ^ 56 % 256 = omega arith in
    let e1 : b n / 2 ^ 48 % 256 ≡ b m / 2 ^ 48 % 256 = omega arith in
    let e2 : b n / 2 ^ 40 % 256 ≡ b m / 2 ^ 40 % 256 = omega arith in
    let e3 : b n / 2 ^ 32 % 256 ≡ b m / 2 ^ 32 % 256 = omega arith in
    let e4 : b n / 2 ^ 24 % 256 ≡ b m / 2 ^ 24 % 256 = omega arith in
    let e5 : b n / 2 ^ 16 % 256 ≡ b m / 2 ^ 16 % 256 = omega arith in cc

unfoldable pub not_dash : ℕ → Bool
not_dash c = not (c == dash)

hex_lower-not_dash : (d : ℕ) → not_dash (hex_lower d) ≡ true
unfolding hex_lower not_dash
hex_lower-not_dash d = ground arith

keep-hex_encode :
    (s t : List ℕ) → keep not_dash (hex_encode s ++ t) ≡ hex_encode s ++ keep not_dash t
unfolding hex_encode
keep-hex_encode [] t = refl
keep-hex_encode (b ∷ s) t = rw (
  keep_all not_dash _ _ (hex_encode s ++ t) (hex_lower-not_dash (b / 16))
      (hex_lower-not_dash (b % 16)),
  keep-hex_encode s t,
)

keep-dash : (t : List ℕ) → keep not_dash (dash ∷ t) ≡ keep not_dash t
unfolding keep not_dash
keep-dash t = refl

hex_encode-append : (s t : List ℕ) → hex_encode (s ++ t) ≡ hex_encode s ++ hex_encode t
unfolding hex_encode
hex_encode-append [] t = refl
hex_encode-append (b ∷ s) t = rw (hex_encode-append s t)

pub length-hex_encode : (s : List ℕ) → length (hex_encode s) ≡ 2 * length s
unfolding hex_encode
length-hex_encode [] = omega arith
length-hex_encode (b ∷ s) = omega (arith, length-hex_encode s)

-- cutting a piece off in front
hex_encode_cut :
    (n : ℕ) (s : List ℕ) → hex_encode (take n s) ++ hex_encode (drop n s) ≡ hex_encode s
hex_encode_cut n s =
    sym (hex_encode-append (take n s) (drop n s)) ∙ ap hex_encode (take-append-drop n s)

keep-hex_encode_nil : (s : List ℕ) → keep not_dash (hex_encode s) ≡ hex_encode s
unfolding keep hex_encode
keep-hex_encode_nil [] = refl
keep-hex_encode_nil (b ∷ s) =
    rw (hex_lower-not_dash (b / 16), hex_lower-not_dash (b % 16), keep-hex_encode_nil s)

-- The text of a UUID without its dashes is the hexadecimal of its bytes in order; that of 16 bytes
-- has 36 characters, so that nothing but the four dashes is added.
pub to_string_lem :
    (u : List ℕ)
    → (keep not_dash (to_string u) ≡ hex_encode u) × (length u ≡ 16 → length (to_string u) ≡ 36)
unfolding to_string
to_string_lem u = (
  rw (
    keep-hex_encode,
    keep-dash,
    keep-hex_encode,
    keep-dash,
    keep-hex_encode,
    keep-dash,
    keep-hex_encode,
    keep-dash,
    keep-hex_encode_nil,
    ← drop-drop 8 2 u,
    hex_encode_cut,
    ← drop-drop 6 2 u,
    hex_encode_cut,
    ← drop-drop 4 2 u,
    hex_encode_cut,
    hex_encode_cut,
  ),
  λ len. simp (length-append, length-hex_encode, length-take, length-drop, len) (omega arith),
)
