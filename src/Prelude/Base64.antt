-- ===== src/Prelude/Base64.antt =====
-- Go's base64.StdEncoding: padded, with line breaks skipped on decoding.
pub mod Prefix
use Prim.Native.Nat.{ℕ, ◌+◌, ◌-◌, ◌*◌, ◌/◌, ◌%◌, ◌<◌}
use mathlib.Core.Path.{◌≡◌, refl, ap, ap₂}
use mathlib.Core.Bool.{Bool, true, false, ◌&&◌, ◌||◌, not}
use mathlib.Core.Option.{Option, none, some}
use mathlib.Core.List.{List, [], ◌∷◌}
use native.Mathlib.Omega.{arith}
use arcella_lib.Prelude.Tests.{ltb, leb, ◌==◌, if◌then◌else◌}
use arcella_lib.Prelude.Text.{AllBytes, keep, all_below, all_below_sound}

unfoldable pub letter : ℕ → ℕ
letter v =
    if ltb v 26
    then b'A' + v
    else if ltb v 52
    then b'a' + v - 26
    else if ltb v 62
    then b'0' + v - 52
    else if v == 62
    then b'+'
    else b'/'

-- 64 is no value.
unfoldable pub value : ℕ → ℕ
value c =
    if leb b'A' c && leb c b'Z'
    then c - b'A'
    else if leb b'a' c && leb c b'z'
    then c - b'a' + 26
    else if leb b'0' c && leb c b'9'
    then c - b'0' + 52
    else if c == b'+'
    then 62
    else if c == b'/'
    then 63
    else 64

abbrev pub pad : ℕ
pad = b'='

unfoldable pub encode : List ℕ → List ℕ
unfolding letter
encode [] = []
encode (x ∷ []) = letter (x / 4) ∷ letter (x % 4 * 16) ∷ pad ∷ pad ∷ []
encode (x ∷ y ∷ []) = letter (x / 4) ∷ letter (x % 4 * 16 + y / 16) ∷ letter (y % 16 * 4) ∷ pad ∷ []
encode (x ∷ y ∷ z ∷ s) =
    letter (x / 4)
    ∷ letter (x % 4 * 16 + y / 16)
    ∷ letter (y % 16 * 4 + z / 64)
    ∷ letter (z % 64)
    ∷ encode s

-- the bytes of one quantum's values
abbrev pub byte1 : ℕ → ℕ → ℕ
byte1 a b = a * 4 + b / 16

abbrev pub byte2 : ℕ → ℕ → ℕ
byte2 b c = b % 16 * 16 + c / 4

abbrev pub byte3 : ℕ → ℕ → ℕ
byte3 c d = c % 4 * 64 + d

unfoldable pub bad : ℕ → Bool
unfolding value
bad c = value c == 64

-- a quantum of one or two bytes, which ends the text
unfoldable pub last_quantum : ℕ → ℕ → ℕ → List ℕ → Option (List ℕ)
unfolding bad
last_quantum a b c (_ ∷ _) = none
last_quantum a b c [] =
    if bad a || bad b
    then none
    else if c == pad
    then some (byte1 (value a) (value b) ∷ [])
    else if bad c
    then none
    else some (byte1 (value a) (value b) ∷ byte2 (value b) (value c) ∷ [])

-- a quantum of three bytes, before the rest
unfoldable pub whole_quantum : ℕ → ℕ → ℕ → ℕ → Option (List ℕ) → Option (List ℕ)
unfolding bad
whole_quantum a b c d none = none
whole_quantum a b c d (some r) =
    if bad a || (bad b || (bad c || bad d))
    then none
    else some
        (byte1 (value a) (value b) ∷ byte2 (value b) (value c) ∷ byte3 (value c) (value d) ∷ r)

unfoldable pub decode_groups : List ℕ → Option (List ℕ)
unfolding last_quantum whole_quantum
decode_groups [] = some []
decode_groups (a ∷ b ∷ c ∷ d ∷ s) =
    let rest = decode_groups s in
    if d == pad then last_quantum a b c s else whole_quantum a b c d rest
decode_groups _ = none

abbrev pub no_break : ℕ → Bool
no_break c = not (c == 10 || c == 13)

unfoldable pub decode : List ℕ → Option (List ℕ)
unfolding decode_groups keep
decode s = decode_groups (keep no_break s)

abbrev letter_ok : ℕ → Bool
letter_ok v = value (letter v) == v && (not (letter v == pad) && no_break (letter v))

letter_table : all_below 64 letter_ok ≡ true
unfolding value letter
letter_table = refl

letter_facts :
    (v : ℕ)
    → v < 64
    → (value (letter v) ≡ v) × ((letter v == pad) ≡ false) × (no_break (letter v) ≡ true)
letter_facts v lt = ground (arith, all_below_sound 64 letter_ok v letter_table lt)

letter_good : (v : ℕ) → v < 64 → bad (letter v) ≡ false
unfolding bad
letter_good v lt = ground (arith, letter_facts v lt)

-- The sextets of one, two and three bytes are in range, and give the bytes back.
sextets :
    (x y z : ℕ)
    → x < 256
    → y < 256
    → z < 256
    → (x / 4 < 64) × (x % 4 * 16 + y / 16 < 64) × (y % 16 * 4 + z / 64 < 64) × (z % 64 < 64)
sextets x y z hx hy hz = omega arith

bytes :
    (x y z : ℕ)
    → x < 256
    → y < 256
    → z < 256
    → (byte1 (x / 4) (x % 4 * 16 + y / 16) ≡ x)
      × (byte2 (x % 4 * 16 + y / 16) (y % 16 * 4 + z / 64) ≡ y)
      × (byte3 (y % 16 * 4 + z / 64) (z % 64) ≡ z)
bytes x y z hx hy hz = (omega arith, omega arith, omega arith)

pub keep-encode : (s : List ℕ) → AllBytes s → keep no_break (encode s) ≡ encode s
unfolding keep encode
keep-encode [] h = refl
keep-encode (x ∷ []) h =
    ground (arith, letter_facts (x / 4) (omega arith), letter_facts (x % 4 * 16) (omega arith))
keep-encode (x ∷ y ∷ []) h = ground (
  arith,
  letter_facts (x / 4) (omega arith),
  letter_facts (x % 4 * 16 + y / 16) (omega arith),
  letter_facts (y % 16 * 4) (omega arith),
)
keep-encode (x ∷ y ∷ z ∷ s) (hx, (hy, (hz, h))) =
    let (a, b, c, d) = sextets x y z hx hy hz in
    ground (
      arith,
      letter_facts (x / 4) a,
      letter_facts (x % 4 * 16 + y / 16) b,
      letter_facts (y % 16 * 4 + z / 64) c,
      letter_facts (z % 64) d,
      keep-encode s h,
    )

pub decode_groups-encode : (s : List ℕ) → AllBytes s → decode_groups (encode s) ≡ some s
unfolding encode decode_groups
decode_groups-encode [] h = refl
decode_groups-encode (x ∷ []) h =
    rw
      (
        letter_good (x / 4) (omega arith),
        letter_good (x % 4 * 16) (omega arith),
        (letter_facts (x / 4) (omega arith)).0,
        (letter_facts (x % 4 * 16) (omega arith)).0,
      )
      (ap (λ (n : ℕ). some (n ∷ [])) (omega arith))
decode_groups-encode (x ∷ y ∷ []) h =
    let (a, _, _) = letter_facts (x / 4) (omega arith) in
    let (b, _, _) = letter_facts (x % 4 * 16 + y / 16) (omega arith) in
    let (c, pc, _) = letter_facts (y % 16 * 4) (omega arith) in
    rw
      (
        pc,
        letter_good (x / 4) (omega arith),
        letter_good (x % 4 * 16 + y / 16) (omega arith),
        letter_good (y % 16 * 4) (omega arith),
        a,
        b,
        c,
      )
      (ap₂ (λ (n m : ℕ). some (n ∷ m ∷ [])) (omega arith) (omega arith))
decode_groups-encode (x ∷ y ∷ z ∷ s) (hx, (hy, (hz, h))) =
    let (la, lb, lc, ld) = sextets x y z hx hy hz in
    let (p, q, r) = bytes x y z hx hy hz in
    rw (
      (letter_facts (z % 64) ld).1,
      decode_groups-encode s h,
      letter_good (x / 4) la,
      letter_good (x % 4 * 16 + y / 16) lb,
      letter_good (y % 16 * 4 + z / 64) lc,
      letter_good (z % 64) ld,
      (letter_facts (x / 4) la).0,
      (letter_facts (x % 4 * 16 + y / 16) lb).0,
      (letter_facts (y % 16 * 4 + z / 64) lc).0,
      (letter_facts (z % 64) ld).0,
      p,
      q,
      r,
    )

-- Decoding gives back what was encoded.
pub decode-encode : (s : List ℕ) → AllBytes s → decode (encode s) ≡ some s
unfolding decode
decode-encode s h = rw (keep-encode s h) (decode_groups-encode s h)
