-- ===== src/Utils/Uuid/Bytes.antt =====
-- utils/uuid/uuid.go: the bits that it sets and masks in a byte, checked for every value.
use Prim.Native.Nat.{bit_and, bit_or, bit_xor}
use arcella_lib.Prelude.Text.{all_below, all_below_sound}
use arcella_lib.Prelude.{◌==◌, ◌&&◌, ◌≡◌, ◌<◌, ◌^◌, ◌%◌, ◌*◌, ◌+◌, ltb, arith, true, Bool, refl, ℕ}

version_ok : ℕ → Bool
version_ok b = bit_or (bit_and b 0x0f) (7 * 2 ^ 4) == 112 + b % 16

version_table : all_below 256 version_ok ≡ true
unfolding version_ok
version_table = refl

pub version_byte : (b : ℕ) → b < 256 → bit_or (bit_and b 0x0f) (7 * 2 ^ 4) ≡ 112 + b % 16
unfolding version_ok
version_byte b lt = ground (arith, all_below_sound 256 version_ok b version_table lt)

variant_ok : ℕ → Bool
variant_ok b = bit_or (bit_and b 0x3f) 0x80 == 128 + b % 64

variant_table : all_below 256 variant_ok ≡ true
unfolding variant_ok
variant_table = refl

pub variant_byte : (b : ℕ) → b < 256 → bit_or (bit_and b 0x3f) 0x80 ≡ 128 + b % 64
unfolding variant_ok
variant_byte b lt = ground (arith, all_below_sound 256 variant_ok b variant_table lt)

xor_ok : ℕ → ℕ → Bool
xor_ok a b = bit_xor (bit_xor a b) b == a && ltb (bit_xor a b) 256

xor_row : ℕ → Bool
xor_row a = all_below 256 (xor_ok a)

xor_table : all_below 256 xor_row ≡ true
unfolding xor_row xor_ok
xor_table = refl

-- A byte masked twice with the same key byte is itself, and masked once is a byte.
pub xor_byte : (a b : ℕ) → a < 256 → b < 256 → (bit_xor (bit_xor a b) b ≡ a) × (bit_xor a b < 256)
unfolding xor_ok
xor_byte a b la lb = ground (
  arith,
  all_below_sound 256 (xor_ok a) b (unfold xor_row in all_below_sound 256 xor_row a xor_table la)
      lb,
)
