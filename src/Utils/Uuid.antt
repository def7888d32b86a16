-- ===== src/Utils/Uuid.antt =====
-- utils/uuid/uuid.go. A UUID is the list of its 16 bytes; the clock's nanoseconds and the bytes of
-- crypto/rand are arguments, and a failing read of the latter panics, so it gives no value.
mod Bytes
pub mod Layout
pub mod Xor
use Prim.Native.Nat.{bit_and, bit_or, bit_xor}
use arcella_lib.Prelude.Text.{codes, hex_lower}
use arcella_lib.Prelude.Base64.{encode, decode}
use arcella_lib.Prelude.{
  ◌==◌, ◌++◌, ◌∷◌, ◌^◌, ◌%◌, ◌/◌, ◌*◌, if◌then◌else◌, drop, take, length, [], List, some, none, ℕ,
}

abbrev pub bytes_len : ℕ
bytes_len = 16

abbrev pub nano_per_milli : ℕ
nano_per_milli = 1000000

-- binary.BigEndian.PutUint64
unfoldable pub put_uint64 : ℕ → List ℕ
put_uint64 v =
    v / 2 ^ 56 % 256
    ∷ v / 2 ^ 48 % 256
    ∷ v / 2 ^ 40 % 256
    ∷ v / 2 ^ 32 % 256
    ∷ v / 2 ^ 24 % 256
    ∷ v / 2 ^ 16 % 256
    ∷ v / 2 ^ 8 % 256
    ∷ v % 256
    ∷ []

unfoldable pub set_version : ℕ → ℕ
set_version b = bit_or (bit_and b 0x0f) (7 * 2 ^ 4)

unfoldable pub set_variant : ℕ → ℕ
set_variant b = bit_or (bit_and b 0x3f) 0x80

-- The two masked bytes are those of offset 6 and 8: the first and the third of the random ones.
unfoldable pub set_bits : List ℕ → List ℕ
unfolding set_version set_variant
set_bits (r6 ∷ r7 ∷ r8 ∷ rest) = set_version r6 ∷ r7 ∷ set_variant r8 ∷ rest
set_bits rest = rest

-- `NewUUID7`, with the clock at `nanos` and ten random bytes
unfoldable pub new_uuid7 : ℕ → List ℕ → List ℕ
unfolding put_uint64 set_bits
new_uuid7 nanos random_bytes =
    let timestamp = nanos / nano_per_milli % 2 ^ 64 in
    take 6 (put_uint64 timestamp) ++ set_bits random_bytes

-- hex.Encode
unfoldable pub hex_encode : List ℕ → List ℕ
unfolding hex_lower
hex_encode [] = []
hex_encode (b ∷ s) = hex_lower (b / 16) ∷ hex_lower (b % 16) ∷ hex_encode s

abbrev pub dash : ℕ
dash = b'-'

-- `String`; `a..b` of the source is `take` after `drop`
unfoldable pub to_string : List ℕ → List ℕ
unfolding hex_encode
to_string u =
    hex_encode (take 4 u)
    ++ (dash
        ∷ (hex_encode (take 2 (drop 4 u))
            ++ (dash
                ∷ (hex_encode (take 2 (drop 6 u))
                    ++ (dash
                        ∷ (hex_encode (take 2 (drop 8 u)) ++ (dash ∷ hex_encode (drop 10 u))))))))

-- `Base64`
unfoldable pub base64 : List ℕ → List ℕ
base64 u = encode u

-- the loop of `xorIt`, over the 16 positions
unfoldable pub xor_it : List ℕ → List ℕ → List ℕ
xor_it (a ∷ u) (k ∷ key) = bit_xor a k ∷ xor_it u key
xor_it _ _ = []

-- `XorEncrypt`, with the 16 random bytes of the key
unfoldable pub xor_encrypt : List ℕ → List ℕ → List ℕ
unfolding xor_it
xor_encrypt u key = encode (xor_it u key ++ key)

pub data Error : Type 0 where
  bad_base64 : Error
  invalid_length : Error

pub data Result (A : Type 0) : Type 0 where
  ok : A → Result A
  err : Error → Result A

-- `XorDecrypt`
unfoldable pub xor_decrypt : List ℕ → Result (List ℕ)
unfolding xor_it to_string
xor_decrypt text = elim (decode text) [
  | none ↦ err bad_base64
  | some raw ↦
      if length raw == bytes_len * 2
      then ok (to_string (xor_it (take bytes_len raw) (drop bytes_len raw)))
      else err invalid_length
]
