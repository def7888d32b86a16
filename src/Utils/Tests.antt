-- ===== src/Utils/Tests.antt =====
-- The helpers on small inputs.
use arcella_lib.Prelude.Int.{pos, negsuc}
use arcella_lib.Prelude.Parse.{format_int, parse_int}
use arcella_lib.Prelude.Text.{has_prefix}
use arcella_lib.Utils.Numbers
use arcella_lib.Utils.Numbers.{
  str_to_int, clamp, str_to_int32_default, str_to_int64_default, str_to_uint64_default, int_to_str,
  uint_to_str, fits_int32,
}
use arcella_lib.Utils.Strings.{trim, fields, get_sub_str, index, sub_str, mark, flat}
use arcella_lib.Utils.Strings.Pieces
use arcella_lib.Prelude.Text.{codes}
use arcella_lib.Utils.Uuid.{new_uuid7, to_string, xor_encrypt, xor_decrypt, ok}
use arcella_lib.Utils.Uuid.Layout
use arcella_lib.Utils.Uuid.Layout.{byte_at, be_number, not_dash}
use arcella_lib.Utils.Uuid.Xor
use arcella_lib.Prelude.{
  ◌-◌, if◌then◌else◌, ◌^◌, drop, ◌∷◌, ◌≡◌, ◌*◌, take, arith, [], List, refl, ℕ,
}

abbrev random : List ℕ
random = 255 ∷ 17 ∷ 255 ∷ 1 ∷ 2 ∷ 3 ∷ 4 ∷ 5 ∷ 6 ∷ 7 ∷ []

abbrev id : List ℕ
id = 1 ∷ 2 ∷ 3 ∷ 4 ∷ 5 ∷ 6 ∷ 7 ∷ 8 ∷ 9 ∷ 10 ∷ 11 ∷ 12 ∷ 13 ∷ 14 ∷ 15 ∷ 240 ∷ []

to_string_test : to_string id ≡ codes "01020304-0506-0708-090a-0b0c0d0e0ff0"
unfolding to_string
to_string_test = refl

-- 2025-01-01 in milliseconds is 1735689600000: its last 16 bits are lost.
version_test :
    to_string (new_uuid7 (1735689600000 * 1000000) random)
    ≡ codes "00000194-1f29-7f11-bf01-020304050607"
unfolding to_string new_uuid7
version_test = refl

new_uuid7-time_example : be_number (take 6 (new_uuid7 1735689600000000000 random)) ≡ 26484521
new_uuid7-time_example = Layout.new_uuid7-time 1735689600000000000 random

new_uuid7_same_period_example :
    take 6 (new_uuid7 1735689600000000000 random) ≡ take 6 (new_uuid7 1735689601000000000 random)
new_uuid7_same_period_example =
    Layout.new_uuid7_same_period 1735689600000000000 1735689601000000000 random random refl

xor_decrypt-xor_encrypt_example : xor_decrypt (xor_encrypt id id) ≡ ok (to_string id)
xor_decrypt-xor_encrypt_example =
    Xor.xor_decrypt-xor_encrypt id id (omega arith) (omega arith) refl refl

too_large : str_to_int (format_int (pos (10 ^ 20))) ≡ clamp (pos (10 ^ 20))
too_large = Numbers.str_to_int-format_int (pos (10 ^ 20))

str_to-to_str_example :
    let j = negsuc (2 ^ 40) in
    (str_to_int (int_to_str j) ≡ j)
    × (str_to_int64_default (int_to_str j) (pos 7) ≡ j)
    × (str_to_int32_default (int_to_str j) (pos 7) ≡ (if fits_int32 j then j else pos 7))
    × (str_to_uint64_default (uint_to_str (2 ^ 64 - 1)) 7 ≡ 2 ^ 64 - 1)
    × (str_to_uint64_default (int_to_str (negsuc 4)) 7 ≡ 7)
str_to-to_str_example =
    Numbers.str_to-to_str (negsuc (2 ^ 40)) (pos 7) (2 ^ 64 - 1) 4 7 (omega arith) (omega arith)

empty_is_zero : str_to_int [] ≡ pos 0
unfolding str_to_int
empty_is_zero = refl

int32_default : str_to_int32_default (codes "2147483648") (negsuc 0) ≡ negsuc 0
unfolding str_to_int32_default parse_int
int32_default = refl

trim_test : trim (codes " a  b c ") ≡ codes "abc"
unfolding trim fields
trim_test = refl

get_sub_str_test : get_sub_str (codes "x<a>y</a>z") (codes "<a>") (codes "</a>") ≡ codes "y"
unfolding get_sub_str index has_prefix
get_sub_str_test = refl

-- three characters of one, two and three bytes
abbrev three : List (List ℕ)
three = (97 ∷ []) ∷ (195 ∷ 169 ∷ []) ∷ (226 ∷ 130 ∷ 172 ∷ []) ∷ []

sub_str-flat_example : sub_str three 1 5 ≡ flat (take 5 (drop 1 three))
sub_str-flat_example = Pieces.sub_str-flat three 1 5

last_characters : sub_str three 1 5 ≡ 195 ∷ 169 ∷ 226 ∷ 130 ∷ 172 ∷ []
unfolding sub_str mark
last_characters = refl
