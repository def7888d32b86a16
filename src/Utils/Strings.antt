-- ===== src/Utils/Strings.antt =====
-- utils/utilsString.go: pieces of text. A text is the list of its bytes; for SubStr it is the list of
-- its characters, each with the bytes that encode it.
pub mod Pieces
use arcella_lib.Prelude.Text.{codes, keep, is_alnum, has_prefix}
use arcella_lib.Prelude.{
  ◌==◌, ◌||◌, ◌&&◌, ◌++◌, ◌∷◌, ◌+◌, if◌then◌else◌, leb, ltb, drop, take, length, [], List, some,
  none, Option, false, Bool, suc, ℕ,
}

-- unicode.IsSpace below 128
abbrev pub is_space : ℕ → Bool
is_space c = c == 32 || (leb 9 c && leb c 13)

-- what `strings.Fields` has found: the word that is being read and those behind it
abbrev pub add_to : ℕ → List (List ℕ) → List (List ℕ)
add_to c [] = (c ∷ []) ∷ []
add_to c (w ∷ ws) = (c ∷ w) ∷ ws

abbrev pub break : List (List ℕ) → List (List ℕ)
break [] = []
break ([] ∷ ws) = [] ∷ ws
break ((c ∷ w) ∷ ws) = [] ∷ (c ∷ w) ∷ ws

abbrev pub words_of : List ℕ → List (List ℕ)
words_of [] = []
words_of (c ∷ s) = let rest = words_of s in if is_space c then break rest else add_to c rest

abbrev pub non_empty : List (List ℕ) → List (List ℕ)
non_empty ([] ∷ ws) = ws
non_empty ws = ws

unfoldable pub fields : List ℕ → List (List ℕ)
fields s = non_empty (words_of s)

-- `strings.Join(words, "")`
abbrev pub join : List (List ℕ) → List ℕ
join [] = []
join (w ∷ ws) = w ++ join ws

-- `Trim`
unfoldable pub trim : List ℕ → List ℕ
unfolding fields
trim str = join (fields str)

-- `NumbersAndComma`, `NumOnly` and `StripRegex`, on a text of ASCII characters
abbrev pub is_digit : ℕ → Bool
is_digit c = leb b'0' c && leb c b'9'

abbrev pub number_or_comma : ℕ → Bool
number_or_comma c = c == b',' || is_digit c

unfoldable pub numbers_and_comma : List ℕ → List ℕ
unfolding keep
numbers_and_comma s = keep number_or_comma s

unfoldable pub num_only : List ℕ → List ℕ
unfolding keep
num_only s = keep is_digit s

abbrev pub member : ℕ → List ℕ → Bool
member c [] = false
member c (x ∷ s) = c == x || member c s

abbrev pub unstripped : ℕ → Bool
unfolding is_alnum
unstripped c = is_alnum c || member c (codes "~@#$^*()_+={}|\\,.?: -")

unfoldable pub strip_regex : List ℕ → List ℕ
unfolding keep unstripped
strip_regex s = keep unstripped s

-- `strings.Index`, and `none` for -1
unfoldable pub index : List ℕ → List ℕ → Option ℕ
unfolding has_prefix
index [] p = if has_prefix p [] then some 0 else none
index (c ∷ s) p =
    let rest = index s p in
    if has_prefix p (c ∷ s) then some 0 else elim rest [ none ↦ none | some i ↦ some (suc i) ]

abbrev pub slice_to : List ℕ → Option ℕ → List ℕ
slice_to s none = []
slice_to s (some end_pos) = take end_pos s

abbrev pub end_in : List ℕ → List ℕ → Option ℕ
end_in s [] = some (length s)
end_in s (c ∷ ends_with) = index s (c ∷ ends_with)

abbrev pub between : List ℕ → List ℕ → List ℕ → Option ℕ → List ℕ
between content starts_with ends_with none = []
between content starts_with ends_with (some start_pos) =
    let s = drop (start_pos + length starts_with) content in slice_to s (end_in s ends_with)

-- `GetSubStr`
unfoldable pub get_sub_str : List ℕ → List ℕ → List ℕ → List ℕ
unfolding index
get_sub_str content starts_with ends_with =
    between content starts_with ends_with (index content starts_with)

abbrev pub flat : List (List ℕ) → List ℕ
flat [] = []
flat (c ∷ cs) = c ++ flat cs

-- the loop of `SubStr`: the byte at which the character `target` begins, or what it was before
unfoldable pub mark : ℕ → List (List ℕ) → ℕ → ℕ → ℕ → ℕ
mark target [] total i found = found
mark target (c ∷ cs) total i found =
    mark target cs (total + 1) (i + length c) (if total == target then i else found)

-- `SubStr` for a start and a length that are not negative and whose sum does not overflow; other
-- arguments panic, or give an empty text where the start is past the end
unfoldable pub sub_str : List (List ℕ) → ℕ → ℕ → List ℕ
unfolding mark
sub_str content start len =
    let total = length content in
    let start_byte = mark start content 0 0 0 in
    let end_byte =
      if leb total (start + len) then length (flat content) else mark (start + len) content 0 0 0 in
    if ltb total start || start == total then [] else drop start_byte (take end_byte (flat content))
