-- ===== src/Ldap/Sid.antt =====
-- `decodeSID` of ldap/utils.go.
use mathlib.Core.Option
use arcella_lib.Prelude.Text.{itoa, itoa_hex}
use arcella_lib.Prelude.{
  ◌++◌, ◌∷◌, ◌≡◌, ◌<◌, ◌^◌, ◌%◌, ◌/◌, ◌*◌, ◌+◌, length, arith, [], List, some, none, Option, refl,
  suc, zero, ℕ,
}

abbrev pub dash : ℕ
dash = b'-'

-- The loop over the six bytes of the authority: `|` joins bytes that do not overlap, so it is a sum.
unfoldable pub authority_of : List ℕ → ℕ
authority_of (b2 ∷ b3 ∷ b4 ∷ b5 ∷ b6 ∷ b7 ∷ _) =
    b2 * 2 ^ 40 + b3 * 2 ^ 32 + b4 * 2 ^ 24 + b5 * 2 ^ 16 + b6 * 2 ^ 8 + b7
authority_of _ = 0

-- the inner loop: four bytes, the least significant first
unfoldable pub sub_authority : ℕ → ℕ → ℕ → ℕ → ℕ
sub_authority c0 c1 c2 c3 = c0 + c1 * 2 ^ 8 + c2 * 2 ^ 16 + c3 * 2 ^ 24

-- The outer loop on the bytes from `offset` on; `none` is the early return of the empty text.
unfoldable pub sub_authorities : ℕ → List ℕ → Option (List ℕ)
unfolding sub_authority
sub_authorities zero b = some []
sub_authorities (suc n) (c0 ∷ c1 ∷ c2 ∷ c3 ∷ b) =
    Option.map (λ rest. dash ∷ (itoa (sub_authority c0 c1 c2 c3) ++ rest)) (sub_authorities n b)
sub_authorities (suc n) _ = none

unfoldable pub decode_sid : List ℕ → List ℕ
decode_sid (b0 ∷ b1 ∷ b2 ∷ b3 ∷ b4 ∷ b5 ∷ b6 ∷ b7 ∷ b) =
    let authority = authority_of (b2 ∷ b3 ∷ b4 ∷ b5 ∷ b6 ∷ b7 ∷ []) in
    elim (sub_authorities b1 b) [
      | none ↦ []
      | some subs ↦ b'S' ∷ dash ∷ (itoa b0 ++ (dash ∷ (itoa_hex authority ++ subs)))
    ]
decode_sid _ = []

-- A security identifier, its layout and its text.
pub record Identifier : Type 0 where
  pub revision : ℕ
  pub authority : ℕ
  pub subs : List ℕ

abbrev pub le_bytes : List ℕ → List ℕ
le_bytes [] = []
le_bytes (s ∷ subs) =
    s % 256 ∷ s / 2 ^ 8 % 256 ∷ s / 2 ^ 16 % 256 ∷ s / 2 ^ 24 % 256 ∷ le_bytes subs

abbrev pub layout : Identifier → List ℕ
layout i =
    i.revision
    ∷ length i.subs
    ∷ i.authority / 2 ^ 40 % 256
    ∷ i.authority / 2 ^ 32 % 256
    ∷ i.authority / 2 ^ 24 % 256
    ∷ i.authority / 2 ^ 16 % 256
    ∷ i.authority / 2 ^ 8 % 256
    ∷ i.authority % 256
    ∷ le_bytes i.subs

abbrev pub dashed : List ℕ → List ℕ
dashed [] = []
dashed (s ∷ subs) = dash ∷ (itoa s ++ dashed subs)

abbrev pub show : Identifier → List ℕ
show i = b'S' ∷ dash ∷ (itoa i.revision ++ (dash ∷ (itoa_hex i.authority ++ dashed i.subs)))

abbrev pub AllWords : List ℕ → Type 0
AllWords [] = Unit {0}
AllWords (s ∷ subs) = (s < 2 ^ 32) × AllWords subs

sub_authorities-le_bytes :
    (subs junk : List ℕ)
    → AllWords subs
    → sub_authorities (length subs) (le_bytes subs ++ junk) ≡ some (dashed subs)
unfolding sub_authorities
sub_authorities-le_bytes [] junk h = refl
sub_authorities-le_bytes (s ∷ subs) junk (lt, h) =
    let word : s % 256
          + s / 2 ^ 8 % 256 * 2 ^ 8
          + s / 2 ^ 16 % 256 * 2 ^ 16
          + s / 2 ^ 24 % 256 * 2 ^ 24
        ≡ s =
      omega arith in
    rw (sub_authorities-le_bytes subs junk h, word)

-- Of the bytes of a security identifier, with anything behind them, `decodeSID` makes its text: the
-- revision, the authority in hexadecimal and every sub-authority in decimal.
pub decode_sid-layout :
    (i : Identifier) (junk : List ℕ)
    → i.authority < 2 ^ 48
    → AllWords i.subs
    → decode_sid (layout i ++ junk) ≡ show i
unfolding decode_sid
decode_sid-layout i junk small words =
    let a = i.authority in
    let number : a / 2 ^ 40 % 256 * 2 ^ 40
          + a / 2 ^ 32 % 256 * 2 ^ 32
          + a / 2 ^ 24 % 256 * 2 ^ 24
          + a / 2 ^ 16 % 256 * 2 ^ 16
          + a / 2 ^ 8 % 256 * 2 ^ 8
          + a % 256
        ≡ a =
      omega arith in
    rw (sub_authorities-le_bytes i.subs junk words, decode_sid) (unfold authority_of in rw number)

sub_authorities_short : (n : ℕ) (b : List ℕ) → length b < 4 * n → sub_authorities n b ≡ none
unfolding sub_authorities
sub_authorities_short zero b h = absurd (omega arith)
sub_authorities_short (suc n) (c0 ∷ c1 ∷ c2 ∷ c3 ∷ b) h =
    rw (sub_authorities_short n b (omega arith))
sub_authorities_short (suc n) _ h = refl

-- Bytes that are too few for the number of sub-authorities that they announce give the empty text.
pub decode_sid_short :
    (b : List ℕ) (b0 b1 : ℕ) → length b < 6 + 4 * b1 → decode_sid (b0 ∷ b1 ∷ b) ≡ []
unfolding decode_sid
decode_sid_short (b2 ∷ b3 ∷ b4 ∷ b5 ∷ b6 ∷ b7 ∷ b) b0 b1 h =
    rw (sub_authorities_short b1 b (omega arith), decode_sid)
decode_sid_short _ b0 b1 h = refl
