-- ===== src/Utils/Uuid/Xor.antt =====
-- utils/uuid/uuid.go: masking with a key, and back.
use mathlib.Core.Path.{subst}
use arcella_lib.Prelude.Text.{AllBytes}
use arcella_lib.Prelude.Base64.{decode, decode-encode}
use arcella_lib.Utils.Uuid.{bytes_len, to_string, xor_it, xor_encrypt, xor_decrypt, ok}
use arcella_lib.Utils.Uuid.Bytes.{xor_byte}
use arcella_lib.Prelude.{
  length-append, ==_iff, ◌==◌, ◌∙◌, ◌++◌, ◌∷◌, ◌≡◌, ◌*◌, Option-cases, drop, take, length, arith,
  inr, inl, [], List, some, true, ap, sym, refl, ℕ,
}

xor_it_twice :
    (u key : List ℕ)
    → AllBytes u
    → AllBytes key
    → length u ≡ length key
    → (xor_it (xor_it u key) key ≡ u)
      × (length (xor_it u key) ≡ length key)
      × AllBytes (xor_it u key)
unfolding xor_it
xor_it_twice [] [] hu hk e = (refl, refl, tt)
xor_it_twice [] (k ∷ key) hu hk e = absurd (omega arith)
xor_it_twice (a ∷ u) [] hu hk e = absurd (omega arith)
xor_it_twice (a ∷ u) (k ∷ key) hu hk e =
    let (same, len, bytes) = xor_it_twice u key hu.1 hk.1 (omega arith) in
    let (back, small) = xor_byte a k hu.0 hk.0 in (cc, omega arith, (small, bytes))

All-append : (xs ys : List ℕ) → AllBytes xs → AllBytes ys → AllBytes (xs ++ ys)
All-append [] ys hx hy = hy
All-append (x ∷ xs) ys hx hy = (hx.0, All-append xs ys hx.1 hy)

take-append : (xs ys : List ℕ) → take (length xs) (xs ++ ys) ≡ xs
take-append [] ys = refl
take-append (x ∷ xs) ys = ap (◌∷◌ x) (take-append xs ys)

drop-append : (xs ys : List ℕ) → drop (length xs) (xs ++ ys) ≡ ys
drop-append [] ys = refl
drop-append (x ∷ xs) ys = drop-append xs ys

-- What `XorEncrypt` makes of a UUID with any key of 16 bytes, `XorDecrypt` turns into the text of
-- that UUID.
pub xor_decrypt-xor_encrypt :
    (u key : List ℕ)
    → AllBytes u
    → AllBytes key
    → length u ≡ bytes_len
    → length key ≡ bytes_len
    → xor_decrypt (xor_encrypt u key) ≡ ok (to_string u)
unfolding xor_decrypt xor_encrypt
xor_decrypt-xor_encrypt u key hu hk lu lk =
    let (same, len, bytes) = xor_it_twice u key hu hk (lu ∙ sym lk) in
    let mask = xor_it u key in
    let len16 : length mask ≡ bytes_len = len ∙ lk in
    let taken : take bytes_len (mask ++ key) ≡ mask =
      subst (λ n. take n (mask ++ key) ≡ mask) len16 (take-append mask key) in
    let dropped : drop bytes_len (mask ++ key) ≡ key =
      subst (λ n. drop n (mask ++ key) ≡ key) len16 (drop-append mask key) in
    let total : (length (mask ++ key) == bytes_len * 2) ≡ true =
      (==_iff _ _).1 (omega (arith, length-append {0} mask key)) in
    rw (
      decode-encode (mask ++ key) (All-append mask key bytes hk),
      xor_decrypt,
      total,
      taken,
      dropped,
      same,
    )

-- `XorDecrypt` accepts nothing but base64 of exactly 32 bytes.
pub xor_decrypt_ok :
    (text r : List ℕ)
    → xor_decrypt text ≡ ok r
    → (raw : List ℕ) × (decode text ≡ some raw) × (length raw ≡ 32)
unfolding xor_decrypt
xor_decrypt_ok text r h = elim (Option-cases (decode text)) [
  | inl e ↦ absurd (ground arith)
  | inr (raw, e) ↦ (raw, e, ground arith)
]
