-- ===== src/Crypt/Jasypt.antt =====
-- crypt/jasypt/jasypt.go. MD5 and DES in CBC mode are parameters.
use arcella_lib.Prelude.Text.{AllBytes-append, AllBytes}
use arcella_lib.Prelude.Base64
use mathlib.Core.Path.{subst}
use arcella_lib.Prelude.{
  length-replicate, drop-append_left, length-append, take-append_left, ◌∙◌, ◌<◌, ◌+◌, arith, false,
  ap, refl, ◌==◌, ◌||◌, ◌++◌, ◌∷◌, ◌≡◌, ◌%◌, ◌-◌, if◌then◌else◌, ltb, replicate, drop, take, length,
  [], List, some, none, Option, not, suc, zero, ℕ,
}

pub record Ciphers : Type 0 where
  pub md5 : List ℕ → List ℕ
  pub encrypt : List ℕ → List ℕ → List ℕ → List ℕ
  pub decrypt : List ℕ → List ℕ → List ℕ → List ℕ

-- What CBC promises of whole blocks of bytes: the length stays, bytes stay bytes, and decryption with
-- the same key and initial vector is the inverse.
pub record IsCbc (c : Ciphers) : Type 0 where
  pub length_encrypt : (key iv s : List ℕ) → length (c.encrypt key iv s) ≡ length s
  pub bytes_encrypt : (key iv s : List ℕ) → AllBytes s → AllBytes (c.encrypt key iv s)
  pub inverse : (key iv s : List ℕ) → length s % 8 ≡ 0 → c.decrypt key iv (c.encrypt key iv s) ≡ s

abbrev pub pad_num : List ℕ → ℕ
pad_num s = 8 - length s % 8

unfoldable pub pad : List ℕ → List ℕ
pad s = s ++ replicate (pad_num s) (pad_num s)

-- the last byte; an empty text has been refused before
abbrev pub last : List ℕ → ℕ
last [] = 0
last (x ∷ []) = x
last (x ∷ y ∷ s) = last (y ∷ s)

unfoldable pub unpad : List ℕ → Option (List ℕ)
unpad decrypted =
    let pad_num = last decrypted in
    if ltb pad_num 1 || ltb 8 pad_num
    then none
    else some (take (length decrypted - pad_num) decrypted)

length-pad : (s : List ℕ) → length (pad s) ≡ length s + pad_num s
unfolding pad
length-pad s =
    length-append s (replicate (pad_num s) (pad_num s))
    ∙ ap (λ (n : ℕ). length s + n) (length-replicate (pad_num s) (pad_num s))

last-append : (s : List ℕ) (n x : ℕ) → last (s ++ replicate (suc n) x) ≡ x
last-append [] zero x = refl
last-append [] (suc n) x = last-append [] n x
last-append (y ∷ []) n x = last-append [] n x
last-append (y ∷ z ∷ s) n x = last-append (z ∷ s) n x

last-pad : (s : List ℕ) → last (pad s) ≡ pad_num s
unfolding pad
last-pad s =
    let positive : pad_num s ≡ suc (7 - length s % 8) = omega arith in
    ap (λ (n : ℕ). last (s ++ replicate n (pad_num s))) positive
    ∙ last-append s (7 - length s % 8) (pad_num s)

take-pad : (s : List ℕ) → take (length s) (pad s) ≡ s
unfolding pad
take-pad s = take-append_left s (replicate (pad_num s) (pad_num s))

unpad-pad : (s : List ℕ) → unpad (pad s) ≡ some s
unfolding unpad
unpad-pad s =
    let whole : length (pad s) - last (pad s) ≡ length s =
      omega (arith, length-pad s, last-pad s) in
    let fits : ltb (last (pad s)) 1 || ltb 8 (last (pad s)) ≡ false = ground (arith, last-pad s) in
    rw (fits, whole, take-pad s) refl

AllBytes-replicate : (n x : ℕ) → x < 256 → AllBytes (replicate n x)
AllBytes-replicate zero x lt = tt
AllBytes-replicate (suc n) x lt = (lt, AllBytes-replicate n x lt)

AllBytes-pad : (s : List ℕ) → AllBytes s → AllBytes (pad s)
unfolding pad
AllBytes-pad s h = AllBytes-append s _ h (AllBytes-replicate (pad_num s) (pad_num s) (omega arith))

module _ (c : Ciphers) where
  abbrev pub rehash : ℕ → List ℕ → List ℕ
  rehash zero key = key
  rehash (suc n) key = rehash n (c.md5 key)

  unfoldable pub get_derived_key : List ℕ → List ℕ → ℕ → List ℕ × List ℕ
  get_derived_key password salt count =
      let key = rehash (count - 1) (c.md5 (password ++ salt)) in (take 8 key, drop 8 key)

  unfoldable pub do_encrypt : List ℕ → List ℕ → List ℕ → ℕ → List ℕ
  unfolding get_derived_key pad
  do_encrypt password plain_text salt iteration_count =
      let key = get_derived_key password salt iteration_count in
      c.encrypt key.0 key.1 (pad plain_text)

  unfoldable pub do_decrypt : List ℕ → List ℕ → List ℕ → ℕ → Option (List ℕ)
  unfolding get_derived_key unpad
  do_decrypt password enc_text salt iteration_count =
      let key = get_derived_key password salt iteration_count in
      if length enc_text == 0 || not (length enc_text % 8 == 0)
      then none
      else unpad (c.decrypt key.0 key.1 enc_text)

  -- `Encrypt` with the salt that crypto/rand brings
  unfoldable pub encrypt : List ℕ → ℕ → List ℕ → List ℕ → List ℕ
  unfolding do_encrypt Base64.encode
  encrypt password iteration_count plain_text salt =
      Base64.encode (salt ++ do_encrypt password plain_text salt iteration_count)

  abbrev pub decrypt_bytes : List ℕ → ℕ → Option (List ℕ) → Option (List ℕ)
  unfolding do_decrypt
  decrypt_bytes password iteration_count none = none
  decrypt_bytes password iteration_count (some msg) =
      if ltb (length msg) 8 || not (length msg % 8 == 0)
      then none
      else do_decrypt password (drop 8 msg) (take 8 msg) iteration_count

  unfoldable pub decrypt : List ℕ → ℕ → List ℕ → Option (List ℕ)
  unfolding do_decrypt Base64.decode
  decrypt password iteration_count cipher_text =
      decrypt_bytes password iteration_count (Base64.decode cipher_text)

  length-do_encrypt :
      (h : IsCbc c) (password s salt : List ℕ) (n : ℕ)
      → length (do_encrypt password s salt n) ≡ length s + pad_num s
  unfolding do_encrypt
  length-do_encrypt h password s salt n =
      let key = get_derived_key password salt n in
      h.length_encrypt key.0 key.1 (pad s) ∙ length-pad s

  do_decrypt-do_encrypt :
      (h : IsCbc c) (password s salt : List ℕ) (n : ℕ)
      → do_decrypt password (do_encrypt password s salt n) salt n ≡ some s
  unfolding do_decrypt
  do_decrypt-do_encrypt h password s salt n =
      let key = get_derived_key password salt n in
      let enc = do_encrypt password s salt n in
      let size : length enc ≡ length s + pad_num s = length-do_encrypt h password s salt n in
      let whole : length enc == 0 || not (length enc % 8 == 0) ≡ false = ground (arith, size) in
      let back : c.decrypt key.0 key.1 enc ≡ pad s =
        unfold do_encrypt in h.inverse key.0 key.1 (pad s) (omega (arith, length-pad s)) in
      rw (whole, back) (unpad-pad s)

  -- Over ciphers that keep the promises of CBC, decryption with the same password and number of
  -- iterations gives back every text of bytes that was encrypted, whatever the salt of eight bytes.
  pub decrypt-encrypt :
      (h : IsCbc c) (password s salt : List ℕ) (n : ℕ)
      → AllBytes s
      → AllBytes salt
      → length salt ≡ 8
      → decrypt password n (encrypt password n s salt) ≡ some s
  unfolding decrypt encrypt
  decrypt-encrypt h password s salt n hs hsalt eight =
      let enc = do_encrypt password s salt n in
      let key = get_derived_key password salt n in
      let bytes : AllBytes enc =
        unfold do_encrypt in h.bytes_encrypt key.0 key.1 (pad s) (AllBytes-pad s hs) in
      let size : length (salt ++ enc) ≡ 8 + (length s + pad_num s) =
        omega (arith, length-append salt enc, length-do_encrypt h password s salt n) in
      let whole : ltb (length (salt ++ enc)) 8 || not (length (salt ++ enc) % 8 == 0) ≡ false =
        ground (arith, size) in
      let first : take 8 (salt ++ enc) ≡ salt =
        subst (λ (k : ℕ). take k (salt ++ enc) ≡ salt) eight (take-append_left salt enc) in
      let rest : drop 8 (salt ++ enc) ≡ enc =
        subst (λ (k : ℕ). drop k (salt ++ enc) ≡ enc) eight (drop-append_left salt enc) in
      rw
        (
          Base64.decode-encode (salt ++ enc) (AllBytes-append salt enc hsalt bytes),
          whole,
          first,
          rest,
        )
        (do_decrypt-do_encrypt h password s salt n)
