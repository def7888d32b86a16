-- ===== src/Crypt/Aes.antt =====
-- crypt/aes/aesCrypt.go. SHA-256, AES and its mode GCM are parameters.
use mathlib.Core.Path.{subst}
use arcella_lib.Prelude.Text.{AllBytes-append, AllBytes}
use arcella_lib.Prelude.Base64
use arcella_lib.Prelude.{
  drop-append_left, take-append_left, length-append, ◌++◌, ◌≡◌, if◌then◌else◌, ltb, drop, take,
  length, arith, List, some, none, Option, false, true, Bool, ℕ,
}

-- `NewCipher` with `NewGCM`, which may refuse a key; the size of a nonce; Seal and Open
pub record Gcm : Type 0 where
  pub sha256 : List ℕ → List ℕ
  pub accepts : List ℕ → Bool
  pub nonce_size : ℕ
  pub seal : List ℕ → List ℕ → List ℕ → List ℕ
  pub open_sealed : List ℕ → List ℕ → List ℕ → Option (List ℕ)

-- What GCM promises: what was sealed opens with the same key and nonce, and bytes stay bytes. SHA-256
-- makes a key that AES takes.
pub record IsAead (g : Gcm) : Type 0 where
  pub opens : (key nonce s : List ℕ) → g.open_sealed key nonce (g.seal key nonce s) ≡ some s
  pub bytes_seal : (key nonce s : List ℕ) → AllBytes s → AllBytes (g.seal key nonce s)
  pub takes : (secret : List ℕ) → g.accepts (g.sha256 secret) ≡ true

module _ (g : Gcm) where
  abbrev pub sealed : List ℕ → List ℕ → Option (List ℕ) → Option (List ℕ)
  sealed key text none = none
  sealed key text (some nonce) = some (Base64.encode (nonce ++ g.seal key nonce text))

  abbrev pub opened : List ℕ → Option (List ℕ) → Option (List ℕ)
  opened key none = none
  opened key (some message) =
      if ltb (length message) g.nonce_size
      then none
      else g.open_sealed key (take g.nonce_size message) (drop g.nonce_size message)

  -- `Crypt`, with the nonce that crypto/rand brings or its error, and `DeCrypt`
  unfoldable pub crypt : List ℕ → List ℕ → Option (List ℕ) → Option (List ℕ)
  unfolding Base64.encode
  crypt text secret nonce =
      let key = g.sha256 secret in if g.accepts key then sealed key text nonce else none

  unfoldable pub de_crypt : List ℕ → List ℕ → Option (List ℕ)
  unfolding Base64.decode
  de_crypt text secret =
      let key = g.sha256 secret in if g.accepts key then opened key (Base64.decode text) else none

-- what `DeCrypt` makes of the result of `Crypt`
abbrev pub and_then : Gcm → List ℕ → Option (List ℕ) → Option (List ℕ)
and_then g secret none = none
and_then g secret (some text) = de_crypt g text secret

-- Over a mode that keeps the promises of GCM, DeCrypt with the same secret gives back every text of
-- bytes that Crypt encrypted, whatever the nonce.
pub de_crypt-crypt :
    (g : Gcm) (h : IsAead g) (text secret nonce : List ℕ)
    → AllBytes text
    → AllBytes nonce
    → length nonce ≡ g.nonce_size
    → and_then g secret (crypt g text secret (some nonce)) ≡ some text
unfolding crypt de_crypt
de_crypt-crypt g h text secret nonce ht hn size =
    let key = g.sha256 secret in
    let body = g.seal key nonce text in
    let whole : ltb (length (nonce ++ body)) g.nonce_size ≡ false =
      ground (arith, length-append nonce body) in
    let first : take g.nonce_size (nonce ++ body) ≡ nonce =
      subst (λ (k : ℕ). take k (nonce ++ body) ≡ nonce) size (take-append_left nonce body) in
    let rest : drop g.nonce_size (nonce ++ body) ≡ body =
      subst (λ (k : ℕ). drop k (nonce ++ body) ≡ body) size (drop-append_left nonce body) in
    rw
      (
        h.takes secret,
        h.takes secret,
        Base64.decode-encode (nonce ++ body)
            (AllBytes-append nonce body hn (h.bytes_seal key nonce text ht)),
        whole,
        first,
        rest,
      )
      (h.opens key nonce text)
