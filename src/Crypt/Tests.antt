-- ===== src/Crypt/Tests.antt =====
-- The encryption with ciphers that leave a text as it is.
use arcella_lib.Prelude.Text.{codes}
use arcella_lib.Crypt.Aes
use arcella_lib.Crypt.Aes.{Gcm, IsAead, crypt, de_crypt, and_then}
use arcella_lib.Prelude.Base64
use arcella_lib.Crypt.Jasypt.{Ciphers, IsCbc, encrypt, decrypt, decrypt-encrypt}
use arcella_lib.Prelude.{none, true, ◌≡◌, take, arith, some, refl}

abbrev plain : Ciphers
plain = record { md5 = λ s. take 16 s; encrypt = λ key iv s. s; decrypt = λ key iv s. s }

plain-IsCbc : IsCbc plain
plain-IsCbc = record {
  length_encrypt = λ key iv s. refl;
  bytes_encrypt = λ key iv s h. h;
  inverse = λ key iv s h. refl;
}

decrypt-encrypt_example :
    decrypt plain
      (codes "pw")
      1000
      (encrypt plain (codes "pw") 1000 (codes "hi") (codes "saltsalt"))
    ≡ some (codes "hi")
decrypt-encrypt_example =
    decrypt-encrypt plain plain-IsCbc (codes "pw") (codes "hi") (codes "saltsalt") 1000
      (omega arith, (omega arith, tt))
      (
        omega arith,
        (
          omega arith,
          (
            omega arith,
            (omega arith, (omega arith, (omega arith, (omega arith, (omega arith, tt))))),
          ),
        ),
      )
      refl

-- a mode that leaves a text as it is
abbrev open_mode : Gcm
open_mode = record {
  sha256 = λ s. s;
  accepts = λ key. true;
  nonce_size = 2;
  seal = λ key nonce s. s;
  open_sealed = λ key nonce s. some s;
}

open_mode-IsAead : IsAead open_mode
open_mode-IsAead = record {
  opens = λ key nonce s. refl;
  bytes_seal = λ key nonce s h. h;
  takes = λ secret. refl;
}

de_crypt-crypt_example :
    and_then open_mode (codes "pw") (crypt open_mode (codes "hi") (codes "pw") (some (codes "nn")))
    ≡ some (codes "hi")
de_crypt-crypt_example =
    Aes.de_crypt-crypt open_mode open_mode-IsAead (codes "hi") (codes "pw") (codes "nn")
      (omega arith, (omega arith, tt)) (omega arith, (omega arith, tt)) refl

too_short : de_crypt open_mode (codes "YQ==") (codes "pw") ≡ none
unfolding de_crypt Base64.decode
too_short = refl

no_random : crypt open_mode (codes "hi") (codes "pw") none ≡ none
unfolding crypt
no_random = refl
