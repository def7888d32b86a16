-- ===== src/Web/Ntlm.antt =====
-- web/gin/middleware/ntlm/ntlm.go. The handler for a request that gin has given a context; `rest` is
-- the chain of handlers behind it.
pub mod Fields
pub mod Access
mod Tests
use Prim.Native.Nat.{bit_or}
use arcella_lib.Prelude.Dict
use arcella_lib.Prelude.Dict.{string_eq}
use arcella_lib.Prelude.Text.{codes, text_eq, keep, has_prefix, split}
use arcella_lib.Prelude.Base64
use arcella_lib.Prelude.{
  ◌==◌, ◌||◌, ◌&&◌, ◌++◌, ◌∷◌, ◌^◌, ◌%◌, ◌/◌, ◌*◌, ◌-◌, ◌+◌, if◌then◌else◌, ltb, replicate, drop,
  take, get_elem?, length, [], List, some, none, Option, not, false, Bool, String, ℕ,
}

-- What the handlers of a request share: response headers, the keys of `c.Set`, and the status with
-- which the chain was aborted.
pub record Context : Type 0 where
  pub headers : Dict.Dict String (List ℕ)
  pub keys : Dict.Dict String (List ℕ)
  pub aborted : Option ℕ

-- `c.Next()`, which runs no handler once the chain is aborted
unfoldable pub next : (Context → Context) → Context → Context
next rest c = elim c.aborted [ none ↦ rest c | some status ↦ c ]

unfoldable pub put32 : ℕ → List ℕ
put32 v = v % 256 ∷ v / 2 ^ 8 % 256 ∷ v / 2 ^ 16 % 256 ∷ v / 2 ^ 24 % 256 ∷ []

unfoldable pub put16 : ℕ → List ℕ
put16 v = v % 256 ∷ v / 2 ^ 8 % 256 ∷ []

abbrev pub negotiate_flags : ℕ
negotiate_flags = bit_or 0x8000 (bit_or 0x80000 (bit_or 0x0200 0x0001))

-- the 40 bytes of the type-2 message; the last two stay 0
unfoldable pub ntlm_auth_challenge : List ℕ
unfolding put32 put16
ntlm_auth_challenge =
    codes "NTLMSSP"
    ++ (0
        ∷ (put32 2
            ++ (put32 0
                ++ (put32 40
                    ++ (put32 negotiate_flags
                        ++ (put32 33554944
                            ++ (put32 0 ++ (put32 0 ++ (put16 0 ++ replicate 2 0)))))))))

unfoldable pub path_matches : List ℕ → List ℕ → Bool
unfolding has_prefix
path_matches req_path path = text_eq req_path path || has_prefix (path ++ (b'/' ∷ [])) req_path

-- the bytes of the characters that stay: zeros go, and all that is not ASCII
abbrev pub is_kept : ℕ → Bool
is_kept b = not (b == 0) && ltb b 128

unfoldable pub remove_zeros : List ℕ → List ℕ
unfolding keep
remove_zeros value = keep is_kept value

-- a shorter slice panics
abbrev pub get16 : List ℕ → ℕ
get16 (a ∷ b ∷ _) = a + b * 256
get16 _ = 0

unfoldable pub get_ntlm_field : List ℕ → ℕ → Option (List ℕ)
unfolding remove_zeros
get_ntlm_field input field_base =
    let len = get16 (drop field_base input) in
    let str_start = get16 (drop (field_base + 4) input) in
    if ltb (length input) (field_base + 8)
    then none
    else if ltb (length input) str_start || ltb (length input - str_start) len
    then none
    else some (remove_zeros (take len (drop str_start input)))

-- `sendUnauthorized`
unfoldable pub send_unauthorized : Context → List ℕ → Context
unfolding Dict.insert
send_unauthorized c value = record c {
  headers =
      Dict.insert "Connection" (codes "keep-alive")
        (Dict.insert "WWW-Authenticate" value c.headers);
  aborted = some 401;
}

abbrev pub UserVerifier : Type 0
UserVerifier = List ℕ → List ℕ → Bool

-- `c.Set` of the user and the domain
abbrev pub identify : List ℕ → List ℕ → Context → Context
identify username domain c = record c {
  keys = Dict.insert "domain" domain (Dict.insert "username" username c.keys);
}

-- the byte at offset 8, if there is one
abbrev pub message_type : List ℕ → Option ℕ
message_type byte_data = get_elem? byte_data 8

abbrev pub is_type : ℕ → Option ℕ → Bool
is_type n none = false
is_type n (some b) = b == n

abbrev pub allow_origin : Context → Context
allow_origin c = record c {
  headers = Dict.insert "Access-Control-Allow-Origin" (codes "*") (
      Dict.insert "Access-Control-Allow-Headers"
        (codes
          "Authorization,Content-Type, Content-Range, Content-Disposition, Content-Description,Origin, X-Requested-With, sessionId")
        c.headers);
}

module _ (rest : Context → Context) (verifier : Option UserVerifier) where
  -- step 3, with the two fields and the test whether there is a verifier
  abbrev pub checked : Context → List ℕ → List ℕ → Option UserVerifier → Context
  checked c username domain none = send_unauthorized c (codes "NTLM")
  checked c username domain (some verify) =
      if verify username domain
      then next rest (identify username domain c)
      else send_unauthorized c (codes "NTLM")

  abbrev pub type3 : Context → Option (List ℕ) → Option (List ℕ) → Context
  type3 c (some username) (some domain) = checked c username domain verifier
  type3 c _ _ = send_unauthorized c (codes "NTLM")

  unfoldable pub message : Context → Option (List ℕ) → Context
  unfolding get_ntlm_field send_unauthorized ntlm_auth_challenge
  message c none = send_unauthorized c (codes "NTLM")
  message c (some byte_data) =
      if is_type 1 (message_type byte_data)
      then next rest (send_unauthorized c (codes "NTLM " ++ Base64.encode ntlm_auth_challenge))
      else if is_type 3 (message_type byte_data)
      then type3 c (get_ntlm_field byte_data 38) (get_ntlm_field byte_data 30)
      else send_unauthorized c (codes "NTLM")

  -- step 2, with the words of the header
  unfoldable pub words : Context → List (List ℕ) → Context
  unfolding message Base64.decode
  words c (scheme ∷ encoded ∷ []) =
      if text_eq scheme (codes "NTLM")
      then message c (Base64.decode encoded)
      else send_unauthorized c (codes "NTLM")
  words c _ = send_unauthorized c (codes "NTLM")

  -- `NTLMMiddleware`
  unfoldable pub ntlm_middleware : List ℕ → List ℕ → List ℕ → Context → Context
  unfolding path_matches words split next
  ntlm_middleware path req_path auth_header c =
      if path_matches req_path path
      then if text_eq auth_header []
        then next rest (send_unauthorized (allow_origin c) (codes "NTLM"))
        else words (allow_origin c) (split b' ' auth_header)
      else next rest c
