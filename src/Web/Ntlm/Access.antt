-- ===== src/Web/Ntlm/Access.antt =====
-- web/gin/middleware/ntlm/ntlm.go: whom the middleware lets through.
use arcella_lib.Prelude.Dict.{string_eq}
use arcella_lib.Prelude.Text.{codes, text_eq, text_eq_iff, split}
use arcella_lib.Prelude.Base64
use arcella_lib.Prelude.Int.{ℤ}
use arcella_lib.Ldap.Client.{Verdict, ConfigLdapClient, Directory, Client, verify_user, verified}
use arcella_lib.Ldap.Client.Users.{IsAnswered}
use arcella_lib.Web.Ntlm.{
  Context, UserVerifier, next, send_unauthorized, identify, checked, type3, is_type, message, words,
  allow_origin, path_matches, get_ntlm_field, ntlm_middleware,
}
use arcella_lib.Prelude.{
  ◌≢◌, false, Bool, ◌∷◌, ◌⊎◌, ◌≡◌, Bool-cases, get_elem?, arith, inr, inl, [], List, some, none,
  Option, true, ap, refl, ℕ,
}

-- `VerifyUser` returns no error
abbrev pub is_verified : Verdict → Bool
is_verified verified = true
is_verified _ = false

-- The chain is over with status 401, and no key is set.
abbrev pub Refused : Context → Context → Type 0
Refused c r = (r.aborted ≡ some 401) × (r.keys ≡ c.keys)

-- What a decoded message of type 3 has to hold.
abbrev pub Names : Option UserVerifier → List ℕ → List ℕ → List ℕ → Type 0
Names verifier message username domain =
    (get_elem? message 8 ≡ some 3)
    × (get_ntlm_field message 38 ≡ some username)
    × (get_ntlm_field message 30 ≡ some domain)
    × ((verify : UserVerifier) × (verifier ≡ some verify) × (verify username domain ≡ true))

-- The rest of the chain runs, with the names that a message in the header holds.
abbrev pub Admitted :
    (Context → Context) → Option UserVerifier → List ℕ → Context → Context → Type 0
Admitted rest verifier auth_header c r =
    (encoded parsed username domain : List ℕ) × (split b' ' auth_header
      ≡ codes "NTLM" ∷ encoded ∷ [])
    × (Base64.decode encoded ≡ some parsed)
    × Names verifier parsed username domain
    × (r ≡ next rest (identify username domain (allow_origin c)))

-- The rest of the chain runs, with the name of a user for whom the directory has been asked and has
-- answered with an entry that is good.
abbrev pub Vouched :
    (Context → Context)
    → (List ℕ → Option ℤ)
    → ℤ
    → ConfigLdapClient
    → Directory
    → Context
    → Context
    → Type 0
Vouched rest parse_int now config d c r =
    (username domain : List ℕ) × (r ≡ next rest (identify username domain (allow_origin c)))
    × (username ≢ [])
    × IsAnswered parse_int now config d username

module _ (rest : Context → Context) (verifier : Option UserVerifier) where
  send_unauthorized-Refused : (c : Context) (value : List ℕ) → Refused c (send_unauthorized c value)
  unfolding send_unauthorized
  send_unauthorized-Refused c value = (refl, refl)

  next-Refused : (c r : Context) → Refused c r → Refused c (next rest r)
  unfolding next
  next-Refused c r (e, k) = ground arith

  -- the two ways through `f`
  abbrev Outcome : Context → Context → Option (List ℕ) → Type 0
  Outcome c r o =
      Refused c r
      ⊎ ((message username domain : List ℕ) × (o ≡ some message)
          × Names verifier message username domain
          × (r ≡ next rest (identify username domain c)))

  checked_cases :
      (c : Context) (username domain : List ℕ) (v : Option UserVerifier)
      → Refused c (checked rest verifier c username domain v)
        ⊎ ((verify : UserVerifier) × (v ≡ some verify)
            × (verify username domain ≡ true)
            × (checked rest verifier c username domain v ≡ next rest (identify username domain c)))
  checked_cases c username domain none = inl (send_unauthorized-Refused c (codes "NTLM"))
  checked_cases c username domain (some verify) = elim (Bool-cases (verify username domain)) [
    | inl accepts ↦ inr (verify, refl, accepts, rw accepts refl)
    | inr denies ↦ inl (rw denies (send_unauthorized-Refused c (codes "NTLM")))
  ]

  type3_cases :
      (c : Context) (u d : Option (List ℕ))
      → Refused c (type3 rest verifier c u d)
        ⊎ ((username domain : List ℕ) × (u ≡ some username)
            × (d ≡ some domain)
            × ((verify : UserVerifier) × (verifier ≡ some verify) × (verify username domain ≡ true))
            × (type3 rest verifier c u d ≡ next rest (identify username domain c)))
  type3_cases c none d = inl (send_unauthorized-Refused c (codes "NTLM"))
  type3_cases c (some username) none = inl (send_unauthorized-Refused c (codes "NTLM"))
  type3_cases c (some username) (some domain) = elim (checked_cases c username domain verifier) [
    | inl refused ↦ inl refused
    | inr (verify, e, accepts, r) ↦ inr (username, domain, refl, refl, (verify, e, accepts), r)
  ]

  is_type-some : (n : ℕ) (o : Option ℕ) → is_type n o ≡ true → o ≡ some n
  is_type-some n none e = absurd (ground arith)
  is_type-some n (some b) e = ap some (ground arith)

  message_cases : (c : Context) (o : Option (List ℕ)) → Outcome c (message rest verifier c o) o
  unfolding message
  message_cases c none = inl (send_unauthorized-Refused c (codes "NTLM"))
  message_cases c (some byte_data) = elim (Bool-cases (is_type 1 (get_elem? byte_data 8))) [
    | inl one ↦ inl (rw one (next-Refused c _ (send_unauthorized-Refused c (codes "NTLM"))))
    | inr not_one ↦ elim (Bool-cases (is_type 3 (get_elem? byte_data 8))) [
      | inl three ↦
          elim (type3_cases c (get_ntlm_field byte_data 38) (get_ntlm_field byte_data 30)) [
            | inl refused ↦ inl (rw (not_one, three) refused)
            | inr (username, domain, eu, ed, v, r) ↦ inr (
              byte_data,
              username,
              domain,
              refl,
              (is_type-some 3 (get_elem? byte_data 8) three, eu, ed, v),
              rw (not_one, three) r,
            )
          ]
      | inr not_three ↦ inl (rw (not_one, not_three) (send_unauthorized-Refused c (codes "NTLM")))
    ]
  ]

  words_cases :
      (c : Context) (ws : List (List ℕ))
      → Refused c (words rest verifier c ws)
        ⊎ ((encoded : List ℕ) × (ws ≡ codes "NTLM" ∷ encoded ∷ [])
            × Outcome c (words rest verifier c ws) (Base64.decode encoded))
  unfolding words
  words_cases c [] = inl (send_unauthorized-Refused c (codes "NTLM"))
  words_cases c (w ∷ []) = inl (send_unauthorized-Refused c (codes "NTLM"))
  words_cases c (w ∷ x ∷ y ∷ ws) = inl (send_unauthorized-Refused c (codes "NTLM"))
  words_cases c (scheme ∷ encoded ∷ []) = elim (Bool-cases (text_eq scheme (codes "NTLM"))) [
    | inl ntlm ↦ inr (
      encoded,
      ap (λ (t : List ℕ). t ∷ encoded ∷ []) ((text_eq_iff scheme (codes "NTLM")).0 ntlm),
      rw ntlm (message_cases c (Base64.decode encoded)),
    )
    | inr other ↦ inl (rw other (send_unauthorized-Refused c (codes "NTLM")))
  ]

  -- On a path that is protected, a request is either refused, with status 401 and no key set, or it
  -- goes on to the rest of the chain with the keys username and domain, which stand in a message of
  -- type 3 in the header's base64 behind the scheme NTLM, and which the configured verifier accepts.
  -- Without a verifier, only the first is possible.
  pub ntlm_middleware_cases :
      (path req_path auth_header : List ℕ) (c : Context)
      → path_matches req_path path ≡ true
      → let r = ntlm_middleware rest verifier path req_path auth_header c in
        Refused c r ⊎ Admitted rest verifier auth_header c r
  unfolding ntlm_middleware
  ntlm_middleware_cases path req_path auth_header c protects =
      let a = allow_origin c in
      elim (Bool-cases (text_eq auth_header [])) [
        | inl empty ↦ inl (
            rw (protects, empty)
              (next-Refused a (send_unauthorized a (codes "NTLM"))
                (send_unauthorized-Refused a (codes "NTLM"))))
        | inr given ↦ elim (words_cases a (split b' ' auth_header)) [
          | inl refused ↦ inl (rw (protects, given) refused)
          | inr (encoded, e, inl refused) ↦ inl (rw (protects, given) refused)
          | inr (encoded, e, inr (message, username, domain, d, n, r)) ↦
              inr (encoded, message, username, domain, e, d, n, rw (protects, given) r)
        ]
      ]

abbrev accepts_by : Option UserVerifier → UserVerifier
accepts_by none username domain = false
accepts_by (some verify) username domain = verify username domain

-- The verifier that asks the LDAP client for the user, in the state `client` of it.
abbrev pub ldap_verifier : (List ℕ → Option ℤ) → ℤ → Client → Directory → UserVerifier
ldap_verifier parse_int now client d username domain =
    is_verified (verify_user parse_int now client d username).1
