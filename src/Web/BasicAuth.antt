-- ===== src/Web/BasicAuth.antt =====
-- web/gin/middleware/auth: the handlers of authBasicCustom.go and basic/, which check the header
-- Authorization.
use arcella_lib.Prelude.Text.{AllBytes-append, text_eq_iff, codes, text_eq, AllBytes}
use arcella_lib.Prelude.Base64.Prefix
use arcella_lib.Web.Client.{basic_auth}
use arcella_lib.Prelude.{
  Bool-cases, inr, inl, ap, ◌==◌, ◌++◌, ◌∷◌, ◌≢◌, ◌≡◌, if◌then◌else◌, arith, [], List, some, none,
  Option, true, Bool, refl, ℕ,
}

abbrev pub prepend : ℕ → Option (List ℕ × List ℕ) → Option (List ℕ × List ℕ)
prepend c none = none
prepend c (some (a, b)) = some (c ∷ a, b)

-- `strings.SplitN(s, sep, 2)`: `none` where it has a single part
unfoldable pub split2 : ℕ → List ℕ → Option (List ℕ × List ℕ)
split2 sep [] = none
split2 sep (c ∷ s) = let rest = split2 sep s in if c == sep then some ([], s) else prepend c rest

-- `c.Next()`, or status 401 and `c.Abort()`
pub data Answer : Type 0 where
  next unauthorized : Answer

abbrev pub verdict : (List ℕ → List ℕ → Bool) → Option (List ℕ × List ℕ) → Answer
verdict auth_func none = unauthorized
verdict auth_func (some (user, pass)) = if auth_func user pass then next else unauthorized

abbrev pub check : (List ℕ → List ℕ → Bool) → Option (List ℕ × List ℕ) → Answer
check auth_func none = unauthorized
check auth_func (some (scheme, encoded)) =
    if text_eq scheme (codes "Basic")
    then verdict auth_func (split2 b':' (Prefix.decode_prefix encoded))
    else unauthorized

-- `BasicAuthFunc` on the header's first value
unfoldable pub basic_auth_func : (List ℕ → List ℕ → Bool) → List ℕ → Answer
unfolding split2 Prefix.decode_prefix
basic_auth_func auth_func header = check auth_func (split2 b' ' header)

abbrev pub Lacks : ℕ → List ℕ → Type 0
Lacks sep [] = Unit {0}
Lacks sep (c ∷ s) = (c ≢ sep) × Lacks sep s

split2-append : (sep : ℕ) (a b : List ℕ) → Lacks sep a → split2 sep (a ++ (sep ∷ b)) ≡ some (a, b)
unfolding split2
split2-append sep [] b h = ground arith
split2-append sep (c ∷ a) b (ne, h) = ground (arith, split2-append sep a b h)

-- The header that the HTTP client makes of the bytes of a user without a colon and of a password is
-- read back as these two, and it depends on them alone whether the request goes on.
pub basic_auth_func-basic_auth :
    (auth_func : List ℕ → List ℕ → Bool) (user pass : List ℕ)
    → AllBytes user
    → AllBytes pass
    → Lacks b':' user
    → basic_auth_func auth_func (codes "Basic " ++ basic_auth user pass)
      ≡ (if auth_func user pass then next else unauthorized)
unfolding basic_auth_func basic_auth
basic_auth_func-basic_auth auth_func user pass hu hp h =
    rw
      (
        Prefix.decode_prefix-encode (user ++ (b':' ∷ pass))
            (AllBytes-append user (b':' ∷ pass) hu (omega arith, hp)),
        split2-append b':' user pass h,
      )
      refl

verdict-next :
    (auth_func : List ℕ → List ℕ → Bool) (o : Option (List ℕ × List ℕ))
    → verdict auth_func o ≡ next
    → (user pass : List ℕ) × (o ≡ some (user, pass)) × (auth_func user pass ≡ true)
verdict-next auth_func none e = ground arith
verdict-next auth_func (some (user, pass)) e = (user, pass, refl, ground arith)

check-next :
    (auth_func : List ℕ → List ℕ → Bool) (o : Option (List ℕ × List ℕ))
    → check auth_func o ≡ next
    → (encoded user pass : List ℕ) × (o ≡ some (codes "Basic", encoded))
      × (split2 b':' (Prefix.decode_prefix encoded) ≡ some (user, pass))
      × (auth_func user pass ≡ true)
check-next auth_func none e = ground arith
check-next auth_func (some (scheme, encoded)) e =
    elim (Bool-cases (text_eq scheme (codes "Basic"))) [
      | inl basic ↦
          let (user, pass, split, accepted) =
            verdict-next auth_func (split2 b':' (Prefix.decode_prefix encoded)) (ground arith) in
          (
            encoded,
            user,
            pass,
            ap (λ (t : List ℕ). some (t, encoded)) ((text_eq_iff scheme (codes "Basic")).0 basic),
            split,
            accepted,
          )
      | inr other ↦ absurd (ground arith)
    ]

-- A request goes on only if the function accepts a user and a password that stand in the header,
-- with a colon between them, behind the scheme Basic.
pub basic_auth_func-next :
    (auth_func : List ℕ → List ℕ → Bool) (header : List ℕ)
    → basic_auth_func auth_func header ≡ next
    → (encoded user pass : List ℕ) × (split2 b' ' header ≡ some (codes "Basic", encoded))
      × (split2 b':' (Prefix.decode_prefix encoded) ≡ some (user, pass))
      × (auth_func user pass ≡ true)
unfolding basic_auth_func
basic_auth_func-next auth_func header e = check-next auth_func (split2 b' ' header) e
