-- ===== src/Tc/Token/Redaction.antt =====
-- tc/tcClientSender/tcClientHTTP.go: what safeTokenBody leaves of a body.
use arcella_lib.Prelude.Text.{has_prefix, All, codes}
use arcella_lib.Tc.Token.{
  skip_space, behind, cut, redacted, safe_token_body, behind_field, past_quote, redact,
}
use arcella_lib.Prelude.{
  none, length-append, ◌∙◌, ◌-◌, arith, ap, ◌==◌, ◌++◌, ◌∷◌, ◌≡◌, length, [], List, some, false,
  refl, zero, ℕ,
}

abbrev pub NoQuote : List ℕ → Type 0
NoQuote = All (λ c. c == 34 ≡ false)

past_quote-append :
    (token post : List ℕ) → NoQuote token → past_quote (token ++ (34 ∷ post)) ≡ some post
unfolding past_quote
past_quote-append [] post h = refl
past_quote-append (c ∷ token) post (other, h) = rw other (past_quote-append token post h)

redact-append : (xs ys : List ℕ) → redact (length xs) (xs ++ ys) ≡ redact zero ys
unfolding redact
redact-append [] ys = refl
redact-append (x ∷ xs) ys = redact-append xs ys

-- a compact field, without its first quote
abbrev field_tail : List ℕ → List ℕ
field_tail token = codes "access_token" ++ (34 ∷ 58 ∷ 34 ∷ (token ++ (34 ∷ [])))

abbrev pub field : List ℕ → List ℕ
field token = 34 ∷ field_tail token

append_one : (xs ys : List ℕ) → (xs ++ (34 ∷ [])) ++ ys ≡ xs ++ (34 ∷ ys)
append_one [] ys = refl
append_one (x ∷ xs) ys = ap (◌∷◌ x) (append_one xs ys)

behind_field-field :
    (token post : List ℕ) → NoQuote token → behind_field (field token ++ post) ≡ some post
unfolding behind_field behind has_prefix skip_space
behind_field-field token post h =
    ap past_quote (append_one token post) ∙ past_quote-append token post h

minus_length : (xs ys : List ℕ) → length (xs ++ ys) - length ys ≡ length xs
minus_length xs ys = omega (arith, length-append xs ys)

redact-field :
    (token post : List ℕ)
    → NoQuote token
    → redact zero (field token ++ post) ≡ redacted ++ redact zero post
redact-field token post h =
    redact_match (field_tail token ++ post) post (behind_field-field token post h)
    ∙ ap (λ (n : ℕ). redacted ++ redact n (field_tail token ++ post))
        (minus_length (field_tail token) post)
    ∙ ap (λ (t : List ℕ). redacted ++ t) (redact-append (field_tail token) post)
  where
    redact_match :
        (s rest : List ℕ)
        → behind_field (34 ∷ s) ≡ some rest
        → redact zero (34 ∷ s) ≡ redacted ++ redact (length s - length rest) s
    redact_match s rest e = unfold redact in rw e refl

-- a byte that is no quote begins no match
behind_field_other : (c : ℕ) (s : List ℕ) → c == 34 ≡ false → behind_field (c ∷ s) ≡ none
unfolding behind_field behind has_prefix
behind_field_other c s e = let start : 34 == c ≡ false = ground arith in rw start refl

redact_other : (c : ℕ) (s : List ℕ) → c == 34 ≡ false → redact zero (c ∷ s) ≡ c ∷ redact zero s
unfolding redact
redact_other c s e = rw (behind_field_other c s e, redact) refl

redact_before : (pre s : List ℕ) → NoQuote pre → redact zero (pre ++ s) ≡ pre ++ redact zero s
redact_before [] s h = refl
redact_before (c ∷ pre) s (other, h) =
    redact_other c (pre ++ s) other ∙ ap (◌∷◌ c) (redact_before pre s h)

-- The body of an answer is logged without the token: whatever stands in its first field, if that is
-- access_token without blanks, is replaced, and the text is the same for every token. Neither the text
-- before the field nor the token may have a quotation mark in it.
pub safe_token_body-field :
    (pre token post : List ℕ)
    → NoQuote pre
    → NoQuote token
    → safe_token_body (pre ++ (field token ++ post)) ≡ cut (pre ++ (redacted ++ redact zero post))
unfolding safe_token_body
safe_token_body-field pre token post hp ht = ap cut (
    redact_before pre (field token ++ post) hp
    ∙ ap (λ (t : List ℕ). pre ++ t) (redact-field token post ht))
