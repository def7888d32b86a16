-- ===== src/Tc/Token/Tests.antt =====
-- The request of a token on small answers.
use arcella_lib.Prelude.Text.{codes, has_prefix}
use arcella_lib.Web.Client.{trim_slash}
use arcella_lib.Tc.Token
use arcella_lib.Tc.Token.{
  AuthTokenResponse, Response, safe_token_body, redact, behind_field, behind, skip_space,
  past_quote, redacted, cut, server_host, behind_scheme, get_authorization_token, judge,
  request_from, ok, bad_status,
}
use arcella_lib.Tc.Token.Redaction
use arcella_lib.Tc.Token.Redaction.{field}
use arcella_lib.Prelude.{◌++◌, ◌∷◌, ◌≡◌, [], List, some, none, Option, refl, suc, zero, ℕ}

host : server_host (codes "https://tc.example/") ≡ codes "tc.example"
unfolding server_host behind_scheme trim_slash behind has_prefix
host = refl

safe_token_body-field_example :
    safe_token_body ((123 ∷ []) ++ (field (codes "s3cret") ++ (125 ∷ [])))
    ≡ cut ((123 ∷ []) ++ (redacted ++ redact zero (125 ∷ [])))
safe_token_body-field_example =
    Redaction.safe_token_body-field (123 ∷ []) (codes "s3cret") (125 ∷ []) (refl, tt)
      (refl, (refl, (refl, (refl, (refl, (refl, tt))))))

-- a token that has an escaped quotation mark is logged from there on
escaped_leaks :
    safe_token_body (field (codes "a" ++ (92 ∷ 34 ∷ codes "bc")))
    ≡ redacted ++ (codes "bc" ++ (34 ∷ []))
unfolding safe_token_body redact behind_field behind has_prefix skip_space past_quote
escaped_leaks = refl

-- one failure, then an answer that is refused
abbrev answer : Response
answer = record { status_code = 503; body = some [] }

abbrev flaky : List ℕ → ℕ → Option Response
flaky server zero = none
flaky server (suc n) = some answer

abbrev unreadable : List ℕ → Option AuthTokenResponse
unreadable body = none

refused : (get_authorization_token unreadable flaky (codes "h")).0 ≡ bad_status 503
unfolding get_authorization_token request_from judge Token.read
refused = refl
