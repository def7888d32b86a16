-- ===== src/Tc/Token.antt =====
-- tc/tcClientSender/tcClientHTTP.go: the request of a token. JSON, the URL and the HTTP client are
-- arguments; a text is the list of its bytes.
pub mod Redaction
pub mod Requests
mod Tests
use arcella_lib.Web.Client.{trim_slash}
use arcella_lib.Prelude.Text.{codes, has_prefix}
use arcella_lib.Prelude.{
  ◌==◌, ◌||◌, ◌++◌, ◌∷◌, ◌-◌, ◌+◌, if◌then◌else◌, ltb, leb, drop, take, length, [], List, some,
  none, Option, false, true, Bool, suc, zero, ℕ,
}

-- `\s` of regexp
abbrev pub is_space : ℕ → Bool
is_space c = c == 32 || (c == 9 || (c == 10 || (c == 12 || c == 13)))

unfoldable pub skip_space : List ℕ → List ℕ
skip_space [] = []
skip_space (c ∷ s) = let rest = skip_space s in if is_space c then rest else c ∷ s

-- the text behind the next quote
unfoldable pub past_quote : List ℕ → Option (List ℕ)
past_quote [] = none
past_quote (c ∷ s) = let rest = past_quote s in if c == 34 then some s else rest

abbrev pub behind : List ℕ → List ℕ → Option (List ℕ)
unfolding has_prefix
behind p s = if has_prefix p s then some (drop (length p) s) else none

abbrev pub then_do : Option (List ℕ) → (List ℕ → Option (List ℕ)) → Option (List ℕ)
then_do none f = none
then_do (some s) f = f s

abbrev pub field_name : List ℕ
field_name = 34 ∷ codes "access_token" ++ (34 ∷ [])

-- the text behind a match of `tokenFieldRe` that begins here
unfoldable pub behind_field : List ℕ → Option (List ℕ)
unfolding behind skip_space past_quote
behind_field s = then_do (behind field_name s) (λ a.
    then_do (behind (58 ∷ []) (skip_space a))
      (λ b. then_do (behind (34 ∷ []) (skip_space b)) past_quote))

abbrev pub redacted : List ℕ
redacted = field_name ++ (58 ∷ 34 ∷ codes "<redacted>" ++ (34 ∷ []))

-- `ReplaceAllString`; the number counts the bytes of a match that are still to be left out
unfoldable pub redact : ℕ → List ℕ → List ℕ
unfolding behind_field
redact skip [] = []
redact (suc skip) (c ∷ s) = redact skip s
redact zero (c ∷ s) = elim (behind_field (c ∷ s)) [
  | none ↦ c ∷ redact zero s
  | some rest ↦ redacted ++ redact (length s - length rest) s
]

abbrev pub cut : List ℕ → List ℕ
cut s = if ltb 256 (length s) then take 256 s else s

-- `safeTokenBody`
unfoldable pub safe_token_body : List ℕ → List ℕ
unfolding redact
safe_token_body b = cut (redact zero b)

-- `strings.Index` of "://", and the text behind it
unfoldable pub behind_scheme : List ℕ → Option (List ℕ)
unfolding behind
behind_scheme [] = none
behind_scheme (c ∷ s) =
    let rest = behind_scheme s in
    if has_prefix (codes "://") (c ∷ s) then some (drop 3 (c ∷ s)) else rest

abbrev pub or_all : List ℕ → Option (List ℕ) → List ℕ
or_all s none = s
or_all s (some t) = t

-- `serverHost`
unfoldable pub server_host : List ℕ → List ℕ
unfolding behind_scheme trim_slash
server_host server = trim_slash (or_all server (behind_scheme server))

pub record AuthTokenResponse : Type 0 where
  pub access_token : List ℕ
  pub expires_at : ℕ

-- an answer: its status, and its body unless reading it fails
pub record Response : Type 0 where
  pub status_code : ℕ
  pub body : Option (List ℕ)

pub data Result : Type 0 where
  ok : AuthTokenResponse → Result
  request_failed read_failed bad_json hangs : Result
  bad_status : ℕ → Result

-- how many requests were sent, and the answer
abbrev pub Sent : Type 0
Sent = ℕ × Option Response

abbrev pub sent : ℕ → Option Response → Option Sent → Option Sent
sent attempt (some resp) rest = some (attempt + 1, some resp)
sent attempt none rest = if leb 3 (attempt + 1) then some (attempt + 1, none) else rest

-- the loop over the attempts, in the given number of rounds
unfoldable pub request_from : (ℕ → Option Response) → ℕ → ℕ → Option Sent
request_from post attempt zero = none
request_from post attempt (suc rounds) =
    let rest = request_from post (attempt + 1) rounds in sent attempt (post attempt) rest

-- the result, and the bodies that are written to the log
abbrev pub decoded : Option AuthTokenResponse → List ℕ → Result × List (List ℕ)
unfolding safe_token_body
decoded (some token) body = (ok token, [])
decoded none body = (bad_json, safe_token_body body ∷ [])

abbrev pub read : (List ℕ → Option AuthTokenResponse) → ℕ → Option (List ℕ) → Result × List (List ℕ)
unfolding decoded
read unmarshal status none = (read_failed, [])
read unmarshal status (some body) =
    if ltb status 200 || ltb 299 status
    then (bad_status status, safe_token_body body ∷ [])
    else decoded (unmarshal body) body

abbrev pub judge : (List ℕ → Option AuthTokenResponse) → Option Sent → Result × List (List ℕ)
unfolding read
judge unmarshal none = (hangs, [])
judge unmarshal (some (n, none)) = (request_failed, [])
judge unmarshal (some (n, some resp)) = read unmarshal resp.status_code resp.body

-- `getAuthorizationToken`, with what each request to the host brings
unfoldable pub get_authorization_token :
    (List ℕ → Option AuthTokenResponse)
    → (List ℕ → ℕ → Option Response)
    → List ℕ
    → Result × List (List ℕ)
unfolding request_from judge server_host
get_authorization_token unmarshal post server =
    judge unmarshal (request_from (post (server_host server)) 0 3)
