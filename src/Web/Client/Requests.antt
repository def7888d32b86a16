-- ===== src/Web/Client/Requests.antt =====
-- web/std/client/HTTPClient.go and web/ClientDTS.go: from a RequestDTS to the http.Request.
use mathlib.Core.List.{append-nil, append_assoc}
use arcella_lib.Prelude.Text.{text_eq_iff, codes, text_eq, to_lower, is_alnum}
use arcella_lib.Prelude.Dict.{Dict, lookup, insert, lookup-insert}
use arcella_lib.Web.Client.{HttpClient, text_eq_instance, basic_auth}
use arcella_lib.Prelude.{
  ◌∙◌, ap, Bool-cases, arith, inr, inl, sym, ◌==◌, ◌||◌, ◌&&◌, ◌++◌, ◌∷◌, ◌≡◌, ◌-◌, if◌then◌else◌,
  leb, all, [], List, some, none, Option, not, false, true, Bool, refl, ℕ,
}

-- `Body`, an interface: a string, or another value with the outcome of `json.Marshal`
pub data Body : Type 0 where
  text : List ℕ → Body
  value : Option (List ℕ) → Body

pub record AuthData : Type 0 where
  pub kind : List ℕ
  pub host : List ℕ
  pub user : List ℕ
  pub pass : List ℕ

pub record RequestDts : Type 0 where
  pub request_url : List ℕ
  pub request_type : List ℕ
  pub body : Body
  pub auth : AuthData
  pub headers : Dict (List ℕ) (List ℕ)

unfoldable pub is_basic : AuthData → Bool
is_basic ad = text_eq ad.kind (codes "basic") && not (text_eq ad.user [])

-- what an http.Request is made with; an empty body is `http.NoBody`
pub record Request : Type 0 where
  pub method : List ℕ
  pub url : List ℕ
  pub body : List ℕ
  pub header : Dict (List ℕ) (List (List ℕ))

unfoldable pub get_req_body_reader : Body → List ℕ
get_req_body_reader (text s) = s
get_req_body_reader (value (some s)) = s
get_req_body_reader (value none) = []

-- textproto's canonical form of a header's name
abbrev punctuation : List ℕ
punctuation = codes "!#$%&'*+-.^_`|~"

abbrev one_of : ℕ → List ℕ → Bool
one_of c [] = false
one_of c (d ∷ s) = c == d || one_of c s

unfoldable pub valid_header_field_byte : ℕ → Bool
unfolding is_alnum
valid_header_field_byte c = is_alnum c || one_of c punctuation

unfoldable pub to_upper : ℕ → ℕ
to_upper c = if leb b'a' c && leb c b'z' then c - 32 else c

unfoldable pub title_case : Bool → List ℕ → List ℕ
unfolding to_upper to_lower
title_case upper [] = []
title_case upper (c ∷ s) = (if upper then to_upper c else to_lower c) ∷ title_case (c == b'-') s

unfoldable pub canonical : List ℕ → List ℕ
unfolding title_case valid_header_field_byte
canonical k = if all valid_header_field_byte k then title_case true k else k

abbrev pub Header : Type 0
Header = Dict (List ℕ) (List (List ℕ))

abbrev pub values_of : Option (List (List ℕ)) → List (List ℕ)
values_of none = []
values_of (some vs) = vs

-- `header.Values(k)` for a canonical `k`, and `header.Add(k, v)`
unfoldable pub values : List ℕ → Header → List (List ℕ)
unfolding lookup
values k header = values_of (lookup k header)

unfoldable pub add : List ℕ → List ℕ → Header → Header
unfolding insert canonical values
add k v header = insert (canonical k) (values (canonical k) header ++ (v ∷ [])) header

-- for k, v := range headers { req.Header.Add(k, v) }
unfoldable pub add_all : Dict (List ℕ) (List ℕ) → Header → Header
unfolding add
add_all [] header = header
add_all ((k, v) ∷ headers) header = add_all headers (add k v header)

unfoldable pub header_of : HttpClient → RequestDts → Header
unfolding add add_all is_basic basic_auth
header_of h req =
    let header = add_all h.header (add_all req.headers []) in
    if is_basic req.auth
    then add (codes "Authorization") (codes "Basic " ++ basic_auth req.auth.user req.auth.pass)
        header
    else header

-- `valid` is what `http.NewRequest` makes of the method and the URL.
unfoldable pub new_http_request :
    (List ℕ → List ℕ → Bool) → HttpClient → RequestDts → Option Request
unfolding get_req_body_reader header_of
new_http_request valid h req =
    let request_type = if text_eq req.request_type [] then codes "GET" else req.request_type in
    if valid request_type req.request_url
    then some (record {
      method = request_type;
      url = req.request_url;
      body = get_req_body_reader req.body;
      header = header_of h req;
    })
    else none

-- the values that headers bring for a canonical name
abbrev pub brought : List ℕ → Dict (List ℕ) (List ℕ) → List (List ℕ)
brought k [] = []
brought k ((j, v) ∷ headers) =
    let rest = brought k headers in if text_eq (canonical j) k then v ∷ rest else rest

values-add :
    (k j v : List ℕ) (header : Header)
    → values k (add j v header)
      ≡ values k header ++ (if text_eq (canonical j) k then v ∷ [] else [])
unfolding values add
values-add k j v header = elim (Bool-cases (text_eq (canonical j) k)) [
  | inl same ↦
      let e : canonical j ≡ k = (text_eq_iff (canonical j) k).0 same in
      rw (lookup-insert (canonical j) k (values (canonical j) header ++ (v ∷ [])) header, same, e)
        refl
  | inr differ ↦
      rw (lookup-insert (canonical j) k (values (canonical j) header ++ (v ∷ [])) header, differ)
        (sym (append-nil (values k header)))
]

values-add_all :
    (k : List ℕ) (headers : Dict (List ℕ) (List ℕ)) (header : Header)
    → values k (add_all headers header) ≡ values k header ++ brought k headers
unfolding add_all
values-add_all k [] header = sym (append-nil (values k header))
values-add_all k ((j, v) ∷ headers) header =
    rw (values-add_all k headers (add j v header), values-add k j v header)
      (elim (Bool-cases (text_eq (canonical j) k)) [
        | inl same ↦ rw same (append_assoc (values k header) (v ∷ []) (brought k headers))
        | inr differ ↦ rw (differ, append-nil) refl
      ])

authorization_canonical : canonical (codes "Authorization") ≡ codes "Authorization"
unfolding canonical
authorization_canonical = refl

abbrev authorized : List ℕ → List ℕ → List (List ℕ)
authorized v k = if text_eq (codes "Authorization") k then v ∷ [] else []

values-add_authorization :
    (k v : List ℕ) (header : Header)
    → values k (add (codes "Authorization") v header) ≡ values k header ++ authorized v k
values-add_authorization k v header =
    values-add k (codes "Authorization") v header
    ∙ ap (λ (j : List ℕ). values k header ++ (if text_eq j k then v ∷ [] else []))
        authorization_canonical

abbrev credentials : AuthData → List ℕ → List (List ℕ)
credentials ad k =
    if is_basic ad && text_eq (codes "Authorization") k
    then (codes "Basic " ++ basic_auth ad.user ad.pass) ∷ []
    else []

values-header_of :
    (h : HttpClient) (req : RequestDts) (k : List ℕ)
    → values k (header_of h req)
      ≡ (brought k req.headers ++ brought k h.header) ++ credentials req.auth k
unfolding header_of
values-header_of h req k =
    let bearer = codes "Basic " ++ basic_auth req.auth.user req.auth.pass in
    let before : values k (add_all h.header (add_all req.headers []))
        ≡ brought k req.headers ++ brought k h.header =
      rw (values-add_all k h.header (add_all req.headers []), values-add_all k req.headers [])
        (unfold values lookup in refl) in
    elim (Bool-cases (is_basic req.auth)) [
      | inl basic ↦ rw basic (
          values-add_authorization k bearer (add_all h.header (add_all req.headers []))
          ∙ ap (λ (vs : List (List ℕ)). vs ++ authorized bearer k) before)
      | inr other ↦ rw (other, before) (sym (append-nil _))
    ]

header-new_http_request :
    (valid : List ℕ → List ℕ → Bool) (h : HttpClient) (req : RequestDts) (r : Request)
    → new_http_request valid h req ≡ some r
    → r.header ≡ header_of h req
unfolding new_http_request
header-new_http_request valid h req r e = ground arith

-- If a request is made, every header of it carries, in this order, the values that the caller gives for it, those
-- of the client, and, for Authorization with basic authentication, the credentials.
pub new_http_request-values :
    (valid : List ℕ → List ℕ → Bool) (h : HttpClient) (req : RequestDts) (r : Request) (k : List ℕ)
    → new_http_request valid h req ≡ some r
    → values k r.header ≡ (brought k req.headers ++ brought k h.header) ++ credentials req.auth k
new_http_request-values valid h req r k e =
    rw (header-new_http_request valid h req r e) (values-header_of h req k)
