-- ===== src/Web/FastHttp.antt =====
-- web/fasthttp/client/FastHttpClient.go. A request without a body has an empty text as its body; what
-- the library fasthttp answers is an argument.
pub mod Headers
use arcella_lib.Prelude.Int.{ℤ}
use arcella_lib.Prelude.Dict
use arcella_lib.Prelude.Text.{codes, text_eq, itoa}
use arcella_lib.Web.Client.{text_eq_instance}
use arcella_lib.Web.Client.Requests.{Body, text, value, Header, RequestDts}
use arcella_lib.Web.Client.Responses.{ResponseDts}
use arcella_lib.Prelude.{
  ◌==◌, ◌++◌, ◌∷◌, if◌then◌else◌, length, ltb, [], List, some, none, Option, false, true, Bool, ℕ,
}

pub record ConfigFastHttpClient : Type 0 where
  pub request_timeout : ℤ
  pub read_timeout : ℤ
  pub write_timeout : ℤ
  pub idle_conn_timeout : ℤ
  pub dns_timeout : ℤ
  pub max_response_body_size : ℤ

-- the fields of `fasthttp.Client` that are set
pub record Client : Type 0 where
  pub read_timeout : ℤ
  pub write_timeout : ℤ
  pub max_idle_conn_duration : ℤ
  pub max_response_body_size : ℤ
  pub no_default_user_agent_header : Bool
  pub disable_header_names_normalizing : Bool
  pub disable_path_normalizing : Bool
  pub concurrency : ℕ
  pub dns_cache_duration : ℤ

pub record FastHttpClient : Type 0 where
  pub config : ConfigFastHttpClient
  pub client : Client

unfoldable pub new_fast_http_client : ConfigFastHttpClient → FastHttpClient
new_fast_http_client c = record {
  config = c;
  client = record {
    read_timeout = c.read_timeout;
    write_timeout = c.write_timeout;
    max_idle_conn_duration = c.idle_conn_timeout;
    max_response_body_size = c.max_response_body_size;
    no_default_user_agent_header = true;
    disable_header_names_normalizing = true;
    disable_path_normalizing = true;
    concurrency = 4096;
    dns_cache_duration = c.dns_timeout;
  };
}

-- `getReqBodyReader`, and `none` for an error of `json.Marshal`
unfoldable pub get_req_body_reader : Body → Option (List ℕ)
get_req_body_reader (text s) = some s
get_req_body_reader (value json) = json

abbrev pub or_empty : Option (List (List ℕ)) → List (List ℕ)
or_empty none = []
or_empty (some vs) = vs

-- `VisitAll`: each value is appended to those of its key
unfoldable pub visit_all : List (List ℕ × List ℕ) → Header → Header
unfolding Dict.lookup Dict.insert
visit_all [] headers = headers
visit_all ((key, v) ∷ h) headers =
    visit_all h (Dict.insert key (or_empty (Dict.lookup key headers) ++ (v ∷ [])) headers)

unfoldable pub copy_response_headers : List (List ℕ × List ℕ) → Option Header
unfolding visit_all
copy_response_headers [] = none
copy_response_headers (x ∷ h) = some (visit_all (x ∷ h) [])

-- a request, with whether its type of content is set, to JSON
pub record Request : Type 0 where
  pub uri : List ℕ
  pub method : List ℕ
  pub content_type_json : Bool
  pub body : List ℕ

pub record Reply : Type 0 where
  pub status_code : ℕ
  pub status_message : List ℕ
  pub body : List ℕ
  pub headers : List (List ℕ × List ℕ)

abbrev pub request_of : RequestDts → List ℕ → Request
request_of r body = record {
  uri = r.request_url;
  method = if text_eq r.request_type [] then codes "GET" else r.request_type;
  content_type_json = ltb 0 (length body);
  body = body;
}

abbrev pub response_of : Option Reply → Option ResponseDts
unfolding copy_response_headers itoa
response_of none = none
response_of (some reply) = some (record {
  status_code = reply.status_code;
  status = itoa reply.status_code ++ (codes " " ++ reply.status_message);
  body = reply.body;
  header = copy_response_headers reply.headers;
})

abbrev pub sent :
    (Client → Request → ℤ → Option Reply)
    → FastHttpClient
    → RequestDts
    → Option (List ℕ)
    → Option ResponseDts
unfolding response_of
sent do_timeout fh r none = none
sent do_timeout fh r (some body) =
    response_of (do_timeout fh.client (request_of r body) fh.config.request_timeout)

-- `DORequest`; an error comes with an empty response
unfoldable pub do_request :
    (Client → Request → ℤ → Option Reply) → FastHttpClient → RequestDts → Option ResponseDts
unfolding get_req_body_reader sent
do_request do_timeout fh r = sent do_timeout fh r (get_req_body_reader r.body)
