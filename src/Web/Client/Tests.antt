-- ===== src/Web/Client/Tests.antt =====
-- The HTTP client and the authentication on small inputs.
use arcella_lib.Prelude.Int.{pos}
use arcella_lib.Prelude.Text.{codes}
use arcella_lib.Prelude.Text.{text_eq}
use arcella_lib.Web.Client.{
  basic_auth, ConfigHttpClient, HttpClient, new_http_client, add_header, get_client, build_client,
}
use arcella_lib.Web.Client.Shared
use arcella_lib.Web.Client.Shared.{Call, run, get_client-run}
use arcella_lib.Web.Client.Requests
use arcella_lib.Web.Client.Requests.{
  RequestDts, Request, new_http_request, header_of, brought, values, new_http_request-values,
}
use arcella_lib.Web.Client.Responses.{
  Net, HttpResponse, exchange, do_request, do_request_bytes, as_text,
}
use arcella_lib.Web.Client.Responses.Equivalence.{do_request-bytes}
use arcella_lib.Web.BasicAuth
use arcella_lib.Web.BasicAuth.{
  basic_auth_func, split2, basic_auth_func-basic_auth, basic_auth_func-next,
}
use arcella_lib.Prelude.{
  ◌&&◌, ◌++◌, ◌∷◌, ◌≡◌, arith, [], List, some, none, Option, false, true, Bool, refl, ℕ,
}

abbrev config : ConfigHttpClient
config = record {
  max_idle_conns = pos 10;
  max_idle_conns_per_host = pos 10;
  idle_conn_timeout = pos 30;
  request_timeout = pos 60;
  disable_compression = false;
  max_response_body_size = pos 3;
  insecure_skip_verify = false;
}

abbrev hostname : List ℕ → Option (List ℕ)
hostname url = some (codes "host")

abbrev calls : List Call
calls =
    Shared.call_get_client
    ∷ Shared.call_set_fixed_cipher_rule (codes "https://host")
    ∷ Shared.call_get_client
    ∷ Shared.call_set_transport none
    ∷ []

get_client-run_example :
    (get_client hostname (run hostname (new_http_client config) calls)).1
    ≡ build_client hostname (run hostname (new_http_client config) calls)
get_client-run_example = get_client-run hostname config calls

abbrev client : HttpClient
unfolding new_http_client add_header
client = add_header (new_http_client config) (codes "x-id") (codes "7")

abbrev request : RequestDts
request = record {
  request_url = codes "/";
  request_type = [];
  body = Requests.text [];
  auth = record { kind = codes "basic"; host = []; user = codes "ada"; pass = codes "pw" };
  headers = (codes "X-Id", codes "5") ∷ [];
}

abbrev accept : List ℕ → List ℕ → Bool
accept method url = true

abbrev made : Request
made = record {
  method = codes "GET";
  url = codes "/";
  body = [];
  header = header_of client request;
}

makes : new_http_request accept client request ≡ some made
unfolding new_http_request Requests.get_req_body_reader
makes = refl

abbrev reply : HttpResponse
reply = record {
  status_code = 200;
  status = codes "200 OK";
  header = [];
  body = some (record { bytes = codes "hello"; fails = false });
}

abbrev net : Net
net = record { hostname = hostname; valid = accept; send = λ c r. some reply; gunzip = λ r. none }

exchanges : exchange net client request ≡ some reply
unfolding exchange new_http_request
exchanges = refl

do_request-bytes_example :
    let r = do_request_bytes net client request in
    do_request net client request ≡ (r.0, as_text r.1, r.2)
do_request-bytes_example = do_request-bytes net client request

abbrev knows_ada : List ℕ → List ℕ → Bool
knows_ada user pass = text_eq user (codes "ada") && text_eq pass (codes "pw")

basic_auth_func-basic_auth_example :
    basic_auth_func knows_ada (codes "Basic " ++ basic_auth (codes "ada") (codes "pw"))
    ≡ BasicAuth.next
basic_auth_func-basic_auth_example =
    basic_auth_func-basic_auth knows_ada (codes "ada") (codes "pw")
      (omega arith, (omega arith, (omega arith, tt))) (omega arith, (omega arith, tt))
      (omega arith, (omega arith, (omega arith, tt)))

goes_on :
    basic_auth_func knows_ada (codes "Basic " ++ basic_auth (codes "ada") (codes "pw"))
    ≡ BasicAuth.next
unfolding basic_auth_func basic_auth
goes_on = refl
