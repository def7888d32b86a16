-- ===== src/Web/Client.antt =====
-- web/std/client/HTTPClient.go: the shared http.Client and the settings that it is built from. A
-- round tripper is a number; logging and the closing of idle connections are left out.
pub mod Shared
pub mod Requests
pub mod Responses
mod Tests
use arcella_lib.Prelude.Int.{ℤ, pos}
use arcella_lib.Prelude.Text.{codes, text_eq, text_eq_iff}
use arcella_lib.Prelude.Dict.{Dict, Eq, insert}
use arcella_lib.Prelude.Base64
use arcella_lib.Prelude.{
  ◌==◌, ◌++◌, ◌∷◌, if◌then◌else◌, [], List, some, none, Option, false, true, Bool, ℕ,
}

instance abbrev pub text_eq_instance : Eq (List ℕ)
text_eq_instance = record { beq = text_eq; beq_iff = text_eq_iff }

pub record ConfigHttpClient : Type 0 where
  pub max_idle_conns : ℤ
  pub max_idle_conns_per_host : ℤ
  pub idle_conn_timeout : ℤ
  pub request_timeout : ℤ
  pub disable_compression : Bool
  pub max_response_body_size : ℤ
  pub insecure_skip_verify : Bool

-- tls.Config, with Go's zero values for what is not set
pub record TlsConfig : Type 0 where
  pub insecure_skip_verify : Bool
  pub min_version : ℕ
  pub server_name : List ℕ
  pub cipher_suites : List ℕ

pub data Transport : Type 0 where
  custom : Option ℕ → Transport
  standard : ℤ → ℤ → ℤ → Bool → ℕ → TlsConfig → Transport

-- http.Client
pub record Client : Type 0 where
  pub timeout : ℤ
  pub transport : Transport

pub record HttpClient : Type 0 where
  pub config : ConfigHttpClient
  pub h_client : Option Client
  pub header : Dict (List ℕ) (List ℕ)
  pub client_round_tripper : Option ℕ
  pub client_round_tripper_added : Bool
  pub fixed_cipher_rule : List ℕ

unfoldable pub new_http_client : ConfigHttpClient → HttpClient
new_http_client config = record {
  config = config;
  h_client = none;
  header = [];
  client_round_tripper = none;
  client_round_tripper_added = false;
  fixed_cipher_rule = [];
}

-- `strings.TrimSuffix(host, "/")`
unfoldable pub trim_slash : List ℕ → List ℕ
trim_slash [] = []
trim_slash (c ∷ []) = if c == b'/' then [] else c ∷ []
trim_slash (c ∷ d ∷ s) = c ∷ trim_slash (d ∷ s)

unfoldable pub get_url : List ℕ → List ℕ → List ℕ
unfolding trim_slash
get_url host url = if text_eq host [] then url else trim_slash host ++ (b'/' ∷ url)

unfoldable pub basic_auth : List ℕ → List ℕ → List ℕ
unfolding Base64.encode
basic_auth username password = Base64.encode (username ++ (b':' ∷ password))

unfoldable pub set_transport : HttpClient → Option ℕ → HttpClient
set_transport h tr = record h {
  client_round_tripper_added = true;
  client_round_tripper = tr;
  h_client = none;
}

unfoldable pub set_fixed_cipher_rule_with_url : HttpClient → List ℕ → HttpClient
set_fixed_cipher_rule_with_url h url =
    if text_eq h.fixed_cipher_rule url
    then h
    else record h { fixed_cipher_rule = url; h_client = none }

-- tls.VersionTLS12, and the numbers of the six suites that `buildClient` allows
abbrev pub version_tls12 : ℕ
version_tls12 = 0x303

abbrev pub fixed_cipher_suites : List ℕ
fixed_cipher_suites = 0xc02f ∷ 0xc030 ∷ 0xc02b ∷ 0xc02c ∷ 0x9c ∷ 0x9d ∷ []

abbrev pub default_to : List ℕ → Option (List ℕ) → List ℕ
default_to d none = d
default_to d (some s) = s

-- `url.Parse` and `Hostname` are `hostname`.
unfoldable pub build_client : (List ℕ → Option (List ℕ)) → HttpClient → Client
build_client hostname h =
    let tls_config : TlsConfig =
      (if text_eq h.fixed_cipher_rule []
        then record {
          insecure_skip_verify = h.config.insecure_skip_verify;
          min_version = 0;
          server_name = [];
          cipher_suites = [];
        }
        else record {
          insecure_skip_verify = true;
          min_version = version_tls12;
          server_name = default_to [] (hostname h.fixed_cipher_rule);
          cipher_suites = fixed_cipher_suites;
        }) in
    record {
      timeout = h.config.request_timeout;
      transport =
          if h.client_round_tripper_added
          then custom h.client_round_tripper
          else standard h.config.max_idle_conns h.config.max_idle_conns_per_host
              h.config.idle_conn_timeout h.config.disable_compression 10000000000 tls_config;
    }

unfoldable pub get_client : (List ℕ → Option (List ℕ)) → HttpClient → HttpClient × Client
unfolding build_client
get_client hostname h = elim h.h_client [
  | some client ↦ (h, client)
  | none ↦ let client = build_client hostname h in (record h { h_client = some client }, client)
]

unfoldable pub close : HttpClient → HttpClient
close h = record h { h_client = none }

unfoldable pub add_header : HttpClient → List ℕ → List ℕ → HttpClient
unfolding insert
add_header h k v = record h { header = insert k v h.header }

unfoldable pub add_basic_auth : HttpClient → List ℕ → List ℕ → HttpClient
unfolding insert basic_auth
add_basic_auth h u p = record h {
  header = insert (codes "Authorization") (codes "Basic " ++ basic_auth u p) h.header;
}
