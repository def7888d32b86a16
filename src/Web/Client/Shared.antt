-- ===== src/Web/Client/Shared.antt =====
-- web/std/client/HTTPClient.go: the shared client through every sequence of calls.
use arcella_lib.Web.Client.{
  ConfigHttpClient, Client, HttpClient, new_http_client, set_transport,
  set_fixed_cipher_rule_with_url, build_client, get_client, close, add_header, add_basic_auth,
}
use arcella_lib.Prelude.{◌∷◌, ◌≡◌, Option-cases, arith, inr, inl, [], List, some, Option, refl, ℕ}

pub data Call : Type 0 where
  call_set_transport : Option ℕ → Call
  call_set_fixed_cipher_rule : List ℕ → Call
  call_get_client call_close : Call
  call_add_header call_add_basic_auth : List ℕ → List ℕ → Call

module _ (hostname : List ℕ → Option (List ℕ)) where
  unfoldable pub call : HttpClient → Call → HttpClient
  unfolding set_transport set_fixed_cipher_rule_with_url get_client close add_header add_basic_auth
  call h (call_set_transport tr) = set_transport h tr
  call h (call_set_fixed_cipher_rule url) = set_fixed_cipher_rule_with_url h url
  call h call_get_client = (get_client hostname h).0
  call h call_close = close h
  call h (call_add_header k v) = add_header h k v
  call h (call_add_basic_auth u p) = add_basic_auth h u p

  unfoldable pub run : HttpClient → List Call → HttpClient
  unfolding call
  run h [] = h
  run h (c ∷ cs) = run (call h c) cs

  abbrev IsCurrent : HttpClient → Type 0
  IsCurrent h = (client : Client) → h.h_client ≡ some client → client ≡ build_client hostname h

  call-IsCurrent : (h : HttpClient) (c : Call) → IsCurrent h → IsCurrent (call h c)
  unfolding call build_client
  call-IsCurrent h (call_set_transport tr) v client e = ground arith
  call-IsCurrent h (call_set_fixed_cipher_rule url) v client e = ground (arith, v client)
  call-IsCurrent h call_get_client v client e = ground (arith, v client)
  call-IsCurrent h call_close v client e = ground arith
  call-IsCurrent h (call_add_header k w) v client e = ground (arith, v client)
  call-IsCurrent h (call_add_basic_auth u p) v client e = ground (arith, v client)

  run-IsCurrent : (h : HttpClient) (cs : List Call) → IsCurrent h → IsCurrent (run h cs)
  unfolding run
  run-IsCurrent h [] v = v
  run-IsCurrent h (c ∷ cs) v = run-IsCurrent (call h c) cs (call-IsCurrent h c v)

  new-IsCurrent : (config : ConfigHttpClient) → IsCurrent (new_http_client config)
  unfolding new_http_client
  new-IsCurrent config client e = ground arith

  get_client_current :
      (h : HttpClient) → IsCurrent h → (get_client hostname h).1 ≡ build_client hostname h
  unfolding get_client
  get_client_current h v = elim (Option-cases h.h_client) [
    | inl missing ↦ rw missing refl
    | inr (client, found) ↦ rw found (v client found)
  ]

  -- After any sequence of calls on a new client, `GetClient` answers the http.Client that would be
  -- built from the settings of the moment: a cached one is never out of date.
  pub get_client-run :
      (config : ConfigHttpClient) (cs : List Call)
      → let h = run (new_http_client config) cs in
        (get_client hostname h).1 ≡ build_client hostname h
  get_client-run config cs =
      get_client_current (run (new_http_client config) cs)
        (run-IsCurrent (new_http_client config) cs (new-IsCurrent config))
