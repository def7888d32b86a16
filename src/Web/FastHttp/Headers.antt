-- ===== src/Web/FastHttp/Headers.antt =====
-- web/fasthttp/client/FastHttpClient.go: the headers of a response.
use mathlib.Core.List.{append-nil, append_assoc}
use arcella_lib.Prelude.Dict
use arcella_lib.Prelude.Text.{text_eq, text_eq_iff}
use arcella_lib.Web.Client.{text_eq_instance}
use arcella_lib.Web.Client.Requests.{Header}
use arcella_lib.Web.FastHttp.{or_empty, visit_all, copy_response_headers}
use arcella_lib.Prelude.{
  ◌∙◌, ◌++◌, ◌∷◌, ◌≢◌, ◌≡◌, if◌then◌else◌, Bool-cases, inr, inl, [], List, some, none, Option, ap,
  sym, refl, ℕ,
}

-- the values of a key, in their order
unfoldable pub values_of : List ℕ → List (List ℕ × List ℕ) → List (List ℕ)
values_of k [] = []
values_of k ((key, v) ∷ h) = let rest = values_of k h in if text_eq key k then v ∷ rest else rest

visit_all_lem :
    (k : List ℕ) (h : List (List ℕ × List ℕ)) (headers : Header)
    → or_empty (Dict.lookup k (visit_all h headers))
      ≡ or_empty (Dict.lookup k headers) ++ values_of k h
unfolding visit_all values_of
visit_all_lem k [] headers = sym (append-nil (or_empty (Dict.lookup k headers)))
visit_all_lem k ((key, v) ∷ h) headers =
    let new = or_empty (Dict.lookup key headers) ++ (v ∷ []) in
    visit_all_lem k h (Dict.insert key new headers)
    ∙ ap (λ (o : Option (List (List ℕ))). or_empty o ++ values_of k h)
        (Dict.lookup-insert key k new headers)
    ∙ elim (Bool-cases (text_eq key k)) [
      | inl same ↦
          let at : key ≡ k = (text_eq_iff key k).0 same in
          rw (same, at) (append_assoc (or_empty (Dict.lookup k headers)) (v ∷ []) (values_of k h))
      | inr other ↦ rw other refl
    ]

-- The map of headers that a response gets has for every key its values in the order in which they came,
-- whatever other keys stand between them, and it is nil if there are none at all.
pub copy_response_headers_lem :
    (h : List (List ℕ × List ℕ)) (k : List ℕ)
    → (h ≡ [] → copy_response_headers h ≡ none)
      × (h ≢ []
          → (headers : Header) × (copy_response_headers h ≡ some headers)
            × (or_empty (Dict.lookup k headers) ≡ values_of k h))
unfolding copy_response_headers
copy_response_headers_lem [] k = (λ e. refl, λ ne. absurd (ne refl))
copy_response_headers_lem (x ∷ h) k =
    (λ e. cc, λ ne. (visit_all (x ∷ h) [], refl, unfold Dict.lookup in visit_all_lem k (x ∷ h) []))
