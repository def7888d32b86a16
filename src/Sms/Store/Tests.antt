-- ===== src/Sms/Store/Tests.antt =====
-- The store over an association list.
use arcella_lib.Prelude.Int.{pos}
use arcella_lib.Prelude.Dict
use arcella_lib.Prelude.Text.{text_eq}
use arcella_lib.Web.Client.{text_eq_instance}
use arcella_lib.Sms.Store.{BigCache, Codec, IsFaithful, get, list, no_request}
use arcella_lib.Sms.Store.Refine
use arcella_lib.Sms.Store.Refine.{Call, sets, deletes, clears, run, replay, call}
use arcella_lib.Prelude.{
  ◌∙◌, ◌∷◌, ◌≡◌, ◌%◌, if◌then◌else◌, length, arith, [], List, some, none, Option, false, true, ap,
  sym, refl, ℕ,
}

abbrev cache : BigCache (Dict.Dict (List ℕ) (List ℕ))
cache = record {
  set = λ k v s. some (Dict.insert k v s);
  get = λ k s. Dict.lookup k s;
  delete = λ k s. some (Dict.remove k s);
  reset = λ s. some [];
  len = λ s. length s;
  entries = λ s. [];
  close = λ s. true;
}

abbrev head : List ℕ → Option ℕ
head [] = none
head (x ∷ s) = some x

abbrev split_head : List ℕ → Option (List ℕ × ℕ)
split_head [] = none
split_head (x ∷ s) = some (s, x)

abbrev codec : Codec ℕ
codec = record {
  sequence_number = λ p. pos (p % 100);
  marshal = λ p. p ∷ [];
  parse = head;
  gob_encode = λ x. some (x.1 ∷ x.0);
  gob_decode = split_head;
}

abbrev after : Option (Dict.Dict (List ℕ) (List ℕ)) → List ℕ → Option (List ℕ)
after none k = none
after (some s) k = Dict.lookup k s

gob_lem : (x : List ℕ × ℕ) (b : List ℕ) → codec.gob_encode x ≡ some b → codec.gob_decode b ≡ some x
gob_lem (s, t) [] e = absurd (ground arith)
gob_lem (s, t) (y ∷ b) e = ground arith

lookup_text :
    (k j : List ℕ) (m : Dict.Dict (List ℕ) (List ℕ)) (v : List ℕ)
    → Dict.lookup j (Dict.insert k v m) ≡ (if text_eq k j then some v else Dict.lookup j m)
lookup_text k j m v = Dict.lookup-insert k j v m

cache-IsFaithful : IsFaithful cache codec
unfolding Dict.lookup
cache-IsFaithful = record {
  get_set = λ k j v s t e. ap (λ o. after o j) (sym e) ∙ lookup_text k j s v;
  get_delete = λ k j s t e. ap (λ o. after o j) (sym e) ∙ Dict.lookup-remove k j s;
  get_reset = λ k s t e. ap (λ o. after o k) (sym e);
  parse_marshal = λ p. refl;
  gob_round = gob_lem;
  is_int64 = λ p. omega arith;
}

abbrev calls : List (Call ℕ)
calls = sets false 207 5 ∷ sets true 8 6 ∷ sets false 12 7 ∷ deletes false (pos 12) ∷ []

get-run-replay_example :
    get cache codec false (run cache codec calls (some [])).0 (pos 7)
    ≡ replay cache codec calls
        (run cache codec calls (some [])).1
        (get cache codec false (some []))
        (pos 7)
get-run-replay_example =
    Refine.get-run-replay cache codec cache-IsFaithful calls [] (pos 7) (omega arith)
      (tt, (tt, (tt, (omega arith, tt))))

-- an entry that cannot be read is listed as a request without a PDU
listed_empty :
    list (record cache { entries = λ s. some [] ∷ [] }) codec false (some []) ≡ no_request ∷ []
unfolding list
listed_empty = refl
