-- ===== src/Sms/Store.antt =====
-- smsc/CustomStore.go: the requests that wait for an answer, by their sequence number. The cache of
-- allegro/bigcache, the PDUs of gosmpp and encoding/gob are parameters.
pub mod Refine
mod Tests
use arcella_lib.Prelude.Int.{ℤ}
use arcella_lib.Prelude.Text.{text_eq}
use arcella_lib.Prelude.Parse.{format_int, IsInt64}
use arcella_lib.Prelude.{◌∷◌, ◌≡◌, if◌then◌else◌, [], List, some, none, Option, true, Bool, ℕ}

-- The calls of the cache, on its state; `none` is an error. An entry of the iterator may fail.
pub record BigCache (S : Type 0) : Type 0 where
  pub set : List ℕ → List ℕ → S → Option S
  pub get : List ℕ → S → Option (List ℕ)
  pub delete : List ℕ → S → Option S
  pub reset : S → Option S
  pub len : S → ℕ
  pub entries : S → List (Option (List ℕ))
  pub close : S → Bool

-- `Marshal`, `pdu.Parse`, `GetSequenceNumber`, and gob on the two fields of `requestGob`
pub record Codec (Pdu : Type 0) : Type 0 where
  pub sequence_number : Pdu → ℤ
  pub marshal : Pdu → List ℕ
  pub parse : List ℕ → Option Pdu
  pub gob_encode : List ℕ × ℕ → Option (List ℕ)
  pub gob_decode : List ℕ → Option (List ℕ × ℕ)

-- `gosmpp.Request`, whose PDU is nil in an empty one
pub record Request (Pdu : Type 0) : Type 0 where
  pub pdu : Option Pdu
  pub time_sent : ℕ

pub data Error : Type 0 where
  canceled not_initialized serialization_failed store_failed : Error

abbrev pub no_request : {Pdu : Type 0} → Request Pdu
no_request = record { pdu = none; time_sent = 0 }

module _ {S Pdu : Type 0} (cache : BigCache S) (codec : Codec Pdu) where
  -- `serialize` of a request that has a PDU
  unfoldable pub serialize : Pdu → ℕ → Option (List ℕ)
  serialize p time_sent = codec.gob_encode (codec.marshal p, time_sent)

  abbrev pub parsed : ℕ → Option Pdu → Option (Request Pdu)
  parsed time_sent none = none
  parsed time_sent (some p) = some (record { pdu = some p; time_sent = time_sent })

  abbrev pub decoded : Option (List ℕ × ℕ) → Option (Request Pdu)
  decoded none = none
  decoded (some (bytes, time_sent)) = parsed time_sent (codec.parse bytes)

  unfoldable pub deserialize : List ℕ → Option (Request Pdu)
  deserialize b_request = decoded (codec.gob_decode b_request)

  abbrev pub key_of : ℤ → List ℕ
  key_of sequence_number = format_int sequence_number

  -- a call that writes: the state behind it, and its error
  abbrev pub written : Option S → Option S → Option S × Option Error
  written old none = (old, some store_failed)
  written old (some s) = (some s, none)

  abbrev pub put : S → List ℕ → Option (List ℕ) → Option S × Option Error
  put s key none = (some s, some serialization_failed)
  put s key (some b) = written (some s) (cache.set key b s)

  -- `Set`, `Get`, `List`, `Delete`, `Clear`, `Length` with whether the context is done; the store is
  -- `none` where the cache could not be made
  unfoldable pub set : Bool → Option S → Pdu → ℕ → Option S × Option Error
  unfolding serialize
  set is_done none p time_sent = (none, some (if is_done then canceled else not_initialized))
  set is_done (some s) p time_sent =
      if is_done
      then (some s, some canceled)
      else put s (key_of (codec.sequence_number p)) (serialize p time_sent)

  abbrev pub found : Option (List ℕ) → Option (Request Pdu)
  unfolding deserialize
  found none = none
  found (some b_request) = deserialize b_request

  -- the request, or `none` for `false`
  unfoldable pub get : Bool → Option S → ℤ → Option (Request Pdu)
  unfolding deserialize
  get is_done none n = none
  get is_done (some s) n = if is_done then none else found (cache.get (key_of n) s)

  -- an entry that cannot be read gives an empty request
  abbrev pub or_empty : Option (Request Pdu) → Request Pdu
  or_empty none = no_request
  or_empty (some r) = r

  -- the loop of `List`, over at its first error
  unfoldable pub collect : List (Option (List ℕ)) → List (Request Pdu)
  unfolding deserialize
  collect [] = []
  collect (none ∷ es) = []
  collect (some b ∷ es) = or_empty (deserialize b) ∷ collect es

  unfoldable pub list : Bool → Option S → List (Request Pdu)
  unfolding collect
  list is_done none = []
  list is_done (some s) = if is_done then [] else collect (cache.entries s)

  unfoldable pub delete : Bool → Option S → ℤ → Option S × Option Error
  delete is_done none n = (none, some (if is_done then canceled else not_initialized))
  delete is_done (some s) n =
      if is_done then (some s, some canceled) else written (some s) (cache.delete (key_of n) s)

  unfoldable pub clear : Bool → Option S → Option S × Option Error
  clear is_done none = (none, some (if is_done then canceled else not_initialized))
  clear is_done (some s) =
      if is_done then (some s, some canceled) else written (some s) (cache.reset s)

  unfoldable pub count : Bool → Option S → ℕ × Option Error
  count is_done none = (0, some (if is_done then canceled else not_initialized))
  count is_done (some s) = if is_done then (0, some canceled) else (cache.len s, none)

  unfoldable pub close : Option S → Bool
  close none = true
  close (some s) = cache.close s

-- What bigcache promises while it evicts nothing, and that gob and the PDUs are read back.
pub record IsFaithful {S Pdu : Type 0} (cache : BigCache S) (codec : Codec Pdu) : Type 0 where
  pub get_set :
      (k j v : List ℕ) (s t : S)
      → cache.set k v s ≡ some t
      → cache.get j t ≡ (if text_eq k j then some v else cache.get j s)
  pub get_delete :
      (k j : List ℕ) (s t : S)
      → cache.delete k s ≡ some t
      → cache.get j t ≡ (if text_eq k j then none else cache.get j s)
  pub get_reset : (k : List ℕ) (s t : S) → cache.reset s ≡ some t → cache.get k t ≡ none
  pub parse_marshal : (p : Pdu) → codec.parse (codec.marshal p) ≡ some p
  pub gob_round :
      (x : List ℕ × ℕ) (b : List ℕ) → codec.gob_encode x ≡ some b → codec.gob_decode b ≡ some x
  pub is_int64 : (p : Pdu) → IsInt64 (codec.sequence_number p)
