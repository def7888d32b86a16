-- ===== src/Db/Bolt.antt =====
-- db/bbolt/etcdBBolt.go. The database of go.etcd.io/bbolt is a parameter: what its transactions do to
-- the state of a file.
pub mod Keys
pub mod Store
pub mod Laws
pub mod Updates
pub mod Refine
pub mod Runs
pub mod Log
mod Assoc
mod Tests
use arcella_lib.Db.Bolt.Keys.{itob}
use arcella_lib.Prelude.{◌∷◌, if◌then◌else◌, [], List, some, none, Option, Bool, ℕ}

-- The calls of bbolt that the wrapper makes, bucket first; `none` is an error of theirs. A bucket's
-- entries come in the order of its cursor, with `none` for the value of a bucket inside it.
pub record Bolt (Db : Type 0) : Type 0 where
  pub bucket : List ℕ → Db → Bool
  pub create_bucket_if_not_exists : List ℕ → Db → Option Db
  pub delete_bucket : List ℕ → Db → Option Db
  pub get : List ℕ → List ℕ → Db → Option (List ℕ)
  pub put : List ℕ → List ℕ → List ℕ → Db → Option Db
  pub delete : List ℕ → List ℕ → Db → Option Db
  pub next_sequence : List ℕ → Db → Option (ℕ × Db)
  pub entries : List ℕ → Db → List (List ℕ × Option (List ℕ))
  pub commits : Db → Bool

pub data Result : Type 0 where
  ok panics already_started bucket_not_found bolt_error : Result

-- `KV`
pub record Kv : Type 0 where
  pub key : List ℕ
  pub value : List ℕ

-- `BBolt` without its settings: the open database, if there is one
pub record BBolt (Db : Type 0) : Type 0 where
  pub db : Option Db

-- what the function of a transaction returns: the changed state, or an error
pub data Tx (Db : Type 0) : Type 0 where
  done : Db → Tx Db
  failed : Result → Tx Db

-- a key that is not there gives an empty value, and no error
abbrev pub or_empty : Option (List ℕ) → List ℕ
or_empty none = []
or_empty (some v) = v

-- the loop of `GetAll`, which passes over empty values and over buckets
abbrev pub copied : List (List ℕ × Option (List ℕ)) → List Kv
copied [] = []
copied ((k, none) ∷ es) = copied es
copied ((k, some []) ∷ es) = copied es
copied ((k, some (x ∷ v)) ∷ es) = record { key = k; value = x ∷ v } ∷ copied es

module _ {Db : Type 0} where
  -- `Start`, with what `bolt.Open` returns
  unfoldable pub start : BBolt Db → Option Db → BBolt Db × Result
  start bb opened = elim bb.db [
    | some db ↦ (bb, already_started)
    | none ↦ elim opened [
      | none ↦ (record { db = none }, bolt_error)
      | some db ↦ (record { db = some db }, ok)
    ]
  ]

  -- `Stop`, with whether `Close` succeeds
  unfoldable pub stop : BBolt Db → Bool → BBolt Db × Result
  stop bb closes = elim bb.db [
    | none ↦ (bb, ok)
    | some db ↦ (record { db = none }, if closes then ok else bolt_error)
  ]

  abbrev pub result : Option Db → Tx Db
  result none = failed bolt_error
  result (some db) = done db

  -- the number that `AddWithSeqID` returns beside its error
  abbrev pub number_of : Option (ℕ × Db) → ℕ
  number_of none = 0
  number_of (some (id, db)) = id

module _ {Db : Type 0} (bolt : Bolt Db) where
  abbrev pub settle : BBolt Db → Tx Db → BBolt Db × Result
  settle bb (failed e) = (bb, e)
  settle bb (done db) = if bolt.commits db then (record { db = some db }, ok) else (bb, bolt_error)

  -- `bb.db.Update` and `bb.db.Batch`, which roll back on an error; on a nil database they panic
  unfoldable pub update : (Db → Tx Db) → BBolt Db → BBolt Db × Result
  update body bb = elim bb.db [ none ↦ (bb, panics) | some db ↦ settle bb (body db) ]

  -- `if b := tx.Bucket(bucket); b != nil`
  abbrev pub in_bucket : List ℕ → (Db → Tx Db) → Db → Tx Db
  in_bucket b body db = if bolt.bucket b db then body db else failed bucket_not_found

  unfoldable pub create_bucket : BBolt Db → List ℕ → BBolt Db × Result
  unfolding update
  create_bucket bb b = update (λ db. result (bolt.create_bucket_if_not_exists b db)) bb

  unfoldable pub delete_bucket : BBolt Db → List ℕ → BBolt Db × Result
  unfolding update
  delete_bucket bb b = update (λ db. result (bolt.delete_bucket b db)) bb

  unfoldable pub del_by_key : BBolt Db → List ℕ → List ℕ → BBolt Db × Result
  unfolding update
  del_by_key bb b key = update (in_bucket b (λ db. result (bolt.delete b key db))) bb

  -- the loops over keys and items, which stop at the first error
  abbrev pub delete_all : List ℕ → List (List ℕ) → Option Db → Tx Db
  delete_all b keys none = failed bolt_error
  delete_all b [] (some db) = done db
  delete_all b (key ∷ keys) (some db) = delete_all b keys (bolt.delete b key db)

  abbrev pub put_all : List ℕ → List Kv → Option Db → Tx Db
  put_all b items none = failed bolt_error
  put_all b [] (some db) = done db
  put_all b (item ∷ items) (some db) = put_all b items (bolt.put b item.key item.value db)

  unfoldable pub batch_del_by_key : BBolt Db → List ℕ → List (List ℕ) → BBolt Db × Result
  unfolding update
  batch_del_by_key bb b keys = update (in_bucket b (λ db. delete_all b keys (some db))) bb

  unfoldable pub batch_put : BBolt Db → List ℕ → List Kv → BBolt Db × Result
  unfolding update
  batch_put bb b items = update (in_bucket b (λ db. put_all b items (some db))) bb

  unfoldable pub put : BBolt Db → List ℕ → List ℕ → List ℕ → BBolt Db × Result
  unfolding update
  put bb b key value = update (in_bucket b (λ db. result (bolt.put b key value db))) bb

  unfoldable pub get : BBolt Db → List ℕ → List ℕ → List ℕ × Result
  get bb b key = elim bb.db [
    | none ↦ ([], panics)
    | some db ↦
        if bolt.bucket b db then (or_empty (bolt.get b key db), ok) else ([], bucket_not_found)
  ]

  unfoldable pub get_all : BBolt Db → List ℕ → List Kv × Result
  get_all bb b = elim bb.db [
    | none ↦ ([], panics)
    | some db ↦
        if bolt.bucket b db then (copied (bolt.entries b db), ok) else ([], bucket_not_found)
  ]

  abbrev pub put_numbered : List ℕ → List ℕ → Option (ℕ × Db) → Tx Db
  unfolding itob
  put_numbered b value none = failed bolt_error
  put_numbered b value (some (id, db)) = result (bolt.put b (itob id) value db)

  unfoldable pub add_with_seq : BBolt Db → List ℕ → List ℕ → BBolt Db × Result
  unfolding update
  add_with_seq bb b value =
      update (in_bucket b (λ db. put_numbered b value (bolt.next_sequence b db))) bb

  abbrev pub new_id : Option Db → List ℕ → ℕ
  new_id none b = 0
  new_id (some db) b = if bolt.bucket b db then number_of (bolt.next_sequence b db) else 0

  unfoldable pub add_with_seq_id : BBolt Db → List ℕ → List ℕ → BBolt Db × ℕ × Result
  unfolding add_with_seq
  add_with_seq_id bb b value = let r = add_with_seq bb b value in (r.0, new_id bb.db b, r.1)
