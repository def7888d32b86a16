-- ===== src/Db/Bolt/Laws.antt =====
-- What the wrapper of db/bbolt relies on.
use arcella_lib.Prelude.Text.{text_eq}
use arcella_lib.Db.Bolt.{Bolt}
use arcella_lib.Db.Bolt.Store.{Store}
use arcella_lib.Prelude.{◌||◌, ◌&&◌, ◌≡◌, if◌then◌else◌, List, some, none, not, ℕ}

module _ {Db : Type 0} (bolt : Bolt Db) where
  abbrev pub view : Db → Store
  view db = record { has = λ c. bolt.bucket c db; at = λ c k. bolt.get c k db }

  -- What the documentation of bbolt says of the calls that return no error; a bucket that is not there
  -- holds nothing.
  pub record IsBolt : Type 0 where
    pub create_has :
        (b c : List ℕ) (db db' : Db)
        → bolt.create_bucket_if_not_exists b db ≡ some db'
        → bolt.bucket c db' ≡ text_eq b c || bolt.bucket c db
    pub create_at :
        (b c k : List ℕ) (db db' : Db)
        → bolt.create_bucket_if_not_exists b db ≡ some db'
        → bolt.get c k db' ≡ bolt.get c k db
    pub drop_has :
        (b c : List ℕ) (db db' : Db)
        → bolt.delete_bucket b db ≡ some db'
        → bolt.bucket c db' ≡ not (text_eq b c) && bolt.bucket c db
    pub drop_at :
        (b c k : List ℕ) (db db' : Db)
        → bolt.delete_bucket b db ≡ some db'
        → bolt.get c k db' ≡ (if text_eq b c then none else bolt.get c k db)
    pub put_has :
        (b key value c : List ℕ) (db db' : Db)
        → bolt.put b key value db ≡ some db'
        → bolt.bucket c db' ≡ bolt.bucket c db
    pub put_at :
        (b key value c k : List ℕ) (db db' : Db)
        → bolt.put b key value db ≡ some db'
        → bolt.get c k db' ≡ (if text_eq b c && text_eq key k then some value else bolt.get c k db)
    pub delete_has :
        (b key c : List ℕ) (db db' : Db)
        → bolt.delete b key db ≡ some db'
        → bolt.bucket c db' ≡ bolt.bucket c db
    pub delete_at :
        (b key c k : List ℕ) (db db' : Db)
        → bolt.delete b key db ≡ some db'
        → bolt.get c k db' ≡ (if text_eq b c && text_eq key k then none else bolt.get c k db)
    pub sequence_has :
        (b c : List ℕ) (id : ℕ) (db db' : Db)
        → bolt.next_sequence b db ≡ some (id, db')
        → bolt.bucket c db' ≡ bolt.bucket c db
    pub sequence_at :
        (b c k : List ℕ) (id : ℕ) (db db' : Db)
        → bolt.next_sequence b db ≡ some (id, db')
        → bolt.get c k db' ≡ bolt.get c k db
