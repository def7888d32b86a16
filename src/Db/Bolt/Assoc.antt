-- ===== src/Db/Bolt/Assoc.antt =====
-- Association lists do what the wrapper of db/bbolt relies on; the tests run on them.
use arcella_lib.Prelude.Text.{text_eq, text_eq_iff}
use arcella_lib.Prelude.Dict
use arcella_lib.Prelude.Dict.{Dict}
use arcella_lib.Web.Client.{text_eq_instance}
use arcella_lib.Db.Bolt.{Bolt}
use arcella_lib.Db.Bolt.Keys.{less}
use arcella_lib.Db.Bolt.Laws.{IsBolt}
use arcella_lib.Db.Bolt.Log.{IsOrdered, AllLess, AllLess, IsOrdered, Entries}
use arcella_lib.Prelude.{
  ◌∙◌, ◌||◌, ◌&&◌, ◌++◌, not, ap, sym, refl, ◌∷◌, ◌≡◌, ◌+◌, if◌then◌else◌, arith, [], List, some,
  none, Option, false, true, Bool, ℕ,
}

pub record Box : Type 0 where
  pub seq : ℕ
  pub items : Dict (List ℕ) (List ℕ)

abbrev pub Boxes : Type 0
Boxes = Dict (List ℕ) Box

abbrev pub is_some {ℓ} : {A : Type ℓ} → Option A → Bool
is_some none = false
is_some (some a) = true

abbrev pub items_of : Option Box → Dict (List ℕ) (List ℕ)
items_of none = []
items_of (some box) = box.items

abbrev pub seq_of : Option Box → ℕ
seq_of none = 0
seq_of (some box) = box.seq

abbrev pub listed : Dict (List ℕ) (List ℕ) → Entries
listed [] = []
listed ((k, v) ∷ m) = (k, some v) ∷ listed m

abbrev pub created : Option Box → List ℕ → Boxes → Boxes
created none b db = Dict.insert b (record { seq = 0; items = [] }) db
created (some box) b db = db

abbrev pub dropped : Option Box → List ℕ → Boxes → Option Boxes
dropped none b db = none
dropped (some box) b db = some (Dict.remove b db)

-- the bucket with other items
abbrev pub changed :
    (Dict (List ℕ) (List ℕ) → Dict (List ℕ) (List ℕ)) → Option Box → List ℕ → Boxes → Option Boxes
changed f none b db = none
changed f (some box) b db = some (Dict.insert b (record box { items = f box.items }) db)

abbrev pub counted : Option Box → List ℕ → Boxes → Option (ℕ × Boxes)
counted none b db = none
counted (some box) b db = some (box.seq + 1, Dict.insert b (record box { seq = box.seq + 1 }) db)

abbrev pub assoc : Bolt Boxes
assoc = record {
  bucket = λ b db. is_some (Dict.lookup b db);
  create_bucket_if_not_exists = λ b db. some (created (Dict.lookup b db) b db);
  delete_bucket = λ b db. dropped (Dict.lookup b db) b db;
  get = λ b k db. Dict.lookup k (items_of (Dict.lookup b db));
  put = λ b k v db. changed (Dict.insert k v) (Dict.lookup b db) b db;
  delete = λ b k db. changed (Dict.remove k) (Dict.lookup b db) b db;
  next_sequence = λ b db. counted (Dict.lookup b db) b db;
  entries = λ b db. listed (items_of (Dict.lookup b db));
  commits = λ db. true;
}

-- what `changed` leaves in each bucket
changed_lem :
    (f : Dict (List ℕ) (List ℕ) → Dict (List ℕ) (List ℕ)) (o : Option Box) (b c : List ℕ)
    (db db' : Boxes)
    → Dict.lookup b db ≡ o
    → changed f o b db ≡ some db'
    → (is_some (Dict.lookup c db') ≡ is_some (Dict.lookup c db))
      × (seq_of (Dict.lookup c db') ≡ seq_of (Dict.lookup c db))
      × (items_of (Dict.lookup c db')
          ≡ (if text_eq b c then f (items_of (Dict.lookup c db)) else items_of (Dict.lookup c db)))
changed_lem f none b c db db' e r = absurd (ground arith)
changed_lem f (some box) b c db db' e r =
    ground (arith, Dict.lookup-insert b c (record box { items = f box.items }) db, text_eq_iff b c)

counted_lem :
    (o : Option Box) (b c : List ℕ) (id : ℕ) (db db' : Boxes)
    → Dict.lookup b db ≡ o
    → counted o b db ≡ some (id, db')
    → (is_some (Dict.lookup c db') ≡ is_some (Dict.lookup c db))
      × (id ≡ seq_of (Dict.lookup b db) + 1)
      × (seq_of (Dict.lookup b db') ≡ id)
      × (items_of (Dict.lookup c db') ≡ items_of (Dict.lookup c db))
counted_lem none b c id db db' e r = absurd (ground arith)
counted_lem (some box) b c id db db' e r = ground (
  arith,
  Dict.lookup-insert b c (record box { seq = box.seq + 1 }) db,
  Dict.lookup-insert b b (record box { seq = box.seq + 1 }) db,
  text_eq_iff b c,
  text_eq_iff b b,
)

created_lem :
    (o : Option Box) (b c k : List ℕ) (db : Boxes)
    → Dict.lookup b db ≡ o
    → (is_some (Dict.lookup c (created o b db)) ≡ text_eq b c || is_some (Dict.lookup c db))
      × (Dict.lookup k (items_of (Dict.lookup c (created o b db)))
          ≡ Dict.lookup k (items_of (Dict.lookup c db)))
unfolding Dict.lookup
created_lem none b c k db e =
    ground (arith, Dict.lookup-insert b c (record { seq = 0; items = [] }) db, text_eq_iff b c)
created_lem (some box) b c k db e = ground (arith, text_eq_iff b c)

dropped_lem :
    (o : Option Box) (b c k : List ℕ) (db db' : Boxes)
    → dropped o b db ≡ some db'
    → (is_some (Dict.lookup c db') ≡ not (text_eq b c) && is_some (Dict.lookup c db))
      × (Dict.lookup k (items_of (Dict.lookup c db'))
          ≡ (if text_eq b c then none else Dict.lookup k (items_of (Dict.lookup c db))))
unfolding Dict.lookup
dropped_lem none b c k db db' r = absurd (ground arith)
dropped_lem (some box) b c k db db' r = ground (arith, Dict.lookup-remove b c db, text_eq_iff b c)

less_irreflexive : (s : List ℕ) → less s s ≡ false
unfolding less
less_irreflexive [] = refl
less_irreflexive (x ∷ s) = ground (arith, less_irreflexive s)

listed-insert :
    (m : Dict (List ℕ) (List ℕ)) (key value : List ℕ)
    → AllLess (listed m) key
    → listed (Dict.insert key value m) ≡ listed m ++ ((key, some value) ∷ [])
unfolding Dict.insert
listed-insert [] key value h = refl
listed-insert ((k, v) ∷ m) key value (lt, h) =
    ground (arith, listed-insert m key value h, text_eq_iff k key, less_irreflexive key)

text_eq_self : (s : List ℕ) → text_eq s s ≡ true
text_eq_self s = (text_eq_iff s s).1 refl

abbrev after_has : Option Boxes → List ℕ → Bool
after_has none c = false
after_has (some db) c = is_some (Dict.lookup c db)

abbrev after_at : Option Boxes → List ℕ → List ℕ → Option (List ℕ)
after_at none c k = none
after_at (some db) c k = Dict.lookup k (items_of (Dict.lookup c db))

pub assoc-IsBolt : IsBolt assoc
assoc-IsBolt = record {
  create_has = λ b c db db' e.
      ap (λ (o : Option Boxes). after_has o c) (sym e)
      ∙ (created_lem (Dict.lookup b db) b c [] db refl).0;
  create_at = λ b c k db db' e.
      ap (λ (o : Option Boxes). after_at o c k) (sym e)
      ∙ (created_lem (Dict.lookup b db) b c k db refl).1;
  drop_has = λ b c db db' e. (dropped_lem (Dict.lookup b db) b c [] db db' e).0;
  drop_at = λ b c k db db' e. (dropped_lem (Dict.lookup b db) b c k db db' e).1;
  put_has = λ b key value c db db' e.
      (changed_lem (Dict.insert key value) (Dict.lookup b db) b c db db' refl e).0;
  put_at = λ b key value c k db db' e.
      let h = changed_lem (Dict.insert key value) (Dict.lookup b db) b c db db' refl e in
      ground (arith, Dict.lookup-insert key k value (items_of (Dict.lookup c db)));
  delete_has =
      λ b key c db db' e. (changed_lem (Dict.remove key) (Dict.lookup b db) b c db db' refl e).0;
  delete_at = λ b key c k db db' e.
      let h = changed_lem (Dict.remove key) (Dict.lookup b db) b c db db' refl e in
      ground (arith, Dict.lookup-remove key k (items_of (Dict.lookup c db)));
  sequence_has = λ b c id db db' e. (counted_lem (Dict.lookup b db) b c id db db' refl e).0;
  sequence_at = λ b c k id db db' e.
      ap (Dict.lookup k) (counted_lem (Dict.lookup b db) b c id db db' refl e).3;
}

pub assoc-IsOrdered : IsOrdered assoc
assoc-IsOrdered = record {
  sequence = λ b db. seq_of (Dict.lookup b db);
  put_last = λ b key value db db' h e.
      let (_, _, same) = changed_lem (Dict.insert key value) (Dict.lookup b db) b b db db' refl e in
      ap listed same
      ∙ rw (text_eq_self b) (listed-insert (items_of (Dict.lookup b db)) key value h);
  put_sequence = λ b key value db db' e.
      (changed_lem (Dict.insert key value) (Dict.lookup b db) b b db db' refl e).1;
  next_is = λ b id db db' fits e.
      let (_, is, now, _) = counted_lem (Dict.lookup b db) b b id db db' refl e in (is, now);
  next_entries = λ b id db db' e. ap listed (counted_lem (Dict.lookup b db) b b id db db' refl e).3;
}

pub sequence_new :
    (b : List ℕ) → assoc-IsOrdered.sequence b ((b, record { seq = 0; items = [] }) ∷ []) ≡ 0
unfolding assoc-IsOrdered Dict.lookup
sequence_new b = rw (text_eq_self b) refl
