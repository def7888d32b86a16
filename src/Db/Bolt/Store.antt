-- ===== src/Db/Bolt/Store.antt =====
-- db/bbolt/etcdBBolt.go: the database as a map of buckets to maps.
use arcella_lib.Prelude.Text.{text_eq}
use arcella_lib.Db.Bolt.{Kv}
use arcella_lib.Db.Bolt.Keys.{itob}
use arcella_lib.Prelude.{◌||◌, ◌&&◌, ◌∷◌, if◌then◌else◌, [], List, some, none, Option, not, Bool, ℕ}

-- What a client of the database sees: which buckets there are, and what they hold.
pub record Store : Type 0 where
  pub has : List ℕ → Bool
  pub at : List ℕ → List ℕ → Option (List ℕ)

abbrev pub create : List ℕ → Store → Store
create b s = record s { has = λ c. text_eq b c || s.has c }

abbrev pub drop_bucket : List ℕ → Store → Store
drop_bucket b s = record {
  has = λ c. not (text_eq b c) && s.has c;
  at = λ c k. if text_eq b c then none else s.at c k;
}

abbrev pub write : List ℕ → List ℕ → Option (List ℕ) → Store → Store
write b key value s = record s {
  at = λ c k. if text_eq b c && text_eq key k then value else s.at c k;
}

abbrev pub delete_keys : List ℕ → List (List ℕ) → Store → Store
delete_keys b [] s = s
delete_keys b (key ∷ keys) s = delete_keys b keys (write b key none s)

abbrev pub put_items : List ℕ → List Kv → Store → Store
put_items b [] s = s
put_items b (item ∷ items) s = put_items b items (write b item.key (some item.value) s)

-- The calls that write.
pub data Call : Type 0 where
  creates : List ℕ → Call
  drops : List ℕ → Call
  deletes : List ℕ → List ℕ → Call
  deletes_all : List ℕ → List (List ℕ) → Call
  puts : List ℕ → List ℕ → List ℕ → Call
  puts_all : List ℕ → List Kv → Call
  adds : List ℕ → List ℕ → Call

-- What a call does to the map, with the number that was drawn for it.
unfoldable pub apply : Call → ℕ → Store → Store
unfolding itob
apply (creates b) id s = create b s
apply (drops b) id s = drop_bucket b s
apply (deletes b key) id s = write b key none s
apply (deletes_all b keys) id s = delete_keys b keys s
apply (puts b key value) id s = write b key (some value) s
apply (puts_all b items) id s = put_items b items s
apply (adds b value) id s = write b (itob id) (some value) s
