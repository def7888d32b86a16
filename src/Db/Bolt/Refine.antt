-- ===== src/Db/Bolt/Refine.antt =====
-- db/bbolt/etcdBBolt.go: the wrapper as a map of buckets to maps.
use mathlib.Core.Path.{subst, fun_ext, ap₂}
use arcella_lib.Db.Bolt.Keys.{itob}
use arcella_lib.Db.Bolt.Store
use arcella_lib.Db.Bolt.Store.{
  Store, Call, creates, drops, deletes, deletes_all, puts, puts_all, adds, apply,
}
use arcella_lib.Db.Bolt.Updates.{Leads, Atomic, result-Leads, in_bucket-Leads, update-Atomic}
use arcella_lib.Db.Bolt.Laws.{IsBolt, view}
use arcella_lib.Db.Bolt.{
  Bolt, BBolt, Tx, done, failed, Result, Kv, update, result, in_bucket, create_bucket,
  delete_bucket, del_by_key, batch_del_by_key, batch_put, put, add_with_seq_id, add_with_seq,
  delete_all, put_all, put_numbered, new_id, number_of,
}
use arcella_lib.Prelude.{
  true, sym, ◌∙◌, ap, Option-cases, inr, inl, refl, ◌∷◌, ◌≡◌, if◌then◌else◌, [], List, some, none,
  Option, Bool, ℕ,
}

store_ext :
    (s t : Store)
    → ((c : List ℕ) → s.has c ≡ t.has c)
    → ((c k : List ℕ) → s.at c k ≡ t.at c k)
    → s ≡ t
store_ext s t h a =
    ap₂ (λ (p : List ℕ → Bool) (q : List ℕ → List ℕ → Option (List ℕ)). record { has = p; at = q })
      (fun_ext h) (fun_ext λ c. fun_ext (a c))

module _ {Db : Type 0} (bolt : Bolt Db) where
  unfoldable pub call : Call → BBolt Db → BBolt Db × ℕ × Result
  unfolding create_bucket delete_bucket del_by_key batch_del_by_key put batch_put add_with_seq_id
  call (creates b) bb = let r = create_bucket bolt bb b in (r.0, 0, r.1)
  call (drops b) bb = let r = delete_bucket bolt bb b in (r.0, 0, r.1)
  call (deletes b key) bb = let r = del_by_key bolt bb b key in (r.0, 0, r.1)
  call (deletes_all b keys) bb = let r = batch_del_by_key bolt bb b keys in (r.0, 0, r.1)
  call (puts b key value) bb = let r = put bolt bb b key value in (r.0, 0, r.1)
  call (puts_all b items) bb = let r = batch_put bolt bb b items in (r.0, 0, r.1)
  call (adds b value) bb = add_with_seq_id bolt bb b value

module _ {Db : Type 0} (bolt : Bolt Db) (h : IsBolt bolt) where
  view-create :
      (b : List ℕ) (db db' : Db)
      → bolt.create_bucket_if_not_exists b db ≡ some db'
      → view bolt db' ≡ Store.create b (view bolt db)
  view-create b db db' e =
      store_ext _ _ (λ c. h.create_has b c db db' e) (λ c k. h.create_at b c k db db' e)

  view-drop_bucket :
      (b : List ℕ) (db db' : Db)
      → bolt.delete_bucket b db ≡ some db'
      → view bolt db' ≡ Store.drop_bucket b (view bolt db)
  view-drop_bucket b db db' e =
      store_ext _ _ (λ c. h.drop_has b c db db' e) (λ c k. h.drop_at b c k db db' e)

  view-put :
      (b key value : List ℕ) (db db' : Db)
      → bolt.put b key value db ≡ some db'
      → view bolt db' ≡ Store.write b key (some value) (view bolt db)
  view-put b key value db db' e =
      store_ext _ _ (λ c. h.put_has b key value c db db' e)
        (λ c k. h.put_at b key value c k db db' e)

  view-delete :
      (b key : List ℕ) (db db' : Db)
      → bolt.delete b key db ≡ some db'
      → view bolt db' ≡ Store.write b key none (view bolt db)
  view-delete b key db db' e =
      store_ext _ _ (λ c. h.delete_has b key c db db' e) (λ c k. h.delete_at b key c k db db' e)

  view-next_sequence :
      (b : List ℕ) (id : ℕ) (db db' : Db)
      → bolt.next_sequence b db ≡ some (id, db')
      → view bolt db' ≡ view bolt db
  view-next_sequence b id db db' e =
      store_ext _ _ (λ c. h.sequence_has b c id db db' e) (λ c k. h.sequence_at b c k id db db' e)

  -- A transaction does what the map is to become, if it returns no error.
  abbrev pub Becomes : (Store → Store) → Db → Db → Type 0
  Becomes f db db' = view bolt db' ≡ f (view bolt db)

  abbrev Does : (Store → Store) → Db → Tx Db → Type 0
  Does f db t = Leads bolt (Becomes f db) t

  result-Does :
      (f : Store → Store) (db : Db) (o : Option Db)
      → ((db' : Db) → o ≡ some db' → view bolt db' ≡ f (view bolt db))
      → Does f db (result o)
  result-Does f db o k = result-Leads bolt (Becomes f db) o k

  -- a step before
  compose-Does :
      (f g : Store → Store) (db db' : Db) (t : Tx Db)
      → view bolt db' ≡ g (view bolt db)
      → Does f db' t
      → Does (λ s. f (g s)) db t
  compose-Does f g db db' (failed e) v d = d
  compose-Does f g db db' (done last) v d = d ∙ ap f v

  put_all-Does :
      (b : List ℕ) (items : List Kv) (db : Db)
      → Does (Store.put_items b items) db (put_all bolt b items (some db))
  put_all-Does b [] db = refl
  put_all-Does b (item ∷ items) db = elim (Option-cases (bolt.put b item.key item.value db)) [
    | inl lost ↦ rw lost (λ e. cc)
    | inr (db', e) ↦ rw e (
        compose-Does (Store.put_items b items) (Store.write b item.key (some item.value)) db db' _
          (view-put b item.key item.value db db' e) (put_all-Does b items db'))
  ]

  delete_all-Does :
      (b : List ℕ) (keys : List (List ℕ)) (db : Db)
      → Does (Store.delete_keys b keys) db (delete_all bolt b keys (some db))
  delete_all-Does b [] db = refl
  delete_all-Does b (key ∷ keys) db = elim (Option-cases (bolt.delete b key db)) [
    | inl lost ↦ rw lost (λ e. cc)
    | inr (db', e) ↦ rw e (
        compose-Does (Store.delete_keys b keys) (Store.write b key none) db db' _
          (view-delete b key db db' e) (delete_all-Does b keys db'))
  ]

  put_numbered-Does :
      (b value : List ℕ) (db : Db) (o : Option (ℕ × Db))
      → bolt.next_sequence b db ≡ o
      → Does (Store.write b (itob (number_of o)) (some value)) db (put_numbered bolt b value o)
  unfolding put_numbered
  put_numbered-Does b value db none e = λ e. cc
  put_numbered-Does b value db (some (id, db')) e =
      compose-Does (Store.write b (itob id) (some value)) (λ s. s) db db'
        (result (bolt.put b (itob id) value db')) (view-next_sequence b id db db' e)
        (result-Does (Store.write b (itob id) (some value)) db' (bolt.put b (itob id) value db')
          (view-put b (itob id) value db'))

  -- the number drawn in a bucket that is there
  drawn :
      (bb : BBolt Db) (db : Db) (b : List ℕ)
      → bb.db ≡ some db
      → bolt.bucket b db ≡ true
      → new_id bolt bb.db b ≡ number_of (bolt.next_sequence b db)
  drawn bb db b e found =
      ap (λ (o : Option Db). new_id bolt o b) e
      ∙ ap (λ (t : Bool). if t then number_of (bolt.next_sequence b db) else 0) found

  add-Atomic :
      (b value : List ℕ) (bb : BBolt Db) (db : Db)
      → bb.db ≡ some db
      → let f = Store.write b (itob (new_id bolt bb.db b)) (some value) in
        Atomic bolt (Becomes f db) bb (add_with_seq bolt bb b value)
  unfolding add_with_seq
  add-Atomic b value bb db e =
      let f = Store.write b (itob (new_id bolt bb.db b)) (some value) in
      let numbered = λ (now : Db). put_numbered bolt b value (bolt.next_sequence b now) in
      update-Atomic bolt (Becomes f db) (in_bucket bolt b numbered) bb db e (
        in_bucket-Leads bolt (Becomes f db) b numbered db λ found.
          subst (λ (n : ℕ). Does (Store.write b (itob n) (some value)) db (numbered db))
            (sym (drawn bb db b e found))
            (put_numbered-Does b value db (bolt.next_sequence b db) refl))

  -- a call without a bucket to look up, and one in a bucket
  top-Atomic :
      (f : Store → Store) (body : Db → Tx Db) (bb : BBolt Db) (db : Db)
      → bb.db ≡ some db
      → Does f db (body db)
      → Atomic bolt (Becomes f db) bb (update bolt body bb)
  top-Atomic f body bb db e d = update-Atomic bolt (Becomes f db) body bb db e d

  inner-Atomic :
      (f : Store → Store) (b : List ℕ) (body : Db → Tx Db) (bb : BBolt Db) (db : Db)
      → bb.db ≡ some db
      → Does f db (body db)
      → Atomic bolt (Becomes f db) bb (update bolt (in_bucket bolt b body) bb)
  inner-Atomic f b body bb db e d =
      top-Atomic f (in_bucket bolt b body) bb db e
        (in_bucket-Leads bolt (Becomes f db) b body db (λ found. d))

  -- Each call with the database open is atomic: either it returns no error, and the map becomes what
  -- the call says, with the number that is drawn for it, or it returns an error and changes nothing.
  pub call-Atomic :
      (c : Call) (bb : BBolt Db) (db : Db)
      → bb.db ≡ some db
      → let (bb', id, r) = call bolt c bb in Atomic bolt (Becomes (apply c id) db) bb (bb', r)
  unfolding apply call create_bucket delete_bucket del_by_key batch_del_by_key put batch_put
      add_with_seq_id
  call-Atomic (creates b) bb db e =
      top-Atomic (Store.create b) _ bb db e
        (result-Does (Store.create b) db (bolt.create_bucket_if_not_exists b db) (view-create b db))
  call-Atomic (drops b) bb db e =
      top-Atomic (Store.drop_bucket b) _ bb db e
        (result-Does (Store.drop_bucket b) db (bolt.delete_bucket b db) (view-drop_bucket b db))
  call-Atomic (deletes b key) bb db e =
      let f = Store.write b key none in
      inner-Atomic f b (λ now. result (bolt.delete b key now)) bb db e
        (result-Does f db (bolt.delete b key db) (view-delete b key db))
  call-Atomic (deletes_all b keys) bb db e =
      inner-Atomic (Store.delete_keys b keys) b (λ now. delete_all bolt b keys (some now)) bb db e
        (delete_all-Does b keys db)
  call-Atomic (puts b key value) bb db e =
      let f = Store.write b key (some value) in
      inner-Atomic f b (λ now. result (bolt.put b key value now)) bb db e
        (result-Does f db (bolt.put b key value db) (view-put b key value db))
  call-Atomic (puts_all b items) bb db e =
      inner-Atomic (Store.put_items b items) b (λ now. put_all bolt b items (some now)) bb db e
        (put_all-Does b items db)
  call-Atomic (adds b value) bb db e = add-Atomic b value bb db e
