-- ===== src/Db/Bolt/Updates.antt =====
-- db/bbolt/etcdBBolt.go: what a transaction leads to, from what its function leads to.
use mathlib.Core.Path.{subst}
use arcella_lib.Db.Bolt.{
  Bolt, BBolt, Tx, done, failed, Result, ok, panics, update, settle, result, in_bucket,
}
use arcella_lib.Prelude.{
  ◌⊎◌, ◌≢◌, ◌≡◌, Bool-cases, inr, inl, List, some, none, Option, true, sym, refl, ℕ,
}

module _ {Db : Type 0} (bolt : Bolt Db) (P : Db → Type 0) where
  -- the function returns a state as wanted, or an error
  abbrev pub Leads : Tx Db → Type 0
  Leads (failed e) = e ≢ ok
  Leads (done db) = P db

  -- The call returns no error and the database is in a state as wanted, or it returns an error and
  -- leaves the wrapper as it was.
  abbrev pub Atomic : BBolt Db → BBolt Db × Result → Type 0
  Atomic bb (bb', r) =
      ((r ≡ ok) × ((db : Db) × (bb'.db ≡ some db) × P db)) ⊎ ((r ≢ ok) × (bb' ≡ bb))

  pub result-Leads : (o : Option Db) → ((db : Db) → o ≡ some db → P db) → Leads (result o)
  result-Leads none k = λ e. cc
  result-Leads (some db) k = k db refl

  pub in_bucket-Leads :
      (b : List ℕ) (body : Db → Tx Db) (db : Db)
      → (bolt.bucket b db ≡ true → Leads (body db))
      → Leads (in_bucket bolt b body db)
  in_bucket-Leads b body db k = elim (Bool-cases (bolt.bucket b db)) [
    | inl found ↦ rw found (k found)
    | inr missing ↦ rw missing (λ e. cc)
  ]

  settle-Atomic : (bb : BBolt Db) (t : Tx Db) → Leads t → Atomic bb (settle bolt bb t)
  settle-Atomic bb (failed e) d = inr (d, refl)
  settle-Atomic bb (done db) d = elim (Bool-cases (bolt.commits db)) [
    | inl committed ↦ rw committed (inl (refl, (db, refl, d)))
    | inr lost ↦ rw lost (inr ((λ e. cc), refl))
  ]

  pub update-Atomic :
      (body : Db → Tx Db) (bb : BBolt Db) (db : Db)
      → bb.db ≡ some db
      → Leads (body db)
      → Atomic bb (update bolt body bb)
  unfolding update
  update-Atomic body bb db e d =
      subst
        (λ (o : Option Db).
          Atomic bb (elim o [ none ↦ (bb, panics) | some now ↦ settle bolt bb (body now) ]))
        (sym e) (settle-Atomic bb (body db) d)
