-- ===== src/Db/Bolt/Runs.antt =====
-- db/bbolt/etcdBBolt.go: sequences of calls, as a client of the wrapper makes them.
use arcella_lib.Db.Bolt.{Bolt, BBolt, Result, ok, panics, bucket_not_found, or_empty, get}
use arcella_lib.Db.Bolt.Store.{Store, Call, apply}
use arcella_lib.Db.Bolt.Laws.{IsBolt, view}
use arcella_lib.Db.Bolt.Refine.{call, call-Atomic}
use arcella_lib.Prelude.{
  ◌∙◌, ◌∷◌, ◌≢◌, ◌≡◌, if◌then◌else◌, inr, inl, [], List, some, none, Option, ap, sym, refl, ℕ,
}

-- The map after the calls that returned no error, in their order.
abbrev pub replay_one : Call → ℕ → Result → Store → Store
replay_one c id ok s = apply c id s
replay_one c id _ s = s

unfoldable pub replay : List Call → List (ℕ × Result) → Store → Store
replay (c ∷ cs) ((id, r) ∷ rs) s = replay cs rs (replay_one c id r s)
replay _ _ s = s

-- What `Get` reads in the map.
abbrev pub read : Store → List ℕ → List ℕ → List ℕ × Result
read s b key = if s.has b then (or_empty (s.at b key), ok) else ([], bucket_not_found)

replay_one_ne : (c : Call) (id : ℕ) (r : Result) (s : Store) → r ≢ ok → replay_one c id r s ≡ s
replay_one_ne c id ok s ne = absurd (ne refl)
replay_one_ne c id panics s ne = refl
replay_one_ne c id _ s ne = refl

module _ {Db : Type 0} (bolt : Bolt Db) where
  unfoldable pub run : List Call → BBolt Db → BBolt Db × List (ℕ × Result)
  unfolding call
  run [] bb = (bb, [])
  run (c ∷ cs) bb = let r = call bolt c bb in let rest = run cs r.0 in (rest.0, (r.1, r.2) ∷ rest.1)

  module _ (h : IsBolt bolt) where
    -- the state after a call
    call-view :
        (c : Call) (bb : BBolt Db) (db : Db)
        → bb.db ≡ some db
        → (db' : Db) × ((call bolt c bb).0.db ≡ some db')
          × (view bolt db' ≡ replay_one c (call bolt c bb).1 (call bolt c bb).2 (view bolt db))
    call-view c bb db e = elim (call-Atomic bolt h c bb db e) [
      | inl (fine, (db', e', v)) ↦ (db', e', rw fine v)
      | inr (ne, same) ↦
          (db, ap (λ (x : BBolt Db). x.db) same ∙ e, sym (replay_one_ne c _ _ (view bolt db) ne))
    ]

    run-view :
        (cs : List Call) (bb : BBolt Db) (db : Db)
        → bb.db ≡ some db
        → (db' : Db) × ((run cs bb).0.db ≡ some db')
          × (view bolt db' ≡ replay cs (run cs bb).1 (view bolt db))
    unfolding run replay
    run-view [] bb db e = (db, e, refl)
    run-view (c ∷ cs) bb db e =
        let (mid, em, vm) = call-view c bb db e in
        let (last, el, vl) = run-view cs (call bolt c bb).0 mid em in
        (last, el, vl ∙ ap (replay cs (run cs (call bolt c bb).0).1) vm)

    get-view :
        (bb : BBolt Db) (db : Db) (b key : List ℕ)
        → bb.db ≡ some db
        → get bolt bb b key ≡ read (view bolt db) b key
    unfolding get
    get-view bb db b key e =
        ap
          (λ (o : Option Db). elim o as (λ _. List ℕ × Result) [
            | none ↦ ([], panics)
            | some now ↦
                if bolt.bucket b now
                then (or_empty (bolt.get b key now), ok)
                else ([], bucket_not_found)
          ])
          e

    -- After any sequence of calls on an open database, Get reads what the map holds that is made, from
    -- the map at the start, by those calls in turn that returned no error: a call that fails, also in
    -- the middle of a batch, leaves no trace.
    pub get-run :
        (cs : List Call) (bb : BBolt Db) (db : Db) (b key : List ℕ)
        → bb.db ≡ some db
        → get bolt (run cs bb).0 b key ≡ read (replay cs (run cs bb).1 (view bolt db)) b key
    get-run cs bb db b key e =
        let (last, el, vl) = run-view cs bb db e in
        get-view (run cs bb).0 last b key el ∙ ap (λ (s : Store). read s b key) vl
