-- ===== src/Db/Bolt/Log.antt =====
-- db/bbolt/etcdBBolt.go: a bucket as a log, filled by AddWithSeq and read by GetAll.
use mathlib.Core.List.{append-nil, append_assoc}
use arcella_lib.Db.Bolt.Keys.{less, itob, less-itob}
use arcella_lib.Db.Bolt.{
  bucket_not_found, Kv, copied, get_all, Bolt, BBolt, in_bucket, put_numbered, add_with_seq, Result,
  ok, panics, add_with_seq,
}
use arcella_lib.Db.Bolt.Updates.{Leads, Atomic, result-Leads, in_bucket-Leads, update-Atomic}
use arcella_lib.Db.Bolt.Laws.{IsBolt}
use arcella_lib.Prelude.{
  if◌then◌else◌, length, inr, inl, none, sym, ◌∙◌, ◌++◌, ◌∷◌, ◌≢◌, ◌≡◌, ◌<◌, ◌≤◌, ◌^◌, ◌+◌, arith,
  [], List, some, Option, true, ap, refl, suc, ℕ,
}

abbrev pub Entries : Type 0
Entries = List (List ℕ × Option (List ℕ))

-- every key comes before the given one
abbrev pub AllLess : Entries → List ℕ → Type 0
AllLess [] key = Unit {0}
AllLess ((k, v) ∷ es) key = (less k key ≡ true) × AllLess es key

-- Cursors go through a bucket in the order of its keys, so a greatest key comes last; a bucket's
-- sequence counts up, and changes nothing else.
pub record IsOrdered {Db : Type 0} (bolt : Bolt Db) : Type 0 where
  pub sequence : List ℕ → Db → ℕ
  pub put_last :
      (b key value : List ℕ) (db db' : Db)
      → AllLess (bolt.entries b db) key
      → bolt.put b key value db ≡ some db'
      → bolt.entries b db' ≡ bolt.entries b db ++ ((key, some value) ∷ [])
  pub put_sequence :
      (b key value : List ℕ) (db db' : Db)
      → bolt.put b key value db ≡ some db'
      → sequence b db' ≡ sequence b db
  pub next_is :
      (b : List ℕ) (id : ℕ) (db db' : Db)
      → sequence b db + 1 < 2 ^ 64
      → bolt.next_sequence b db ≡ some (id, db')
      → (id ≡ sequence b db + 1) × (sequence b db' ≡ id)
  pub next_entries :
      (b : List ℕ) (id : ℕ) (db db' : Db)
      → bolt.next_sequence b db ≡ some (id, db')
      → bolt.entries b db' ≡ bolt.entries b db

-- every key is the one of a number up to `n`
abbrev pub Numbered : ℕ → Entries → Type 0
Numbered n [] = Unit {0}
Numbered n ((k, v) ∷ es) = ((i : ℕ) × (i ≤ n) × (k ≡ itob i)) × Numbered n es

Numbered-AllLess :
    (n : ℕ) (es : Entries) → suc n < 2 ^ 64 → Numbered n es → AllLess es (itob (suc n))
Numbered-AllLess n [] fits h = tt
Numbered-AllLess n ((k, v) ∷ es) fits ((i, le, e), h) =
    (rw e (less-itob i (suc n) (omega arith) fits), Numbered-AllLess n es fits h)

Numbered-append :
    (n : ℕ) (es : Entries) (v : List ℕ)
    → Numbered n es
    → Numbered (suc n) (es ++ ((itob (suc n), some v) ∷ []))
Numbered-append n [] v h = ((suc n, omega arith, refl), tt)
Numbered-append n ((k, w) ∷ es) v ((i, le, e), h) = ((i, omega arith, e), Numbered-append n es v h)

-- the entries of values that are added from the number `n` on
abbrev pub numbered : ℕ → List (List ℕ) → Entries
unfolding itob
numbered n [] = []
numbered n (v ∷ vs) = (itob (suc n), some v) ∷ numbered (suc n) vs

-- What a log of these values reads back, from the number `n` on: each value that is not empty, with the
-- key of its number.
abbrev pub listed : ℕ → List (List ℕ) → List Kv
unfolding itob
listed n [] = []
listed n ([] ∷ vs) = listed (suc n) vs
listed n ((x ∷ v) ∷ vs) = record { key = itob (suc n); value = x ∷ v } ∷ listed (suc n) vs

copied-numbered : (n : ℕ) (vs : List (List ℕ)) → copied (numbered n vs) ≡ listed n vs
unfolding numbered listed
copied-numbered n [] = refl
copied-numbered n ([] ∷ vs) = copied-numbered (suc n) vs
copied-numbered n ((x ∷ v) ∷ vs) =
    ap (λ (kvs : List Kv). record { key = itob (suc n); value = x ∷ v } ∷ kvs)
      (copied-numbered (suc n) vs)

abbrev pub kept : Result → List ℕ → List (List ℕ) → List (List ℕ)
kept ok v vs = v ∷ vs
kept _ v vs = vs

kept_ne : (r : Result) (v : List ℕ) (vs : List (List ℕ)) → r ≢ ok → kept r v vs ≡ vs
kept_ne ok v vs ne = absurd (ne refl)
kept_ne panics v vs ne = refl
kept_ne _ v vs ne = refl

module _ {Db : Type 0} (bolt : Bolt Db) (b : List ℕ) where
  -- `AddWithSeq` of each value, and the values that were added
  unfoldable pub add_all : List (List ℕ) → BBolt Db → BBolt Db × List (List ℕ)
  unfolding add_with_seq
  add_all [] bb = (bb, [])
  add_all (v ∷ vs) bb =
      let r = add_with_seq bolt bb b v in let rest = add_all vs r.0 in (rest.0, kept r.1 v rest.1)

  module _ (h : IsBolt bolt) (o : IsOrdered bolt) where
    -- The bucket is there, its sequence is at `n`, and it has the entries.
    abbrev pub Holds : ℕ → Entries → Db → Type 0
    Holds n es db =
        (bolt.bucket b db ≡ true) × (o.sequence b db ≡ n) × (bolt.entries b db ≡ es) × Numbered n es

    next_lem :
        (n id : ℕ) (es : Entries) (db db' : Db)
        → suc n < 2 ^ 64
        → Holds n es db
        → bolt.next_sequence b db ≡ some (id, db')
        → (id ≡ suc n)
          × (bolt.bucket b db' ≡ true)
          × (o.sequence b db' ≡ suc n)
          × (bolt.entries b db' ≡ es)
    next_lem n id es db db' fits (found, at, e, _) drawn =
        let (is, now) = o.next_is b id db db' (omega arith) drawn in
        let id_is : id ≡ suc n = omega arith in
        (
          id_is,
          h.sequence_has b b id db db' drawn ∙ found,
          now ∙ id_is,
          o.next_entries b id db db' drawn ∙ e,
        )

    put_lem :
        (n : ℕ) (es : Entries) (v : List ℕ) (db db' : Db)
        → suc n < 2 ^ 64
        → Numbered n es
        → bolt.bucket b db ≡ true
        → o.sequence b db ≡ suc n
        → bolt.entries b db ≡ es
        → bolt.put b (itob (suc n)) v db ≡ some db'
        → Holds (suc n) (es ++ ((itob (suc n), some v) ∷ [])) db'
    put_lem n es v db db' fits num found at e stored = (
      h.put_has b (itob (suc n)) v b db db' stored ∙ found,
      o.put_sequence b (itob (suc n)) v db db' stored ∙ at,
      o.put_last b (itob (suc n)) v db db' (rw e (Numbered-AllLess n es fits num)) stored
          ∙ ap (λ (xs : Entries). xs ++ ((itob (suc n), some v) ∷ [])) e,
      Numbered-append n es v num,
    )

    abbrev Next : ℕ → Entries → List ℕ → Db → Type 0
    Next n es v db = Holds (suc n) (es ++ ((itob (suc n), some v) ∷ [])) db

    put_numbered-Leads :
        (n : ℕ) (es : Entries) (v : List ℕ) (db : Db) (drawn : Option (ℕ × Db))
        → suc n < 2 ^ 64
        → Holds n es db
        → bolt.next_sequence b db ≡ drawn
        → Leads bolt (Next n es v) (put_numbered bolt b v drawn)
    unfolding put_numbered
    put_numbered-Leads n es v db none fits held e = λ e'. cc
    put_numbered-Leads n es v db (some (id, db')) fits held e =
        let (is, found, at, same) = next_lem n id es db db' fits held e in
        rw is (
          result-Leads bolt (Next n es v) (bolt.put b (itob (suc n)) v db')
            (λ last stored. put_lem n es v db' last fits held.3 found at same stored))

    add_lem :
        (n : ℕ) (es : Entries) (v : List ℕ) (bb : BBolt Db) (db : Db)
        → suc n < 2 ^ 64
        → bb.db ≡ some db
        → Holds n es db
        → Atomic bolt (Next n es v) bb (add_with_seq bolt bb b v)
    unfolding add_with_seq
    add_lem n es v bb db fits e held =
        let body = λ (now : Db). put_numbered bolt b v (bolt.next_sequence b now) in
        update-Atomic bolt (Next n es v) (in_bucket bolt b body) bb db e (
          in_bucket-Leads bolt (Next n es v) b body db
            λ found. put_numbered-Leads n es v db (bolt.next_sequence b db) fits held refl)

    add_all_lem :
        (vs : List (List ℕ)) (n : ℕ) (es : Entries) (bb : BBolt Db) (db : Db)
        → n + length vs < 2 ^ 64
        → bb.db ≡ some db
        → Holds n es db
        → (db' : Db) × ((add_all vs bb).0.db ≡ some db')
          × (bolt.bucket b db' ≡ true)
          × (bolt.entries b db' ≡ es ++ numbered n (add_all vs bb).1)
    unfolding add_all numbered
    add_all_lem [] n es bb db fits e (found, at, same, num) =
        (db, e, found, same ∙ sym (append-nil es))
    add_all_lem (v ∷ vs) n es bb db fits e held =
        let r = add_with_seq bolt bb b v in
        elim (add_lem n es v bb db (omega arith) e held) [
          | inl (fine, (mid, em, hm)) ↦
              let (last, el, found, same) = add_all_lem vs (suc n) _ r.0 mid (omega arith) em hm in
              (
                last,
                el,
                found,
                same
                    ∙ append_assoc es ((itob (suc n), some v) ∷ [])
                        (numbered (suc n) (add_all vs r.0).1)
                    ∙ ap (λ (x : Result). es ++ numbered n (kept x v (add_all vs r.0).1))
                        (sym fine),
              )
          | inr (ne, unchanged) ↦
              let (last, el, found, same) =
                add_all_lem vs n es r.0 db (omega arith) (ap (λ (x : BBolt Db). x.db) unchanged ∙ e)
                  held in
              (
                last,
                el,
                found,
                same
                    ∙ ap (λ (ws : List (List ℕ)). es ++ numbered n ws)
                        (sym (kept_ne r.1 v (add_all vs r.0).1 ne)),
              )
        ]

    -- A bucket that is empty and has drawn no number is a log: after AddWithSeq of any values, fewer
    -- than 2^64, GetAll returns those that were added without an error, in their order and each with the
    -- eight bytes of its number as key, where the first is number 1; it leaves out those that are empty,
    -- which keep their number.
    pub get_all-add_all :
        (vs : List (List ℕ)) (bb : BBolt Db) (db : Db)
        → length vs < 2 ^ 64
        → bb.db ≡ some db
        → bolt.bucket b db ≡ true
        → o.sequence b db ≡ 0
        → bolt.entries b db ≡ []
        → get_all bolt (add_all vs bb).0 b ≡ (listed 0 (add_all vs bb).1, ok)
    unfolding get_all
    get_all-add_all vs bb db fits e found zeroed empty =
        let (last, el, there, same) =
          add_all_lem vs 0 [] bb db (omega arith) e (found, zeroed, empty, tt) in
        ap
          (λ (d : Option Db). elim d as (λ _. List Kv × Result) [
            | none ↦ ([], panics)
            | some now ↦
                if bolt.bucket b now
                then (copied (bolt.entries b now), ok)
                else ([], bucket_not_found)
          ])
          el
        ∙ rw there (
            ap (λ (es : Entries). (copied es, ok)) same
            ∙ ap (λ (kvs : List Kv). (kvs, ok)) (copied-numbered 0 (add_all vs bb).1))
