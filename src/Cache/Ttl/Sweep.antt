-- ===== src/Cache/Ttl/Sweep.antt =====
-- The queue and the map of the cache fit together, and `popExpiredLocked` is exact.
use arcella_lib.Prelude.{
  ℕ, ◌≤◌, String, ◌≡◌, Bool, true, false, not, some, List, [], ◌∷◌, arith, ltb, Option-cases,
  Bool-cases, inl, inr, ◌∙◌,
}
use arcella_lib.Prelude.Dict
use arcella_lib.Prelude.Dict.{Dict, string_eq, spare, lookup-insert, lookup-remove}
use arcella_lib.Cache.Ttl.Heap.{ExpireItem, is_entry, has_entry, IsQueue, has_entry-From}
use arcella_lib.Cache.Ttl.{CacheItem, Cache, discard, pop_loop, pop_expired_locked}

module _ {V : Type 0} where
  -- Every stored item has its entry in the queue.
  pub record IsCovered (items : Dict String (CacheItem V)) (h : List ExpireItem) : Type 0 where
    pub at :
        (k : String) (item : CacheItem V)
        → Dict.lookup k items ≡ some item
        → has_entry k item.expiration item.seq h ≡ true

  abbrev pub expired_at : ℕ → CacheItem V → Bool
  expired_at now item = not (ltb now item.expiration)

  -- An entry that has expired takes no live item out.
  discard-live :
      (it : ExpireItem) (items : Dict String (CacheItem V)) (k : String) (now : ℕ)
      → it.expiry ≤ now
      → spare (expired_at now) (Dict.lookup k (discard it items))
        ≡ spare (expired_at now) (Dict.lookup k items)
  unfolding discard
  discard-live it items k now le =
      ground (arith, lookup-remove it.key k items, string_eq.beq_iff it.key k)

  discard-lookup :
      (it : ExpireItem) (items : Dict String (CacheItem V)) (k : String) {item : CacheItem V}
      → Dict.lookup k (discard it items) ≡ some item
      → (Dict.lookup k items ≡ some item) × (is_entry k item.expiration item.seq it ≡ false)
  unfolding discard
  discard-lookup it items k {item} e =
      ground (arith, lookup-remove it.key k items, string_eq.beq_iff it.key k)

  discard-IsCovered :
      (it : ExpireItem) (items : Dict String (CacheItem V)) (h : List ExpireItem)
      → IsCovered items (it ∷ h)
      → IsCovered (discard it items) h
  discard-IsCovered it items h c = record {
    at = λ k item e.
        let (kept, other) = discard-lookup it items k e in ground (arith, c.at k item kept);
  }

  pop_loop-lookup :
      (now : ℕ) (items : Dict String (CacheItem V)) (h : List ExpireItem) (k : String)
      → IsQueue h
      → IsCovered items h
      → Dict.lookup k (pop_loop now items h).0 ≡ spare (expired_at now) (Dict.lookup k items)
  unfolding pop_loop
  pop_loop-lookup now items [] k q c = elim (Option-cases (Dict.lookup k items)) [
    | inl e ↦ rw e
    | inr (item, e) ↦ cc (c.at k item e)
  ]
  pop_loop-lookup now items (it ∷ h) k q c = elim (Bool-cases (ltb now it.expiry)) [
    | inl later ↦ elim (Option-cases (Dict.lookup k items)) [
      | inl e ↦ rw (later, e)
      | inr (item, e) ↦
          rw (later, e)
            (ground
              (arith, c.at k item e, has_entry-From it.expiry k item.expiration item.seq h q.0))
    ]
    | inr due ↦ rw due (
        pop_loop-lookup now (discard it items) h k q.1 (discard-IsCovered it items h c)
        ∙ discard-live it items k now (ground arith))
  ]

  pop_loop-IsQueue :
      (now : ℕ) (items : Dict String (CacheItem V)) (h : List ExpireItem)
      → IsQueue h
      → IsQueue (pop_loop now items h).1
  unfolding pop_loop
  pop_loop-IsQueue now items [] q = tt
  pop_loop-IsQueue now items (it ∷ h) q = elim (Bool-cases (ltb now it.expiry)) [
    | inl later ↦ rw later q
    | inr due ↦ rw due (pop_loop-IsQueue now (discard it items) h q.1)
  ]

  pop_loop-IsCovered :
      (now : ℕ) (items : Dict String (CacheItem V)) (h : List ExpireItem)
      → IsCovered items h
      → IsCovered (pop_loop now items h).0 (pop_loop now items h).1
  unfolding pop_loop
  pop_loop-IsCovered now items [] c = c
  pop_loop-IsCovered now items (it ∷ h) c = elim (Bool-cases (ltb now it.expiry)) [
    | inl later ↦ rw later c
    | inr due ↦
        rw due (pop_loop-IsCovered now (discard it items) h (discard-IsCovered it items h c))
  ]

  -- The queue starts with its earliest entry, and every stored item stands in it.
  pub record IsValid (c : Cache V) : Type 0 where
    pub queue : IsQueue c.expiry_heap
    pub covered : IsCovered c.items c.expiry_heap

  pub pop_expired_locked-IsValid :
      (now : ℕ) (c : Cache V) → IsValid c → IsValid (pop_expired_locked now c)
  unfolding pop_expired_locked
  pop_expired_locked-IsValid now c v = record {
    queue = pop_loop-IsQueue now c.items c.expiry_heap v.queue;
    covered = pop_loop-IsCovered now c.items c.expiry_heap v.covered;
  }

  -- On a valid cache the sweep of expired items is exact: afterwards a key holds what it held
  -- before if that item expires later than `now`, and nothing otherwise.
  pub lookup-pop_expired_locked :
      (now : ℕ) (c : Cache V) (k : String)
      → IsValid c
      → Dict.lookup k (pop_expired_locked now c).items
        ≡ spare (expired_at now) (Dict.lookup k c.items)
  unfolding pop_expired_locked
  lookup-pop_expired_locked now c k v =
      pop_loop-lookup now c.items c.expiry_heap k v.queue v.covered
