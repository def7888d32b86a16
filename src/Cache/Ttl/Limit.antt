-- ===== src/Cache/Ttl/Limit.antt =====
-- cache/memcachettl/memCacheTTL.go: `Set` against the limit on entries.
use arcella_lib.Prelude.{
  ℕ, ◌+◌, ◌≤◌, ◌<◌, ◌%◌, ◌^◌, String, ◌≡◌, ◌≢◌, true, false, Option, none, some, List, [], ◌∷◌,
  length, arith, ltb, if◌then◌else◌,
}
use arcella_lib.Prelude.Int.{ℤ, pos, add_duration}
use arcella_lib.Prelude.Dict
use arcella_lib.Prelude.Dict.{
  Dict, string_eq, spare, lookup-insert, length-insert, length-remove-le, beq_self,
}
use arcella_lib.Cache.Ttl.Heap.{ExpireItem}
use arcella_lib.Cache.Ttl.{
  CacheItem, Cache, needs_room, discard, pop_loop, needs_room, pop_expired_locked,
  warn_limit_locked, at_limit, needs_room, store, set,
}
use arcella_lib.Cache.Ttl.Sweep.{IsValid, expired_at, lookup-pop_expired_locked}
use arcella_lib.Cache.Ttl.Reads.{served}

module _ {V : Type 0} where
  length-discard-le :
      (it : ExpireItem) (items : Dict String (CacheItem V))
      → length (discard it items) ≤ length items
  unfolding discard
  length-discard-le it items = ground (arith, length-remove-le {K = String} it.key items)

  length-pop_loop-le :
      (now : ℕ) (items : Dict String (CacheItem V)) (h : List ExpireItem)
      → length (pop_loop now items h).0 ≤ length items
  unfolding pop_loop
  length-pop_loop-le now items [] = omega arith
  length-pop_loop-le now items (it ∷ h) =
      ground (arith, length-discard-le it items, length-pop_loop-le now (discard it items) h)

  length-store :
      (c : Cache V) (k : String) (v : V) (expiry : ℕ)
      → length (store c k v expiry).items
        ≡ elim (Dict.lookup k c.items) [ none ↦ length c.items + 1 | some _ ↦ length c.items ]
  unfolding store
  length-store c k v expiry = length-insert {K = String} k _ c.items

  -- Under a positive limit that holds, `Set` never lets the cache grow past it.
  pub length-set-le :
      (c : Cache V) (k : String) (v : V) (ttl : ℤ) (now later m : ℕ)
      → c.max_entries ≡ pos m
      → 0 < m
      → length c.items ≤ m
      → length (set c k v ttl now later).items ≤ m
  unfolding set pop_expired_locked warn_limit_locked
  length-set-le c k v ttl now later m e p le =
      let expiry = add_duration later ttl in
      ground (
        arith,
        length-pop_loop-le now c.items c.expiry_heap,
        length-store (pop_expired_locked now c) k v expiry,
        length-store c k v expiry,
      )

  lookup-store :
      (c : Cache V) (k j : String) (v : V) (expiry : ℕ)
      → Dict.lookup j (store c k v expiry).items ≡ (
          if string_eq.beq k j
          then some (record { value = v; expiration = expiry; seq = (c.next_seq + 1) % 2 ^ 64 })
          else Dict.lookup j c.items)
  unfolding store
  lookup-store c k j v expiry = lookup-insert {K = String} k j _ c.items

  -- Once a `Set` is not refused for want of room, every reader up to the expiry is served the new
  -- value, and no later one is.
  pub served-set_self :
      (c : Cache V) (k : String) (v : V) (ttl : ℤ) (now later t : ℕ)
      → at_limit (pop_expired_locked now c) ≡ false
      → served t (Dict.lookup k (set c k v ttl now later).items)
        ≡ (if ltb (add_duration later ttl) t then none else some v)
  unfolding set
  served-set_self c k v ttl now later t room =
      let expiry = add_duration later ttl in
      ground (
        arith,
        lookup-store (pop_expired_locked now c) k k v expiry,
        lookup-store c k k v expiry,
        beq_self {K = String} k,
      )

  served-spare :
      (now t : ℕ) (o : Option (CacheItem V))
      → now < t
      → served t (spare (expired_at now) o) ≡ served t o
  served-spare now t o lt = ground arith

  -- `Set` of one key never changes what a reader at a later instant is served for another key,
  -- whether the value is stored or refused.
  pub served-set_ne :
      (c : Cache V) (k j : String) (v : V) (ttl : ℤ) (now later t : ℕ)
      → IsValid c
      → k ≢ j
      → now < t
      → served t (Dict.lookup j (set c k v ttl now later).items) ≡ served t (Dict.lookup j c.items)
  unfolding set warn_limit_locked
  served-set_ne c k j v ttl now later t h ne lt =
      let expiry = add_duration later ttl in
      ground (
        arith,
        lookup-store (pop_expired_locked now c) k j v expiry,
        lookup-store c k j v expiry,
        string_eq.beq_iff k j,
        lookup-pop_expired_locked now c j h,
        served-spare now t (Dict.lookup j c.items) lt,
      )

  -- A new key that finds the cache full of live items is refused: no item is stored, and what stays
  -- is what the sweep leaves.
  pub set_refused :
      (c : Cache V) (k j : String) (v : V) (ttl : ℤ) (now later : ℕ)
      → IsValid c
      → needs_room c k ≡ true
      → at_limit (pop_expired_locked now c) ≡ true
      → Dict.lookup j (set c k v ttl now later).items
        ≡ spare (expired_at now) (Dict.lookup j c.items)
  unfolding set warn_limit_locked
  set_refused c k j v ttl now later h room full =
      ground (arith, lookup-pop_expired_locked now c j h)
