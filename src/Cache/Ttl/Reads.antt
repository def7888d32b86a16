-- ===== src/Cache/Ttl/Reads.antt =====
-- cache/memcachettl/memCacheTTL.go: what `Get` returns after the other operations, and the invariant
-- over any sequence of calls.
use arcella_lib.Prelude.{
  ℕ, ◌+◌, ◌%◌, ◌^◌, ◌≤◌, String, ◌≡◌, Option, none, some, arith, ltb, if◌then◌else◌, if_intro,
}
use arcella_lib.Prelude.Int.{ℤ, add_duration}
use arcella_lib.Prelude.Dict
use arcella_lib.Prelude.Dict.{Dict, string_eq, spare, lookup-insert, lookup-remove}
use arcella_lib.Cache.Ttl.Heap.{push-IsQueue, has_entry-push}
use arcella_lib.Cache.Ttl.{
  CacheItem, Cache, new_cache, pop_expired_locked, warn_limit_locked, at_limit, needs_room,
  store_if_room, store, set, set_max_entries, get_shared, get_exclusive, get, delete, check_ttl,
}
use arcella_lib.Cache.Ttl.Sweep.{IsCovered, IsValid, pop_expired_locked-IsValid}

module _ {V : Type 0} where
  store-IsValid :
      (c : Cache V) (k : String) (v : V) (expiry : ℕ) → IsValid c → IsValid (store c k v expiry)
  unfolding store
  store-IsValid c k v expiry h = record {
    queue = push-IsQueue _ c.expiry_heap h.queue;
    covered = record {
      at = λ j item e. rw has_entry-push (
          ground (
            arith,
            lookup-insert {K = String} k j
                (record { value = v; expiration = expiry; seq = (c.next_seq + 1) % 2 ^ 64 })
                c.items,
            h.covered.at j item,
            string_eq.beq_iff k j,
          ));
    };
  }

  remove-IsCovered :
      (c : Cache V) (k : String) → IsValid c → IsCovered (Dict.remove k c.items) c.expiry_heap
  remove-IsCovered c k h = record {
    at = λ j item e. ground (arith, lookup-remove {K = String} k j c.items, h.covered.at j item);
  }

  delete-IsValid : (c : Cache V) (k : String) → IsValid c → IsValid (delete c k)
  unfolding delete
  delete-IsValid c k h = record { queue = h.queue; covered = remove-IsCovered c k h }

  get_exclusive-IsValid :
      (c : Cache V) (k : String) (now : ℕ) → IsValid c → IsValid (get_exclusive c k now).0
  unfolding get_exclusive delete
  get_exclusive-IsValid c k now h =
      elim (Dict.lookup k c.items)
        as (λ x.
          IsValid
            (elim x as (λ _. Cache V × Option V) [
              | none ↦ (c, none)
              | some item ↦
                  if ltb item.expiration now
                  then (record c { items = Dict.remove k c.items }, none)
                  else (c, some item.value)
            ]).0) [
              | none ↦ h
              | some item ↦
                  if_intro (λ (r : Cache V × Option V). IsValid r.0) (ltb item.expiration now)
                    (λ _. delete-IsValid c k h) (λ _. h)
            ]

  get-IsValid :
      (c : Cache V) (k : String) (now later : ℕ) → IsValid c → IsValid (get c k now later).0
  unfolding get
  get-IsValid c k now later h =
      elim (get_shared c k now)
        as (λ x.
          IsValid
            (elim x as (λ _. Cache V × Option V) [
              | none ↦ get_exclusive c k later
              | some result ↦ (c, result)
            ]).0) [ none ↦ get_exclusive-IsValid c k later h | some r ↦ h ]

  warn_limit_locked-IsValid :
      (now : ℕ) (c : Cache V) → IsValid c → IsValid (warn_limit_locked now c)
  unfolding warn_limit_locked
  warn_limit_locked-IsValid now c h =
      if_intro IsValid _ (λ _. record { queue = h.queue; covered = h.covered }) (λ _. h)

  store_if_room-IsValid :
      (c : Cache V) (k : String) (v : V) (expiry now : ℕ)
      → IsValid c
      → IsValid (store_if_room c k v expiry now)
  unfolding store_if_room
  store_if_room-IsValid c k v expiry now h =
      if_intro IsValid (at_limit c) (λ _. warn_limit_locked-IsValid now c h)
        (λ _. store-IsValid c k v expiry h)

  set-IsValid :
      (c : Cache V) (k : String) (v : V) (ttl : ℤ) (now later : ℕ)
      → IsValid c
      → IsValid (set c k v ttl now later)
  unfolding set
  set-IsValid c k v ttl now later h =
      if_intro IsValid (needs_room c k)
        (λ _.
          store_if_room-IsValid (pop_expired_locked now c) k v (add_duration later ttl) later
            (pop_expired_locked-IsValid now c h))
        (λ _. store-IsValid c k v (add_duration later ttl) h)

  -- A call that changes the fields under the lock; `Get` is two, and others may come between.
  pub data Call (c : Cache V) : Cache V → Type 0 where
    set_call : (k : String) (v : V) (ttl : ℤ) (now later : ℕ) → Call c (set c k v ttl now later)
    max_call : (n : ℤ) → Call c (set_max_entries c n)
    get_call : (k : String) (now later : ℕ) → Call c (get c k now later).0
    recheck_call : (k : String) (now : ℕ) → Call c (get_exclusive c k now).0
    delete_call : (k : String) → Call c (delete c k)
    ttl_call : (now : ℕ) → Call c (check_ttl c now).0
    reap_call : (now : ℕ) → Call c (pop_expired_locked now c)

  pub data Calls (c : Cache V) : Cache V → Type 0 where
    done : Calls c c
    next : {d d' : Cache V} → Calls c d → Call d d' → Calls c d'

  Call-IsValid : {c d : Cache V} → Call c d → IsValid c → IsValid d
  unfolding set_max_entries check_ttl
  Call-IsValid {c} (set_call k v ttl now later) h = set-IsValid c k v ttl now later h
  Call-IsValid (max_call n) h = record { queue = h.queue; covered = h.covered }
  Call-IsValid {c} (get_call k now later) h = get-IsValid c k now later h
  Call-IsValid {c} (recheck_call k now) h = get_exclusive-IsValid c k now h
  Call-IsValid {c} (delete_call k) h = delete-IsValid c k h
  Call-IsValid {c} (ttl_call now) h = pop_expired_locked-IsValid now c h
  Call-IsValid {c} (reap_call now) h = pop_expired_locked-IsValid now c h

  -- Whatever sequence of calls a valid cache goes through, in any order and at any times, it stays
  -- valid: its queue is in order and holds the entry of every stored item.
  pub Calls-IsValid : {c d : Cache V} → Calls c d → IsValid c → IsValid d
  Calls-IsValid done h = h
  Calls-IsValid (next cs call) h = Call-IsValid call (Calls-IsValid cs h)

  pub new_cache-IsValid : IsValid (new_cache {V = V})
  unfolding Dict.lookup
  new_cache-IsValid = record { queue = tt; covered = record { at = λ k item e. cc } }

  -- What a key holds for a reader at `now`: an item is served until its expiry, that instant
  -- included.
  abbrev pub served : ℕ → Option (CacheItem V) → Option V
  served now none = none
  served now (some item) = if ltb item.expiration now then none else some item.value

  get-served :
      (c : Cache V) (k : String) (now later : ℕ)
      → now ≤ later
      → (get c k now later).1 ≡ served now (Dict.lookup k c.items)
  unfolding get
  get-served c k now later le = ground arith

  served-get :
      (c : Cache V) (k j : String) (now later t : ℕ)
      → now ≤ later
      → later ≤ t
      → served t (Dict.lookup j (get c k now later).0.items) ≡ served t (Dict.lookup j c.items)
  unfolding get
  served-get c k j now later t le le' =
      ground (arith, lookup-remove {K = String} k j c.items, string_eq.beq_iff k j)

  -- `Get` returns exactly what is served at its first look, a value that is stored and has not expired,
  -- or nothing, and changes for no key what any later reader is served, provided that the clock does
  -- not run backwards between its two locks.
  pub get_lem :
      (c : Cache V) (k j : String) (now later t : ℕ)
      → now ≤ later
      → later ≤ t
      → ((get c k now later).1 ≡ served now (Dict.lookup k c.items))
        × (served t (Dict.lookup j (get c k now later).0.items) ≡ served t (Dict.lookup j c.items))
  get_lem c k j now later t le le' =
      (get-served c k now later le, served-get c k j now later t le le')
