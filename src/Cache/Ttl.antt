-- ===== src/Cache/Ttl.antt =====
-- cache/memcachettl/memCacheTTL.go: the cache with a time to live. Every method holds the lock, so
-- a call is one step; `now` is the clock that it reads. A value of any type is a `V`.
pub mod Heap
pub mod Sweep
pub mod Reads
pub mod Limit
pub mod Reaper
use arcella_lib.Prelude.{
  ℕ, suc, ◌+◌, ◌*◌, ◌%◌, ◌^◌, String, Bool, true, false, ◌&&◌, ◌||◌, not, Option, none, some, List,
  [], ◌∷◌, length, map, ltb, leb, ◌==◌, if◌then◌else◌,
}
use arcella_lib.Prelude.Int.{ℤ, pos, ltb_int, leb_int, add_duration}
use arcella_lib.Prelude.Dict
use arcella_lib.Prelude.Dict.{Dict, string_eq}
use arcella_lib.Cache.Ttl.Heap.{ExpireItem, push}

-- nanoseconds
abbrev pub limit_warn_interval : ℕ
limit_warn_interval = 10 * 1000000000

pub record CacheItem (V : Type 0) : Type 0 where
  pub value : V
  pub expiration : ℕ
  pub seq : ℕ

-- The fields under `mu`. The lifecycle fields (`done`, `stopped`, `wg`) are those of Ttl/Reaper.
pub record Cache (V : Type 0) : Type 0 where
  pub items : Dict String (CacheItem V)
  pub expiry_heap : List ExpireItem
  pub next_seq : ℕ
  pub max_entries : ℤ
  pub last_log : ℕ

abbrev pub new_cache : {V : Type 0} → Cache V
new_cache = record { items = []; expiry_heap = []; next_seq = 0; max_entries = pos 0; last_log = 0 }

abbrev pub is_none {ℓ} : {A : Type ℓ} → Option A → Bool
is_none none = true
is_none (some _) = false

module _ {V : Type 0} where
  -- the guard and the `delete` in the body of `popExpiredLocked`
  unfoldable pub discard : ExpireItem → Dict String (CacheItem V) → Dict String (CacheItem V)
  discard it items = elim (Dict.lookup it.key items) [
    | none ↦ items
    | some item ↦
        if item.seq == it.seq && item.expiration == it.expiry
        then Dict.remove it.key items
        else items
  ]

  -- the loop of `popExpiredLocked`, over the queue
  unfoldable pub pop_loop :
      ℕ → Dict String (CacheItem V) → List ExpireItem → Dict String (CacheItem V) × List ExpireItem
  pop_loop now items [] = (items, [])
  pop_loop now items (it ∷ h) =
      let rest = pop_loop now (discard it items) h in
      if not (ltb now it.expiry) then rest else (items, it ∷ h)

  unfoldable pub pop_expired_locked : ℕ → Cache V → Cache V
  pop_expired_locked now c =
      let (items, h) = pop_loop now c.items c.expiry_heap in
      record c { items = items; expiry_heap = h }

  -- `now.Sub` saturates, and the zero `lastLog` lies further back than the interval.
  unfoldable pub warn_limit_locked : ℕ → Cache V → Cache V
  warn_limit_locked now c =
      if leb (c.last_log + limit_warn_interval) now then record c { last_log = now } else c

  unfoldable pub at_limit : Cache V → Bool
  at_limit c = leb_int c.max_entries (pos (length c.items))

  -- the last four lines of `Set`; `seq` is a uint64
  unfoldable pub store : Cache V → String → V → ℕ → Cache V
  store c key value expiry =
      let seq = (c.next_seq + 1) % 2 ^ 64 in
      record c {
        items = Dict.insert key (record { value = value; expiration = expiry; seq = seq }) c.items;
        expiry_heap = push (record { key = key; expiry = expiry; seq = seq }) c.expiry_heap;
        next_seq = seq;
      }

  -- the guards round the sweep in `Set`
  unfoldable pub needs_room : Cache V → String → Bool
  unfolding at_limit
  needs_room c key =
      ltb_int (pos 0) c.max_entries && (is_none (Dict.lookup key c.items) && at_limit c)

  -- the second test of the limit, after the sweep
  unfoldable pub store_if_room : Cache V → String → V → ℕ → ℕ → Cache V
  unfolding at_limit
  store_if_room c key value expiry now =
      if at_limit c then warn_limit_locked now c else store c key value expiry

  -- `Set`; the clock is read at `now` by the sweep, and at `later` for the warning or the expiry
  unfoldable pub set : Cache V → String → V → ℤ → ℕ → ℕ → Cache V
  unfolding needs_room store_if_room
  set c key value ttl now later =
      if needs_room c key
      then store_if_room (pop_expired_locked now c) key value (add_duration later ttl) later
      else store c key value (add_duration later ttl)

  unfoldable pub set_max_entries : Cache V → ℤ → Cache V
  set_max_entries c n = record c { max_entries = n }

  -- what `Get` finds under the read lock: `some` is its result, `none` sends it to the write lock
  unfoldable pub get_shared : Cache V → String → ℕ → Option (Option V)
  get_shared c key now = elim (Dict.lookup key c.items) [
    | none ↦ some none
    | some item ↦ if ltb item.expiration now then none else some (some item.value)
  ]

  -- the re-check under the write lock, on the cache as other calls may have left it
  unfoldable pub get_exclusive : Cache V → String → ℕ → Cache V × Option V
  get_exclusive c key now = elim (Dict.lookup key c.items) [
    | none ↦ (c, none)
    | some item ↦
        if ltb item.expiration now
        then (record c { items = Dict.remove key c.items }, none)
        else (c, some item.value)
  ]

  -- `Get` with no other call between its two locks, which it takes at `now` and `later`
  unfoldable pub get : Cache V → String → ℕ → ℕ → Cache V × Option V
  unfolding get_shared get_exclusive
  get c key now later = elim (get_shared c key now) [
    | some result ↦ (c, result)
    | none ↦ get_exclusive c key later
  ]

  unfoldable pub delete : Cache V → String → Cache V
  delete c key = record c { items = Dict.remove key c.items }

  -- `CheckTTL`, with the two sizes that it logs
  unfoldable pub check_ttl : Cache V → ℕ → Cache V × (ℕ × ℕ)
  check_ttl c now = let c' = pop_expired_locked now c in (c', (length c.items, length c'.items))

  unfoldable pub size : Cache V → ℕ
  size c = length c.items

  -- the loop of `GetAll` over its snapshot of the keys; the callback may change the cache, and the
  -- clock is read at `clock i`
  unfoldable pub visit :
      (String → CacheItem V → Cache V → Cache V) → (ℕ → ℕ) → ℕ → List String → Cache V → Cache V
  visit callback clock i [] c = c
  visit callback clock i (key ∷ keys) c =
      let (c', found) = get c key (clock i) (clock (suc i)) in
      visit callback clock (suc (suc i)) keys (elim found [
        | none ↦ c'
        | some value ↦ callback key (record { value = value; expiration = 0; seq = 0 }) c'
      ])

  unfoldable pub get_all : (String → CacheItem V → Cache V → Cache V) → (ℕ → ℕ) → Cache V → Cache V
  unfolding visit
  get_all callback clock c = visit callback clock 0 (map (λ e. e.0) c.items) c
