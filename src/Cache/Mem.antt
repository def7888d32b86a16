-- ===== src/Cache/Mem.antt =====
-- cache/memcache/memCache.go: a map that never evicts. A call runs under the lock, so it is one
-- step; a stored pointer is the value it points to, since `Set` stores the address of its own copy.
use arcella_lib.Prelude.{◌≡◌, Bool, true, false, Option, none, some, [], arith, if◌then◌else◌}
use arcella_lib.Prelude.Dict
use arcella_lib.Prelude.Dict.{Dict, Eq, lookup-insert, lookup-remove}

pub record Cache {ℓ κ} (K : Type ℓ) (V : Type κ) : Type (ℓ ⊔ κ) where
  pub items : Dict K V

pub new_cache {ℓ κ} : {K : Type ℓ} {V : Type κ} → Cache K V
new_cache = record { items = [] }

-- `val, exists := c.items[key]` and the two returns
pub found {ℓ} : {V : Type ℓ} → Option V → Option V × Bool
found none = (none, false)
found (some v) = (some v, true)

module _ {ℓ κ} {K : Type ℓ} {V : Type κ} ⦃e : Eq K⦄ where
  unfoldable pub get : Cache K V → K → Option V × Bool
  unfolding found
  get c key = found (Dict.lookup key c.items)

  unfoldable pub set : Cache K V → K → V → Cache K V
  set c key value = record c { items = Dict.insert key value c.items }

  unfoldable pub del : Cache K V → K → Cache K V
  del c key = record c { items = Dict.remove key c.items }

  -- After `Set` of one key, `Get` returns the new value for it, and for any other key what it
  -- returned before.
  pub get-set :
      (c : Cache K V) (k j : K) (v : V)
      → get (set c k v) j ≡ (if e.beq k j then (some v, true) else get c j)
  unfolding get set
  get-set c k j v = rw lookup-insert (ground arith)

  -- After `Del` of one key, `Get` misses it, and returns for any other key what it returned before.
  pub get-del :
      (c : Cache K V) (k j : K) → get (del c k) j ≡ (if e.beq k j then (none, false) else get c j)
  unfolding get del
  get-del c k j = rw lookup-remove (ground arith)
