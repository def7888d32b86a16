-- ===== src/Cache/Ttl/Heap.antt =====
-- The expiry queue of cache/memcachettl/memCacheTTL.go: `expireHeap` with container/heap's `Push`
-- and `Pop`. Of container/heap the code uses that the root is a least entry by `Less`; the queue is
-- kept in that order, so its head is the root.
use arcella_lib.Prelude.{
  ℕ, ◌≤◌, String, ◌≡◌, Bool, true, false, ◌&&◌, ◌||◌, List, [], ◌∷◌, arith, ltb, ◌==◌,
  if◌then◌else◌,
}
use arcella_lib.Prelude.Dict.{string_eq}

pub record ExpireItem : Type 0 where
  pub key : String
  pub expiry : ℕ
  pub seq : ℕ

-- `h[i].expiry.Before(h[j].expiry)`
unfoldable pub less : ExpireItem → ExpireItem → Bool
less a b = ltb a.expiry b.expiry

unfoldable pub push : ExpireItem → List ExpireItem → List ExpireItem
unfolding less
push it [] = it ∷ []
push it (x ∷ h) = if less it x then it ∷ x ∷ h else x ∷ push it h

-- The test by which a queue entry is recognised as that of a stored item.
abbrev pub is_entry : String → ℕ → ℕ → ExpireItem → Bool
is_entry key expiry seq it = string_eq.beq it.key key && it.seq == seq && it.expiry == expiry

abbrev pub has_entry : String → ℕ → ℕ → List ExpireItem → Bool
has_entry key expiry seq [] = false
has_entry key expiry seq (it ∷ h) = is_entry key expiry seq it || has_entry key expiry seq h

-- No entry expires before `n`.
abbrev pub From : ℕ → List ExpireItem → Type 0
From n [] = Unit {0}
From n (it ∷ h) = (n ≤ it.expiry) × From n h

abbrev pub IsQueue : List ExpireItem → Type 0
IsQueue [] = Unit {0}
IsQueue (it ∷ h) = From it.expiry h × IsQueue h

pub From-mono : (n m : ℕ) (h : List ExpireItem) → n ≤ m → From m h → From n h
From-mono n m [] le f = tt
From-mono n m (it ∷ h) le f = (omega arith, From-mono n m h le f.1)

From-push :
    (n : ℕ) (it : ExpireItem) (h : List ExpireItem) → n ≤ it.expiry → From n h → From n (push it h)
unfolding push
From-push n it [] le f = (le, tt)
From-push n it (x ∷ h) le f = ground (arith, From-push n it h)

pub push-IsQueue : (it : ExpireItem) (h : List ExpireItem) → IsQueue h → IsQueue (push it h)
unfolding push
push-IsQueue it [] q = (tt, tt)
push-IsQueue it (x ∷ h) q =
    ground (arith, push-IsQueue it h, From-push x.expiry it h, From-mono it.expiry x.expiry h)

pub has_entry-push :
    (key : String) (expiry seq : ℕ) (it : ExpireItem) (h : List ExpireItem)
    → has_entry key expiry seq (push it h)
      ≡ (is_entry key expiry seq it || has_entry key expiry seq h)
unfolding push
has_entry-push key expiry seq it [] = ground arith
has_entry-push key expiry seq it (x ∷ h) = ground (arith, has_entry-push key expiry seq it h)

-- An entry of a queue that starts at `n` expires at `n` or later.
pub has_entry-From :
    (n : ℕ) (key : String) (expiry seq : ℕ) (h : List ExpireItem)
    → From n h
    → has_entry key expiry seq h ≡ true
    → n ≤ expiry
has_entry-From n key expiry seq [] f e = cc
has_entry-From n key expiry seq (it ∷ h) f e = ground (arith, has_entry-From n key expiry seq h f.1)
