-- ===== src/Db/Bolt/Keys.antt =====
-- db/bbolt/etcdBBolt.go: the keys that Itob makes of sequence numbers, in the order of bytes.Compare.
use arcella_lib.Utils.Uuid.{put_uint64}
use arcella_lib.Prelude.{
  ◌≤◌, ◌%◌, ◌/◌, ◌==◌, ◌∷◌, ◌≡◌, ◌<◌, ◌^◌, if◌then◌else◌, ltb, arith, [], List, false, true, Bool,
  ℕ,
}

-- bytes.Compare(a, b) < 0
unfoldable pub less : List ℕ → List ℕ → Bool
less [] [] = false
less [] (y ∷ ys) = true
less (x ∷ xs) [] = false
less (x ∷ xs) (y ∷ ys) = let rest = less xs ys in if x == y then rest else ltb x y

-- `Itob`
unfoldable pub itob : ℕ → List ℕ
unfolding put_uint64
itob v = put_uint64 v

-- One byte of two numbers that agree above it.
less_step :
    (a b : ℕ) (xs ys : List ℕ)
    → a ≤ b
    → a / 256 ≡ b / 256
    → (a ≡ b → less xs ys ≡ true)
    → less (a % 256 ∷ xs) (b % 256 ∷ ys) ≡ true
unfolding less
less_step a b xs ys le above inner = ground arith

-- The bytes of a smaller number come first.
pub less-itob : (a b : ℕ) → a < b → b < 2 ^ 64 → less (itob a) (itob b) ≡ true
unfolding itob put_uint64
less-itob a b lt fits = less_step (a / 2 ^ 56) (b / 2 ^ 56) _ _ (omega arith) (omega arith) (λ e7.
    less_step (a / 2 ^ 48) (b / 2 ^ 48) _ _ (omega arith) (omega arith) (λ e6.
      less_step (a / 2 ^ 40) (b / 2 ^ 40) _ _ (omega arith) (omega arith) (λ e5.
        less_step (a / 2 ^ 32) (b / 2 ^ 32) _ _ (omega arith) (omega arith) (λ e4.
          less_step (a / 2 ^ 24) (b / 2 ^ 24) _ _ (omega arith) (omega arith) (λ e3.
            less_step (a / 2 ^ 16) (b / 2 ^ 16) _ _ (omega arith) (omega arith) (λ e2.
              less_step (a / 2 ^ 8) (b / 2 ^ 8) _ _ (omega arith) (omega arith) (λ e1.
                less_step a b [] [] (omega arith) (omega arith) (λ e0. absurd (omega arith)))))))))
