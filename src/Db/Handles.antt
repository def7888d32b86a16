-- ===== src/Db/Handles.antt =====
-- db: the handles of a driver that are open, with what opens and closes them.
use arcella_lib.Prelude.{
  ◌==◌, ◌++◌, ◌∷◌, ◌≢◌, ◌≡◌, if◌then◌else◌, arith, [], List, some, none, Option, refl, ℕ,
}

abbrev pub with_made : Option ℕ → List ℕ → List ℕ
with_made none handles = handles
with_made (some p) handles = p ∷ handles

unfoldable pub without : ℕ → List ℕ → List ℕ
without p [] = []
without p (q ∷ qs) = let rest = without p qs in if q == p then rest else q ∷ rest

-- the handle that is held is closed
abbrev pub closed : Option ℕ → List ℕ → List ℕ
closed none handles = handles
closed (some p) handles = without p handles

pub closed_held : (o : Option ℕ) → closed o (with_made o []) ≡ []
unfolding without
closed_held none = refl
closed_held (some p) = ground arith

pub without_first : (p q : ℕ) → p ≢ q → without q (q ∷ p ∷ []) ≡ p ∷ []
unfolding without
without_first p q ne = ground arith

-- a call on a driver
pub data Action : Type 0 where
  opens closes : ℕ → Action

unfoldable pub after : List Action → List ℕ → List ℕ
unfolding without
after [] handles = handles
after (opens p ∷ xs) handles = after xs (p ∷ handles)
after (closes p ∷ xs) handles = after xs (without p handles)

pub after-append :
    (xs ys : List Action) (handles : List ℕ)
    → after (xs ++ ys) handles ≡ after ys (after xs handles)
unfolding after
after-append [] ys handles = refl
after-append (opens p ∷ xs) ys handles = after-append xs ys (p ∷ handles)
after-append (closes p ∷ xs) ys handles = after-append xs ys (without p handles)

-- the call that closes what is held
abbrev pub closing : Option ℕ → List Action
closing none = []
closing (some p) = closes p ∷ []

pub after-closing : (o : Option ℕ) → after (closing o) (with_made o []) ≡ []
unfolding after
after-closing none = refl
after-closing (some p) = closed_held (some p)
