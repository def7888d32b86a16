-- ===== src/Config/Settled.antt =====
-- app/v3/config/basic/config.go: values that neither a variable nor a default replaces.
use arcella_lib.Prelude.Text.{text_eq_iff, AllBytes}
use native.Mathlib.Nat.{mod-eq_of_lt}
use arcella_lib.Prelude.Int.{ℤ, pos, negsuc}
use arcella_lib.Config.{Tag, System, wrap_int, is_zero_int, defaulted, from_env}
use arcella_lib.Config.Walk.{
  Value, text, int, uint, float32, float64, bool, nil_ptr, ptr, nil_slice, slice, array, nil_map,
  dict, struct, opaque, Items, nil, cons, Entries, last, entry, Fields, end, field,
}
use arcella_lib.Prelude.{
  suc, zero, not, ◌<◌, ◌^◌, ◌+◌, ◌-◌, ◌==◌, ◌∙◌, ◌⊎◌, ◌≡◌, Option-cases, arith, inr, inl, [], List,
  some, none, Option, false, Bool, refl, ℕ,
}

-- an integer of `w` bits
abbrev pub IsInt : ℕ → ℤ → Type 0
IsInt w (pos n) = (0 < w) × (n < 2 ^ (w - 1))
IsInt w (negsuc n) = (0 < w) × (n < 2 ^ (w - 1))

doubled : (w : ℕ) → 0 < w → 2 ^ w ≡ 2 ^ (w - 1) + 2 ^ (w - 1)
doubled zero lt = absurd (omega arith)
doubled (suc k) lt = let e : suc k - 1 ≡ k = omega arith in rw e (omega arith)

pub wrap_int_lem : (w : ℕ) (i : ℤ) → IsInt w i → wrap_int w i ≡ i
unfolding wrap_int
wrap_int_lem w (pos n) (lt, fits) =
    ground (arith, doubled w lt, mod-eq_of_lt {n = n} {m = 2 ^ w} (omega (arith, doubled w lt)))
wrap_int_lem w (negsuc n) (lt, fits) =
    ground (arith, doubled w lt, mod-eq_of_lt {n = n} {m = 2 ^ w} (omega (arith, doubled w lt)))

module _ (sys : System) where
  -- No variable is set for the tag.
  abbrev pub Silent : Tag → Type 0
  Silent tag = elim tag.env as (λ _. Type 0) [
    | none ↦ Unit {0}
    | some env_name ↦ sys.getenv env_name ≡ []
  ]

  -- no default stands for the value
  abbrev pub Given : Tag → Bool → Type 0
  Given tag is_zero = (tag.default ≡ none) ⊎ (is_zero ≡ false)

  from_env-Silent :
      {A : Type 0} (parse : List ℕ → Option A) (o : Option (List ℕ)) (val : A)
      → Silent (record { default = none; env = o })
      → from_env parse sys.getenv o val ≡ val
  from_env-Silent parse none val h = refl
  from_env-Silent parse (some env_name) val h = ground (arith, text_eq_iff (sys.getenv env_name) [])

  defaulted-Given :
      {A : Type 0} (parse : List ℕ → Option A) (tag : Tag) (is_zero : Bool) (val : A)
      → Given tag is_zero
      → defaulted parse tag.default is_zero val ≡ val
  defaulted-Given parse tag is_zero val (inl absent) = rw absent refl
  defaulted-Given parse tag is_zero val (inr nonzero) = elim (Option-cases tag.default) [
    | inl absent ↦ rw absent refl
    | inr (d, present) ↦ rw (present, nonzero) refl
  ]

  pub unchanged :
      {A : Type 0} (from parse : List ℕ → Option A) (tag : Tag) (is_zero : Bool) (val : A)
      → Silent tag
      → Given tag is_zero
      → from_env from sys.getenv tag.env (defaulted parse tag.default is_zero val) ≡ val
  unchanged from parse tag is_zero val quiet given =
      from_env-Silent from tag.env (defaulted parse tag.default is_zero val) quiet
      ∙ defaulted-Given parse tag is_zero val given

  -- What holds of each value but the texts: no variable is set for it, no default stands for it, and
  -- its number fits its width. A text is made of bytes, and no variable is set for it.
  abbrev mutual
    pub Settled : Value → Tag → Type 0
    Settled (text s) tag = Silent tag × AllBytes s
    Settled (int w i) tag = Silent tag × Given tag (is_zero_int i) × IsInt w i
    Settled (uint w n) tag = Silent tag × Given tag (n == 0) × (n < 2 ^ w)
    Settled (float32 f) tag = Silent tag × Given tag (sys.is_zero_float f) × (sys.narrow f ≡ f)
    Settled (float64 f) tag = Silent tag × Given tag (sys.is_zero_float f)
    Settled (bool b) tag = Silent tag × Given tag (not b)
    Settled nil_ptr tag = Unit {0}
    Settled (ptr v) tag = Settled v tag
    Settled nil_slice tag = Unit {0}
    Settled (slice vs) tag = SettledItems vs tag
    Settled (array vs) tag = SettledItems vs tag
    Settled nil_map tag = Unit {0}
    Settled (dict es) tag = SettledEntries es tag
    Settled (struct fs) tag = SettledFields fs
    Settled (opaque x) tag = Unit {0}

    pub SettledItems : Items → Tag → Type 0
    SettledItems nil tag = Unit {0}
    SettledItems (cons v vs) tag = Settled v tag × SettledItems vs tag

    pub SettledEntries : Entries → Tag → Type 0
    SettledEntries last tag = Unit {0}
    SettledEntries (entry k v es) tag = Settled v tag × SettledEntries es tag

    pub SettledFields : Fields → Type 0
    SettledFields end = Unit {0}
    SettledFields (field tag v fs) = Settled v tag × SettledFields fs
