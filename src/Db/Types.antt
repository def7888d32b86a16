-- ===== src/Db/Types.antt =====
-- db/types: values that a database may leave out. A float is the number of its bits, a time is an
-- instant; conversions and parsing of the two are parameters.
use arcella_lib.Prelude.Int.{ℤ}
use arcella_lib.Prelude.{
  ◌==◌, ◌∷◌, ◌≡◌, if◌then◌else◌, arith, [], List, some, none, Option, not, false, true, Bool, refl,
  ℕ,
}

-- what a driver hands over or takes: nil, and the Go types that it may have
pub data DriverValue : Type 0 where
  null : DriverValue
  text : List ℕ → DriverValue
  bytes : List ℕ → DriverValue
  int64 : ℤ → DriverValue
  float64 : ℕ → DriverValue
  time : ℕ → DriverValue
  other : DriverValue

-- the receiver after a scan, and whether the error is nil
abbrev pub Scanned : Type 0 → Type 0
Scanned A = A × Bool

-- `BitBool`
abbrev pub first_is_one : Bool → List ℕ → Scanned Bool
first_is_one old [] = (old, false)
first_is_one old (b ∷ v) = (b == 1, true)

unfoldable pub scan_bit : Bool → DriverValue → Scanned Bool
scan_bit old null = (false, true)
scan_bit old (bytes v) = first_is_one old v
scan_bit old _ = (old, false)

unfoldable pub value_bit : Bool → DriverValue
value_bit true = bytes (1 ∷ [])
value_bit false = bytes (0 ∷ [])

pub record NullString : Type 0 where
  pub val : List ℕ
  pub valid : Bool

unfoldable pub scan_string : NullString → DriverValue → Scanned NullString
scan_string old null = (record { val = []; valid = false }, true)
scan_string old (text v) = (record { val = v; valid = true }, true)
scan_string old (bytes v) = (record { val = v; valid = true }, true)
scan_string old _ = (old, false)

unfoldable pub value_string : NullString → DriverValue
value_string nt = if not nt.valid then null else text nt.val

unfoldable pub valid_value : NullString → List ℕ
valid_value nt = if not nt.valid then [] else nt.val

pub record NullFloat64 : Type 0 where
  pub value : ℕ
  pub valid : Bool

pub record NullTime : Type 0 where
  pub instant : ℕ
  pub valid : Bool

-- `float64(i)`, `strconv.ParseFloat`, and `time.Parse` with the two layouts
pub record Conversions : Type 0 where
  pub of_int64 : ℤ → ℕ
  pub parse_float : List ℕ → Option ℕ
  pub parse_rfc3339 : List ℕ → Option ℕ
  pub parse_date_time : List ℕ → Option ℕ

module _ (c : Conversions) where
  abbrev pub parsed_float : NullFloat64 → Option ℕ → Scanned NullFloat64
  parsed_float old none = (old, false)
  parsed_float old (some f) = (record { value = f; valid = true }, true)

  unfoldable pub scan_float : NullFloat64 → DriverValue → Scanned NullFloat64
  scan_float old null = (record { value = 0; valid = false }, true)
  scan_float old (float64 f) = (record { value = f; valid = true }, true)
  scan_float old (int64 i) = (record { value = c.of_int64 i; valid = true }, true)
  scan_float old (bytes v) = parsed_float old (c.parse_float v)
  scan_float old _ = (old, false)

  -- the first layout that fits
  abbrev pub parsed_time : NullTime → Option ℕ → Option ℕ → Scanned NullTime
  parsed_time old (some t) second = (record { instant = t; valid = true }, true)
  parsed_time old none (some t) = (record { instant = t; valid = true }, true)
  parsed_time old none none = (old, false)

  unfoldable pub scan_time : NullTime → DriverValue → Scanned NullTime
  scan_time old null = (record { instant = 0; valid = false }, true)
  scan_time old (time t) = (record { instant = t; valid = true }, true)
  scan_time old (text s) = parsed_time old (c.parse_rfc3339 s) (c.parse_date_time s)
  scan_time old (bytes s) = parsed_time old (c.parse_rfc3339 s) (c.parse_date_time s)
  scan_time old _ = (old, false)

unfoldable pub value_float : NullFloat64 → DriverValue
value_float nt = if not nt.valid then null else float64 nt.value

unfoldable pub value_time : NullTime → DriverValue
value_time nt = if not nt.valid then null else time nt.instant

-- A value that is left out counts as the zero one.
abbrev pub IsNormal : NullString → NullFloat64 → NullTime → Type 0
IsNormal s f t =
    (s.valid ≡ false → s.val ≡ [])
    × (f.valid ≡ false → f.value ≡ 0)
    × (t.valid ≡ false → t.instant ≡ 0)

-- Whatever the receivers hold, scanning what Value gives to the driver reads the value back: a bit, and
-- a text, a float and a time, present or left out.
pub scan-value :
    (c : Conversions) (b old_b : Bool) (s old_s : NullString) (f old_f : NullFloat64)
    (t old_t : NullTime)
    → IsNormal s f t
    → (scan_bit old_b (value_bit b) ≡ (b, true))
      × (scan_string old_s (value_string s) ≡ (s, true))
      × (scan_float c old_f (value_float f) ≡ (f, true))
      × (scan_time c old_t (value_time t) ≡ (t, true))
unfolding scan_bit value_bit scan_string value_string scan_float value_float scan_time value_time
scan-value c b old_b s old_s f old_f t old_t h = (bit b, ground arith, ground arith, ground arith)
  where
    bit : (b : Bool) → scan_bit old_b (value_bit b) ≡ (b, true)
    bit true = refl
    bit false = refl
