-- ===== src/Config.antt =====
-- app/v3/config/basic/config.go and encoder.go. A configuration is a tree of values; the fields of its
-- structs are exported, and its strings and Booleans have Go's own types. A float is the number of its
-- bits. Environment, parsing of floats and durations, files and YAML are parameters.
pub mod Walk
pub mod Loading
pub mod Settled
pub mod Secrets
mod Tests
use arcella_lib.Prelude.Text.{codes, text_eq, has_prefix}
use arcella_lib.Prelude.Int.{ℤ, pos, negsuc, leb_int}
use arcella_lib.Prelude.Parse.{parse_int, parse_uint, parse_bool}
use arcella_lib.Crypt.Jasypt.{Ciphers, decrypt}
use arcella_lib.Prelude.{
  ◌==◌, ◌&&◌, ◌∷◌, ◌^◌, ◌%◌, ◌-◌, if◌then◌else◌, ltb, drop, take, length, [], List, some, none,
  Option, not, false, Bool, suc, ℕ,
}

-- the tags `default` and `env` of a field
pub record Tag : Type 0 where
  pub default : Option (List ℕ)
  pub env : Option (List ℕ)

-- `os.Getenv`, `strconv.ParseFloat` with 64 bits, the zero test of floats, the conversion to 32 bits
-- and back, and `time.ParseDuration` in nanoseconds
pub record System : Type 0 where
  pub getenv : List ℕ → List ℕ
  pub parse_float : List ℕ → Option ℕ
  pub is_zero_float : ℕ → Bool
  pub narrow : ℕ → ℕ
  pub parse_duration : List ℕ → Option ℤ

abbrev pub or_else {ℓ} : {A : Type ℓ} → Option A → A → A
or_else none val = val
or_else (some a) val = a

module _ {ℓ} {A : Type ℓ} where
  -- the tag `default`, which stands for a value that is zero
  abbrev pub defaulted : (List ℕ → Option A) → Option (List ℕ) → Bool → A → A
  defaulted parse none is_zero val = val
  defaulted parse (some def_value) is_zero val =
      if is_zero then or_else (parse def_value) val else val

  -- the tag `env`; a variable that is unset counts as empty
  abbrev pub from_env : (List ℕ → Option A) → (List ℕ → List ℕ) → Option (List ℕ) → A → A
  from_env parse getenv none val = val
  from_env parse getenv (some env_name) val =
      if text_eq (getenv env_name) [] then val else or_else (parse (getenv env_name)) val

abbrev pub ends_with : ℕ → List ℕ → Bool
ends_with c [] = false
ends_with c (x ∷ []) = x == c
ends_with c (x ∷ y ∷ s) = ends_with c (y ∷ s)

abbrev pub encoded_prefix : List ℕ
encoded_prefix = codes "ENC("

-- `iterations` and `password` of a `CryptDecoder`
pub record CryptDecoder : Type 0 where
  pub password : List ℕ
  pub iterations : ℕ

abbrev pub atoi_positive : Option ℤ → ℕ → ℕ
atoi_positive (some (pos (suc n))) default = suc n
atoi_positive _ default = default

-- `NewDecoder`
unfoldable pub new_decoder : (List ℕ → List ℕ) → CryptDecoder
unfolding parse_int
new_decoder getenv = record {
  password = getenv (codes "JASYPT_PASSWORD");
  iterations =
      let v = getenv (codes "JASYPT_ITERATIONS") in
      if text_eq v [] then 1000 else atoi_positive (parse_int v) 1000;
}

-- `Decode`
unfoldable pub decode : Ciphers → CryptDecoder → List ℕ → Option (List ℕ)
unfolding decrypt
decode c cd plain_text = decrypt c cd.password cd.iterations plain_text

-- two's complement at `w` bits, as `Convert` cuts it
abbrev pub signed : ℕ → ℕ → ℤ
signed w m = if ltb m (2 ^ (w - 1)) then pos m else negsuc (2 ^ w - m - 1)

unfoldable pub wrap_int : ℕ → ℤ → ℤ
wrap_int w (pos n) = signed w (n % 2 ^ w)
wrap_int w (negsuc n) = signed w (2 ^ w - 1 - n % 2 ^ w)

abbrev pub is_zero_int : ℤ → Bool
is_zero_int (pos n) = n == 0
is_zero_int (negsuc n) = false

-- `ParseInt`, or else a duration
abbrev pub int_or_duration : Option ℤ → Option ℤ → Option ℤ
int_or_duration none duration = duration
int_or_duration (some n) duration = some n

module _ (sys : System) (decoder : List ℕ → Option (List ℕ)) where
  -- the inside of `ENC(...)`, decoded; what cannot be decoded stays as it is
  abbrev pub revealed : List ℕ → List ℕ
  unfolding has_prefix
  revealed val =
      if has_prefix encoded_prefix val && ends_with b')' val
      then or_else (decoder (take (length val - 1 - 4) (drop 4 val))) val
      else val

  unfoldable pub process_string : List ℕ → Tag → List ℕ
  unfolding has_prefix
  process_string val tag =
      revealed (from_env some sys.getenv tag.env (defaulted some tag.default (text_eq val []) val))

  unfoldable pub process_int : ℤ → Tag → ℤ
  unfolding parse_int
  process_int val tag = from_env parse_int sys.getenv tag.env (
      defaulted (λ s. int_or_duration (parse_int s) (sys.parse_duration s)) tag.default
        (is_zero_int val) val)

  unfoldable pub process_uint : ℕ → Tag → ℕ
  unfolding parse_uint
  process_uint val tag =
      from_env parse_uint sys.getenv tag.env (defaulted parse_uint tag.default (val == 0) val)

  unfoldable pub process_float : ℕ → Tag → ℕ
  process_float val tag =
      from_env sys.parse_float sys.getenv tag.env
        (defaulted sys.parse_float tag.default (sys.is_zero_float val) val)

  unfoldable pub process_bool : Bool → Tag → Bool
  unfolding parse_bool
  process_bool val tag =
      from_env parse_bool sys.getenv tag.env (defaulted parse_bool tag.default (not val) val)
