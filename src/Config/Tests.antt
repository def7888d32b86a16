-- ===== src/Config/Tests.antt =====
-- A small configuration, loaded from a file with an encrypted text.
use arcella_lib.Prelude.Int.{pos}
use arcella_lib.Prelude.Text.{codes, text_eq}
use arcella_lib.Prelude.Parse.{parse_int, digits_from, parse_bool}
use arcella_lib.Crypt.Jasypt.{Ciphers, IsCbc}
use arcella_lib.Config.{Tag, System, new_decoder}
use arcella_lib.Config.Walk.{
  Fields, field, end, text, int, bool, struct, slice, cons, nil, modify_value,
}
use arcella_lib.Config.Loading.{Files, load, config_file}
use arcella_lib.Config.Secrets
use arcella_lib.Config.Secrets.{seal, secured, secured_fields}
use arcella_lib.Prelude.{
  ◌==◌, ◌∷◌, ◌≡◌, if◌then◌else◌, replicate, arith, inr, [], List, some, none, false, true, refl, ℕ,
}

abbrev ciphers : Ciphers
ciphers = record { md5 = λ s. replicate 16 7; encrypt = λ key iv s. s; decrypt = λ key iv s. s }

ciphers-IsCbc : IsCbc ciphers
ciphers-IsCbc = record {
  length_encrypt = λ key iv s. refl;
  bytes_encrypt = λ key iv s h. h;
  inverse = λ key iv s h. refl;
}

abbrev variables : List ℕ → List ℕ
variables name =
    if text_eq name (codes "JASYPT_PASSWORD")
    then codes "pw"
    else if text_eq name (codes "PORT")
    then codes "300"
    else []

abbrev sys : System
sys = record {
  getenv = variables;
  parse_float = λ s. none;
  is_zero_float = λ f. f == 0;
  narrow = λ f. f;
  parse_duration = λ s. none;
}

abbrev untagged : Tag
untagged = record { default = none; env = none }

-- a variable of the environment wins over the file, and is cut to the width of the field
port_cut :
    modify_value sys
      (λ s. none)
      (int 8 (pos 5))
      (record { default = some (codes "7"); env = some (codes "PORT") })
    ≡ int 8 (pos 44)
unfolding modify_value parse_int digits_from
port_cut = refl

-- `false` in the file counts as not given
bool_default :
    modify_value sys (λ s. none) (bool false) (record { default = some (codes "true"); env = none })
    ≡ bool true
unfolding modify_value parse_bool
bool_default = refl

abbrev plain : Fields
plain =
    field (record { default = some (codes "root"); env = some (codes "USER") }) (text (codes "bob"))
      (field (record { default = some (codes "80"); env = none }) (int 64 (pos 90))
        (field untagged (struct (field untagged (slice (cons (text []) nil)) end)) end))

abbrev salt : List ℕ
salt = 1 ∷ 2 ∷ 3 ∷ 4 ∷ 5 ∷ 6 ∷ 7 ∷ 8 ∷ []

abbrev files : Files
files = record {
  exists = λ name. true;
  read = λ name. some [];
  unmarshal = λ yaml cfg. (secured_fields (seal ciphers (new_decoder variables) salt) plain, true);
}

load-secured_example :
    load sys ciphers files (codes "-v" ∷ codes "cfg=a.yml" ∷ []) (codes "/bin") end ≡ (plain, true)
unfolding config_file
load-secured_example =
    Secrets.load-secured sys ciphers ciphers-IsCbc files (codes "-v" ∷ codes "cfg=a.yml" ∷ [])
      (codes "/bin") (codes "a.yml") [] salt end plain (omega arith) refl refl (λ e. cc) refl refl
      refl
      (
        (refl, omega arith),
        ((tt, inr refl, (omega arith, omega arith)), ((((tt, tt), tt), tt), tt)),
      )
