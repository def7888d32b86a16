-- ===== src/Config/Secrets.antt =====
-- app/v3/config/basic/config.go: a configuration whose texts are encrypted.
use mathlib.Core.Path.{ap₂}
use arcella_lib.Prelude.Text.{has_prefix, AllBytes}
use native.Mathlib.Nat.{mod-eq_of_lt}
use arcella_lib.Crypt.Jasypt.{Ciphers, IsCbc, encrypt, decrypt-encrypt}
use arcella_lib.Config.{
  Tag, CryptDecoder, decode, revealed, process_string, process_int, process_uint, process_float,
  process_bool, wrap_int, is_zero_int, int_or_duration, System, encoded_prefix, ends_with,
}
use arcella_lib.Config.Settled.{
  Silent, Settled, SettledItems, SettledEntries, SettledFields, unchanged, wrap_int_lem,
}
use arcella_lib.Prelude.Parse.{parse_int, parse_uint, parse_bool}
use arcella_lib.Config.{new_decoder, CryptDecoder}
use arcella_lib.Config.Loading.{Files, load, config_file}
use arcella_lib.Prelude.Text.{text_eq, text_eq_iff}
use arcella_lib.Config.Walk.{
  Value, text, int, uint, float32, float64, bool, nil_ptr, ptr, nil_slice, slice, array, nil_map,
  dict, struct, opaque, Items, nil, cons, Entries, last, entry, Fields, end, field, modify_value,
  modify_items, modify_entries, modify_fields,
}
use arcella_lib.Prelude.{
  ◌&&◌, ◌≢◌, length, not, ap, length-append, take-append_left, ◌^◌, ◌-◌, ◌%◌, ◌==◌, ◌∙◌, ◌++◌, ◌∷◌,
  ◌≡◌, arith, inr, [], List, some, Option, false, true, refl, ℕ,
}

-- ENC(...)
abbrev pub enclosed : List ℕ → List ℕ
enclosed s = encoded_prefix ++ (s ++ (b')' ∷ []))

-- the tree with each text encrypted
module _ (crypt : List ℕ → List ℕ) where
  unfoldable mutual
    pub secured : Value → Value
    secured (text s) = text (enclosed (crypt s))
    secured (ptr v) = ptr (secured v)
    secured (slice vs) = slice (secured_items vs)
    secured (array vs) = array (secured_items vs)
    secured (dict es) = dict (secured_entries es)
    secured (struct fs) = struct (secured_fields fs)
    secured (int w i) = int w i
    secured (uint w n) = uint w n
    secured (float32 f) = float32 f
    secured (float64 f) = float64 f
    secured (bool b) = bool b
    secured nil_ptr = nil_ptr
    secured nil_slice = nil_slice
    secured nil_map = nil_map
    secured (opaque x) = opaque x

    pub secured_items : Items → Items
    secured_items nil = nil
    secured_items (cons v vs) = cons (secured v) (secured_items vs)

    pub secured_entries : Entries → Entries
    secured_entries last = last
    secured_entries (entry k v es) = entry k (secured v) (secured_entries es)

    pub secured_fields : Fields → Fields
    secured_fields end = end
    secured_fields (field tag v fs) = field tag (secured v) (secured_fields fs)

-- `Encrypt` with the password and the iterations of the decoder
abbrev pub seal : Ciphers → CryptDecoder → List ℕ → List ℕ → List ℕ
seal c cd salt s = encrypt c cd.password cd.iterations s salt

ends_with-append : (s : List ℕ) (c : ℕ) → ends_with c (s ++ (c ∷ [])) ≡ true
ends_with-append [] c = ground arith
ends_with-append (x ∷ []) c = ground arith
ends_with-append (x ∷ y ∷ s) c = ends_with-append (y ∷ s) c

module _ (sys : System) where
  module _ (decoder : List ℕ → Option (List ℕ)) where
    revealed-enclosed : (c s : List ℕ) → decoder c ≡ some s → revealed sys decoder (enclosed c) ≡ s
    unfolding revealed has_prefix
    revealed-enclosed c s e =
        let size : length (enclosed c) - 1 - 4 ≡ length c =
          omega (arith, length-append c (b')' ∷ [])) in
        rw (ends_with-append (encoded_prefix ++ c) b')', size, take-append_left c (b')' ∷ []), e)
          refl

    process_string-enclosed :
        (c s : List ℕ) (tag : Tag)
        → Silent sys tag
        → decoder c ≡ some s
        → process_string sys decoder (enclosed c) tag ≡ s
    unfolding process_string
    process_string-enclosed c s tag quiet e =
        ap (revealed sys decoder) (unchanged sys some some tag false (enclosed c) quiet (inr refl))
        ∙ revealed-enclosed c s e

  module _ (c : Ciphers) (h : IsCbc c) (cd : CryptDecoder) (salt : List ℕ) where
    module _ (salted : AllBytes salt) (eight : length salt ≡ 8) where
      decode-seal : (s : List ℕ) → AllBytes s → decode c cd (seal c cd salt s) ≡ some s
      unfolding decode
      decode-seal s bytes = decrypt-encrypt c h cd.password s salt cd.iterations bytes salted eight

      mutual
        unfolding secured modify_value process_int process_uint process_float process_bool

        modify_value_lem :
            (v : Value) (tag : Tag)
            → Settled sys v tag
            → modify_value sys (decode c cd) (secured (seal c cd salt) v) tag ≡ v
        modify_value_lem (text s) tag (quiet, bytes) = ap text (
            process_string-enclosed (decode c cd) (seal c cd salt s) s tag quiet
              (decode-seal s bytes))
        modify_value_lem (int w i) tag (quiet, given, fits) = ap (int w) (
            ap (wrap_int w) (
              unchanged sys parse_int (λ s. int_or_duration (parse_int s) (sys.parse_duration s))
                tag (is_zero_int i) i quiet given)
            ∙ wrap_int_lem w i fits)
        modify_value_lem (uint w n) tag (quiet, given, fits) = ap (uint w) (
            ap (λ (m : ℕ). m % 2 ^ w)
              (unchanged sys parse_uint parse_uint tag (n == 0) n quiet given)
            ∙ mod-eq_of_lt fits)
        modify_value_lem (float32 f) tag (quiet, given, fits) = ap float32 (
            ap sys.narrow (
              unchanged sys sys.parse_float sys.parse_float tag (sys.is_zero_float f) f quiet given)
            ∙ fits)
        modify_value_lem (float64 f) tag (quiet, given) =
            ap float64 (
              unchanged sys sys.parse_float sys.parse_float tag (sys.is_zero_float f) f quiet given)
        modify_value_lem (bool b) tag (quiet, given) =
            ap bool (unchanged sys parse_bool parse_bool tag (not b) b quiet given)
        modify_value_lem nil_ptr tag h = refl
        modify_value_lem (ptr v) tag h = ap ptr (modify_value_lem v tag h)
        modify_value_lem nil_slice tag h = refl
        modify_value_lem (slice vs) tag h = ap slice (modify_items_lem vs tag h)
        modify_value_lem (array vs) tag h = ap array (modify_items_lem vs tag h)
        modify_value_lem nil_map tag h = refl
        modify_value_lem (dict es) tag h = ap dict (modify_entries_lem es tag h)
        modify_value_lem (struct fs) tag h = ap struct (modify_fields_lem fs h)
        modify_value_lem (opaque x) tag h = refl

        modify_items_lem :
            (vs : Items) (tag : Tag)
            → SettledItems sys vs tag
            → modify_items sys (decode c cd) (secured_items (seal c cd salt) vs) tag ≡ vs
        modify_items_lem nil tag h = refl
        modify_items_lem (cons v vs) tag (first, others) =
            ap₂ cons (modify_value_lem v tag first) (modify_items_lem vs tag others)

        modify_entries_lem :
            (es : Entries) (tag : Tag)
            → SettledEntries sys es tag
            → modify_entries sys (decode c cd) (secured_entries (seal c cd salt) es) tag ≡ es
        modify_entries_lem last tag h = refl
        modify_entries_lem (entry k v es) tag (first, others) =
            ap₂ (entry k) (modify_value_lem v tag first) (modify_entries_lem es tag others)

        modify_fields_lem :
            (fs : Fields)
            → SettledFields sys fs
            → modify_fields sys (decode c cd) (secured_fields (seal c cd salt) fs) ≡ fs
        modify_fields_lem end h = refl
        modify_fields_lem (field tag v fs) (first, others) =
            ap₂ (field tag) (modify_value_lem v tag first) (modify_fields_lem fs others)

-- A configuration file whose texts are encrypted with the password and the number of iterations of the
-- environment, each enclosed in ENC(...), loads as the configuration with the plain texts, whatever the
-- salt of eight bytes, if no variable is set for a value, no default stands for a value that is no
-- text, and each number fits its width.
pub load-secured :
    (sys : System) (c : Ciphers) (h : IsCbc c) (files : Files) (args : List (List ℕ))
    (dir file_name yaml_file salt : List ℕ) (cfg plain : Fields)
    → AllBytes salt
    → length salt ≡ 8
    → config_file sys.getenv args dir ≡ file_name
    → file_name ≢ []
    → files.exists file_name ≡ true
    → files.read file_name ≡ some yaml_file
    → files.unmarshal yaml_file cfg
      ≡ (secured_fields (seal c (new_decoder sys.getenv) salt) plain, true)
    → SettledFields sys plain
    → load sys c files args dir cfg ≡ (plain, true)
unfolding load
load-secured sys c h files args dir file_name yaml_file salt cfg plain salted eight named ne there
      content parsed settled =
    let cd = new_decoder sys.getenv in
    let given : not (text_eq file_name []) && files.exists file_name ≡ true =
      ground (arith, text_eq_iff file_name []) in
    rw (named, given, content, parsed)
      (ap (λ (fs : Fields). (fs, true))
        (modify_fields_lem sys c h cd salt salted eight plain settled))
