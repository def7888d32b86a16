-- ===== src/Config/Walk.antt =====
-- app/v3/config/basic/config.go: modifyValue, which goes through a tree and makes a changed copy.
use arcella_lib.Prelude.Int.{ℤ}
use arcella_lib.Config.{
  Tag, System, process_string, process_int, process_uint, process_float, process_bool, wrap_int,
}
use arcella_lib.Prelude.{◌^◌, ◌%◌, List, Option, Bool, ℕ}

-- The kinds of reflect.Value: integers with their width, floats of 32 or 64 bits, and `opaque` for the
-- kinds that stay as they are. A map is the list of its keys and values.
mutual
  pub data Value : Type 0 where
    text : List ℕ → Value
    int : ℕ → ℤ → Value
    uint : ℕ → ℕ → Value
    float32 : ℕ → Value
    float64 : ℕ → Value
    bool : Bool → Value
    nil_ptr : Value
    ptr : Value → Value
    nil_slice : Value
    slice : Items → Value
    array : Items → Value
    nil_map : Value
    dict : Entries → Value
    struct : Fields → Value
    opaque : ℕ → Value

  pub data Items : Type 0 where
    nil : Items
    cons : Value → Items → Items

  pub data Entries : Type 0 where
    last : Entries
    entry : List ℕ → Value → Entries → Entries

  pub data Fields : Type 0 where
    end : Fields
    field : Tag → Value → Fields → Fields

module _ (sys : System) (decoder : List ℕ → Option (List ℕ)) where
  unfoldable mutual
    unfolding process_string process_int process_uint process_float process_bool wrap_int

    -- a container hands its tag to what it holds, a struct's fields have their own
    pub modify_value : Value → Tag → Value
    modify_value (text s) tag = text (process_string sys decoder s tag)
    modify_value (int w i) tag = int w (wrap_int w (process_int sys decoder i tag))
    modify_value (uint w n) tag = uint w (process_uint sys decoder n tag % 2 ^ w)
    modify_value (float32 f) tag = float32 (sys.narrow (process_float sys decoder f tag))
    modify_value (float64 f) tag = float64 (process_float sys decoder f tag)
    modify_value (bool b) tag = bool (process_bool sys decoder b tag)
    modify_value nil_ptr tag = nil_ptr
    modify_value (ptr v) tag = ptr (modify_value v tag)
    modify_value nil_slice tag = nil_slice
    modify_value (slice vs) tag = slice (modify_items vs tag)
    modify_value (array vs) tag = array (modify_items vs tag)
    modify_value nil_map tag = nil_map
    modify_value (dict es) tag = dict (modify_entries es tag)
    modify_value (struct fs) tag = struct (modify_fields fs)
    modify_value (opaque x) tag = opaque x

    pub modify_items : Items → Tag → Items
    modify_items nil tag = nil
    modify_items (cons v vs) tag = cons (modify_value v tag) (modify_items vs tag)

    pub modify_entries : Entries → Tag → Entries
    modify_entries last tag = last
    modify_entries (entry k v es) tag = entry k (modify_value v tag) (modify_entries es tag)

    pub modify_fields : Fields → Fields
    modify_fields end = end
    modify_fields (field tag v fs) = field tag (modify_value v tag) (modify_fields fs)
