-- ===== src/Config/Loading.antt =====
-- app/v3/config/basic/config.go: Load, from the arguments of the program to the changed structure.
use arcella_lib.Prelude.Text.{codes, text_eq, has_prefix}
use arcella_lib.Crypt.Jasypt.{Ciphers}
use arcella_lib.Config.{System, new_decoder, decode}
use arcella_lib.Config.Walk.{Fields, modify_fields}
use arcella_lib.Prelude.{
  ◌&&◌, ◌++◌, ◌∷◌, if◌then◌else◌, drop, [], List, some, none, Option, not, false, true, Bool, ℕ,
}

-- `FileExists`, `os.ReadFile`, and `yaml.Unmarshal` into a structure; the Boolean says whether the
-- error is nil
pub record Files : Type 0 where
  pub exists : List ℕ → Bool
  pub read : List ℕ → Option (List ℕ)
  pub unmarshal : List ℕ → Fields → Fields × Bool

abbrev pub arg_cfg_file : List ℕ
arg_cfg_file = codes "cfg="

-- `getEnvCfgVariable`, on the arguments behind the program's name
unfoldable pub get_env_cfg_variable : (List ℕ → List ℕ) → List (List ℕ) → List ℕ
unfolding has_prefix
get_env_cfg_variable getenv [] = getenv (codes "cfg")
get_env_cfg_variable getenv (arg ∷ args) =
    let rest = get_env_cfg_variable getenv args in
    if has_prefix arg_cfg_file arg then drop 4 arg else rest

-- `getDefaultDirConfigFileName`, with the directory of the program
abbrev pub get_default_dir_config_file_name : List ℕ → List ℕ
get_default_dir_config_file_name dir = dir ++ codes "/config.yml"

unfoldable pub config_file : (List ℕ → List ℕ) → List (List ℕ) → List ℕ → List ℕ
unfolding get_env_cfg_variable
config_file getenv args dir =
    let file_name = get_env_cfg_variable getenv args in
    if text_eq file_name [] then get_default_dir_config_file_name dir else file_name

-- `loadYaml`
abbrev pub unmarshaled : Files → Option (List ℕ) → Fields → Fields × Bool
unmarshaled files none cfg = (cfg, false)
unmarshaled files (some yaml_file) cfg = files.unmarshal yaml_file cfg

abbrev pub load_yaml : Files → List ℕ → Fields → Fields × Bool
load_yaml files file_name cfg = unmarshaled files (files.read file_name) cfg

-- `modifyStruct` with the decoder of `NewDecoder`
abbrev pub modify_struct : System → Ciphers → Fields → Fields
modify_struct sys c cfg = modify_fields sys (decode c (new_decoder sys.getenv)) cfg

module _ (sys : System) (c : Ciphers) (files : Files) where
  abbrev pub finished : Fields × Bool → Fields × Bool
  finished (cfg, false) = (cfg, false)
  finished (cfg, true) = (modify_struct sys c cfg, true)

  -- `Load`
  unfoldable pub load : List (List ℕ) → List ℕ → Fields → Fields × Bool
  unfolding config_file
  load args dir cfg =
      let file_name = config_file sys.getenv args dir in
      if not (text_eq file_name []) && files.exists file_name
      then finished (load_yaml files file_name cfg)
      else finished (cfg, true)
