-- ===== src/ConfigLoad.antt =====
-- `ConfigLoad::load` (src/common/ConfigLoad.cpp): the configuration of a model, from a file.
-- `read_file` stands for the `std::ifstream`: the text of the file at a path, if it can be opened.
pub mod Defaults
use Prim.Native.String.{◌++◌ as str_append}
use gip.Prelude.{String, Option, none, some}
use gip.Models.{ModelConf}
use gip.Json.{JsonLibrary, Read, got, exception, ◌>>=◌}
use gip.Convertors.{conf_from_json}

module _ {J O : Type 0} (json : JsonLibrary J O) where
  -- The body of the `try`.
  unfoldable pub read_conf : (String → Option String) → String → Read ModelConf
  read_conf read_file config_path = elim (read_file config_path) [
    | none ↦ exception (str_append "Could not open config file: " config_path)
    | some file ↦ do json_data ← json.read_stream file; conf_from_json json json_data
  ]

  -- `none` is `{false, nullptr}`.
  unfoldable pub load : (String → Option String) → String → Option ModelConf
  unfolding read_conf
  load read_file config_path = elim (read_conf read_file config_path) [
    | got model_conf ↦ some model_conf
    | exception e ↦ none
  ]
