-- ===== src/Base/Json.antt =====
-- Decoded JSON, what `interface{}` holds after `json.Unmarshal`, and objects as maps.
use Prim.Native.String.{String}
use mathlib.Core.Option.{Option, none, some}
use mathlib.Core.Bool.{Bool}
use text.Mathlib.Text.{◌==◌ as str_eq}
use pucora_ce.Base.Tests.{if◌then◌else◌}

-- A number is kept by the text that the encoder prints for it.
mutual
  pub data Json : Type 0 where
    null : Json
    bool : Bool → Json
    num : String → Json
    str : String → Json
    arr : Items → Json
    obj : Fields → Json

  pub data Items : Type 0 where
    nil : Items
    cons : Json → Items → Items

  pub data Fields : Type 0 where
    end : Fields
    field : String → Json → Fields → Fields

-- `m[k]` with its `ok`.
unfoldable pub get : String → Fields → Option Json
get k end = none
get k (field j v fs) = if str_eq j k then some v else get k fs

-- The type assertion to `map[string]interface{}`, of an entry that may be missing.
abbrev pub as_object : Option Json → Option Fields
as_object (some (obj fs)) = some fs
as_object _ = none

-- The type assertion to `bool`, of an entry that may be missing.
abbrev pub as_bool : Option Json → Option Bool
as_bool (some (bool b)) = some b
as_bool _ = none
