-- ===== src/Kernel/Json.antt =====
-- JSON values, for the dictionaries that tenants attach to their items. A float is kept as its text.
use cbir_engine.Base.{
  Bool, List, Option, String, Text, if◌then◌else◌, is_some, none, some, str_eq, ℤ,
}

mutual
  pub data Json : Type 0 where
    null : Json
    boolean : Bool → Json
    int : ℤ → Json
    float : Text → Json
    str : Text → Json
    arr : Items → Json
    obj : Fields → Json

  pub data Items : Type 0 where
    nil : Items
    cons : Json → Items → Items

  pub data Fields : Type 0 where
    end : Fields
    field : String → Json → Fields → Fields

-- A Python dict with text keys, in insertion order.
abbrev pub Dict : Type 0
Dict = List (String × Json)

-- A text that is handed to `json.loads`: the dump of a value, or one that is not JSON.
pub data JsonText : Type 0 where
  dumps : Json → JsonText
  not_json : Text → JsonText

-- `none` stands for JSONDecodeError.
abbrev pub loads : JsonText → Option Json
loads (dumps j) = some j
loads (not_json s) = none

-- The value of a key; of several fields with one key the last counts.
abbrev pub later : Option Json → Option Json → Option Json
later (some w) v = some w
later none v = v

abbrev pub field_of : String → Fields → Option Json
field_of k end = none
field_of k (field j v fs) = later (field_of k fs) (if str_eq j k then some v else none)

abbrev pub replace_field : String → Json → Fields → Fields
replace_field k v end = end
replace_field k v (field j w fs) = field j (if str_eq j k then v else w) (replace_field k v fs)

abbrev pub append_field : String → Json → Fields → Fields
append_field k v end = field k v end
append_field k v (field j w fs) = field j w (append_field k v fs)

-- d[k] = v on an object of JSON
abbrev pub set_field : String → Json → Fields → Fields
set_field k v fs = if is_some (field_of k fs) then replace_field k v fs else append_field k v fs
