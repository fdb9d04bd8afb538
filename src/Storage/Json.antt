-- ===== src/Storage/Json.antt =====
-- `JsonValue` of backend/app/shared/canonical_json.py. The two lists of the nested type are its
-- own, `Items` and `Fields`; a dictionary keeps the order of insertion.
use personal_finance_public.Base.{String, Bool, Option, none, some, ◌==◌, if◌then◌else◌}
use personal_finance_public.Base.Int.{ℤ}

mutual
  pub data JsonValue : Type 0 where
    null : JsonValue
    bool : Bool → JsonValue
    int : ℤ → JsonValue
    str : String → JsonValue
    list : Items → JsonValue
    dict : Fields → JsonValue

  pub data Items : Type 0 where
    nil : Items
    cons : JsonValue → Items → Items

  pub data Fields : Type 0 where
    end : Fields
    field : String → JsonValue → Fields → Fields

-- `dict.get(key)`
unfoldable pub get : String → Fields → Option JsonValue
get key end = none
get key (field k v rest) = if k == key then some v else get key rest

-- An optional text, as Python writes it into a payload.
abbrev pub opt_str : Option String → JsonValue
opt_str none = null
opt_str (some s) = str s
