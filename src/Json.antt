-- ===== src/Json.antt =====
-- JSON values as the source receives them (`unknown`). A number is a natural number, or one that is
-- negative or has a fraction, which the source only refuses. An object is a list of its fields, with
-- no key twice; `none` stands for `undefined`.
use twilight_core_explorer.Common.{
  ℕ, String, Bool, Option, none, some, List, [], ◌∷◌, if◌then◌else◌,
}
use twilight_core_explorer.Text.{Text, codes, eq_text}

mutual
  pub data Json : Type 0 where
    null : Json
    bool : Bool → Json
    num : ℕ → Json
    other_num : Json
    str : Text → Json
    arr : Items → Json
    obj : Fields → Json

  pub data Items : Type 0 where
    nil : Items
    cons : Json → Items → Items

  pub data Fields : Type 0 where
    end : Fields
    field : Text → Json → Fields → Fields

abbrev pub items : Items → List Json
items nil = []
items (cons v vs) = v ∷ items vs

unfoldable pub get_field : Text → Fields → Option Json
get_field key end = none
get_field key (field k v fs) = if eq_text k key then some v else get_field key fs

-- `rec(v)[key]`: what is no object has no field.
unfoldable pub get : String → Json → Option Json
unfolding get_field
get key (obj fs) = get_field (codes key) fs
get key _ = none

-- `Object.keys(v)` of an object
abbrev pub keys : Fields → List Text
keys end = []
keys (field k v fs) = k ∷ keys fs

abbrev pub as_text : Option Json → Option Text
as_text (some (str s)) = some s
as_text _ = none
