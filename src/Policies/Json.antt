-- ===== src/Policies/Json.antt =====
-- JSON values, as `JSON.parse` gives them and as the properties of a resource hold them.
use hulumi.Prelude.{Bool, Option, none, some, List, [], ◌∷◌, Text, text_eq, if◌then◌else◌}

mutual
  pub data Json : Type 0 where
    null : Json
    boolean : Bool → Json
    -- A number by its spelling.
    number : Text → Json
    string : Text → Json
    array : Values → Json
    object : Fields → Json

  pub data Values : Type 0 where
    end_of_values : Values
    value : Json → Values → Values

  -- The fields of an object, each of another name.
  pub data Fields : Type 0 where
    end_of_fields : Fields
    field : Text → Json → Fields → Fields

abbrev pub values : Values → List Json
values end_of_values = []
values (value v vs) = v ∷ values vs

-- `Object.entries(object)`
abbrev pub entries : Fields → List (Text × Json)
entries end_of_fields = []
entries (field name v fs) = (name, v) ∷ entries fs

-- `object[name]`
unfoldable pub get : Text → Fields → Option Json
unfolding text_eq
get name end_of_fields = none
get name (field n v fs) = if text_eq n name then some v else get name fs
