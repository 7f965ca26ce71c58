-- ===== src/Ems/Response.antt =====
-- The answer to a placement, as cpp/ems/ems.cpp reads it. nlohmann's parser is not modelled: `parse`
-- gives the value of a body, or none where it throws, as the accesses below do.
use quantforge_engine.Prelude.{Option, none, some, if◌then◌else◌, ◌>>=◌}
use quantforge_engine.Prelude.Text.{Text, codes, text_beq}

-- A value: a string, an array, an object, or one of the others.
mutual
  pub data Value : Type 0 where
    string : Text → Value
    plain : Value
    array : Items → Value
    object : Fields → Value

  pub data Items : Type 0 where
    no_items : Items
    item : Value → Items → Items

  pub data Fields : Type 0 where
    no_fields : Fields
    field : Text → Value → Fields → Fields

abbrev pub find_field : Text → Fields → Option Value
find_field k no_fields = none
find_field k (field j v fs) = if text_beq j k then some v else find_field k fs

-- `at(key)`.
abbrev pub at_key : Text → Value → Option Value
at_key k (string t) = none
at_key k plain = none
at_key k (array vs) = none
at_key k (object fs) = find_field k fs

-- `at(0)`.
abbrev pub at_zero : Value → Option Value
at_zero (array (item v vs)) = some v
at_zero _ = none

-- `get<std::string>()`.
abbrev pub get_string : Value → Option Text
get_string (string t) = some t
get_string _ = none

-- data.order_ids[0] of the body.
unfoldable pub order_id_of : (Text → Option Value) → Text → Option Text
order_id_of parse body = do
  j ← parse body
  data_value ← at_key (codes "data") j
  ids ← at_key (codes "order_ids") data_value
  id ← at_zero ids
  get_string id
