-- ===== src/Api/Claims.antt =====
-- The claims of an introspected token, as api/enroll.rs reads them: `serde_json::Value` and its map.
use peat_gateway.Base.{Text, Bool, Option, none, some}

mutual
  -- A number carries what its `to_string` prints, which is all that is read of it.
  pub data Value : Type 0 where
    null : Value
    boolean : Bool → Value
    number : Text → Value
    string : Text → Value
    array : Values → Value
    object : Members → Value

  pub data Values : Type 0 where
    no_value : Values
    value : Value → Values → Values

  pub data Members : Type 0 where
    no_member : Members
    member : Text → Value → Members → Members

-- `serde_json::Map`, as its `get`
abbrev pub Claims : Type 0
Claims = Text → Option Value

-- `Value::as_str`
abbrev pub as_str : Value → Option Text
as_str (string s) = some s
as_str null = none
as_str (boolean b) = none
as_str (number n) = none
as_str (array vs) = none
as_str (object ms) = none
