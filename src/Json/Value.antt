-- ===== src/Json/Value.antt =====
-- A JSON value. An object keeps, for every member, the exact bytes of its value: json.RawMessage.
use codesteward_audit_proxy.Base.{Bool}
use codesteward_audit_proxy.Base.Bytes.{Bytes}

mutual
  pub data Value : Type 0 where
    null : Value
    bool : Bool → Value
    number : Bytes → Value
    string : Bytes → Value
    array : Items → Value
    object : Members → Value

  pub data Items : Type 0 where
    no_items : Items
    item : Value → Items → Items

  pub data Members : Type 0 where
    no_members : Members
    member : Bytes → Bytes → Value → Members → Members
