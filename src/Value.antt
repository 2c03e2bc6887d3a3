-- ===== src/Value.antt =====
-- JSON values, for what the program stores as `any` or `map[string]any` and hands on (tool
-- arguments, details, custom entry data). A number is kept as its literal.
use attention.Prelude.{String, Bool}

mutual
  pub data Value : Type 0 where
    null : Value
    bool : Bool → Value
    num : String → Value
    str : String → Value
    arr : Items → Value
    obj : Members → Value

  pub data Items : Type 0 where
    nil : Items
    cons : Value → Items → Items

  pub data Members : Type 0 where
    end : Members
    member : String → Value → Members → Members
