-- ===== src/Json.antt =====
-- Parsed JSON values, as tool parameters and stored files hold them (`Record<string, unknown>`). A
-- number is kept by the text that JSON.stringify prints for it; no code modelled here computes with
-- one.
use invarail.Prelude.{Bool, List, Text}

mutual
  pub data Json : Type 0 where
    null : Json
    bool : Bool → Json
    num : Text → Json
    str : Text → Json
    arr : Items → Json
    obj : Members → Json

  pub data Items : Type 0 where
    nil : Items
    cons : Json → Items → Items

  pub data Members : Type 0 where
    end : Members
    member : Text → Json → Members → Members

-- The parameters of a tool call, by name.
abbrev pub Params : Type 0
Params = List (Text × Json)
