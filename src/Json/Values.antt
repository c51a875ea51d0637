-- ===== src/Json/Values.antt =====
-- A decoded JSON value; lists and objects are in a block with it.
use saasmint.Base.{ℕ, Bool, String}

mutual
  pub data Value : Type 0 where
    null : Value
    bool : Bool → Value
    num : ℕ → Value
    real : ℕ → Value
    str : String → Value
    arr : Items → Value
    obj : Entries → Value

  pub data Items : Type 0 where
    nil : Items
    cons : Value → Items → Items

  pub data Entries : Type 0 where
    end : Entries
    entry : String → Value → Entries → Entries
