-- ===== src/Json.antt =====
-- JSON values as the API receives and stores them. A number is kept as the text that
-- `JSON.stringify` prints for it, as code points; an object is its entries in insertion order.
use scalequeue.Common.{ℕ, suc, String, Bool, List}

mutual
  pub data Json : Type 0 where
    null : Json
    bool : Bool → Json
    num : List ℕ → Json
    str : String → Json
    arr : Items → Json
    obj : Fields → Json

  pub data Items : Type 0 where
    nil : Items
    cons : Json → Items → Items

  pub data Fields : Type 0 where
    end : Fields
    field : String → Json → Fields → Fields

-- `Object.keys(value).length`
abbrev pub key_count : Fields → ℕ
key_count end = 0
key_count (field k v fs) = suc (key_count fs)
