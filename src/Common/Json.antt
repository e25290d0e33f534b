-- ===== src/Common/Json.antt =====
-- Values that encoding/json reads and writes. An object is a list of its members.
use Prim.Native.Nat.{ℕ}
use Prim.Native.String.{String}
use mathlib.Core.Bool.{Bool}
use mathlib.Core.List.{List, [], ◌∷◌}
use yet_another_memory_bank.Common.Int.{ℤ, pos}

mutual
  pub data Value : Type 0 where
    null : Value
    boolean : Bool → Value
    integer : ℤ → Value
    -- by its bits
    float : ℕ → Value
    string : String → Value
    array : Items → Value
    object : Members → Value

  pub data Items : Type 0 where
    end : Items
    item : Value → Items → Items

  pub data Members : Type 0 where
    empty : Members
    member : String → Value → Members → Members

abbrev pub items : List Value → Items
items [] = end
items (v ∷ vs) = item v (items vs)

abbrev pub members : List (String × Value) → Members
members [] = empty
members ((k, v) ∷ rest) = member k v (members rest)

abbrev pub list : List Value → Value
list vs = array (items vs)

-- map[string]any{…}
abbrev pub dict : List (String × Value) → Value
dict fields = object (members fields)

abbrev pub count : ℕ → Value
count n = integer (pos n)
