-- ===== src/LedgerJson/Value.antt =====
-- The values of a ledger document (crates/nopal-ledger-json/src/lib.rs), and a map's keys.
use nopal.Prelude.{
  ℕ, Bool, true, false, ◌&&◌, Option, none, some, List, [], ◌∷◌, eqb, ltb, if◌then◌else◌,
}

-- A text as the bytes of its UTF-8 form, and as the code points of its characters.
abbrev pub Bytes : Type 0
Bytes = List ℕ

abbrev pub Chars : Type 0
Chars = List ℕ

-- A number is its lexeme. The entries of a map stand in the order of their keys.
mutual
  pub data Value : Type 0 where
    null : Value
    bool : Bool → Value
    number : Bytes → Value
    string : Chars → Value
    array : Items → Value
    object : Fields → Value

  pub data Items : Type 0 where
    no_item : Items
    item : Value → Items → Items

  pub data Fields : Type 0 where
    no_field : Fields
    field : Chars → Value → Fields → Fields

-- The order of texts: UTF-8 keeps the order of the code points.
unfoldable pub chars_lt : Chars → Chars → Bool
chars_lt [] [] = false
chars_lt [] (d ∷ ds) = true
chars_lt (c ∷ cs) [] = false
chars_lt (c ∷ cs) (d ∷ ds) = if ltb c d then true else eqb c d && chars_lt cs ds

unfoldable pub chars_eq : Chars → Chars → Bool
chars_eq [] [] = true
chars_eq [] (d ∷ ds) = false
chars_eq (c ∷ cs) [] = false
chars_eq (c ∷ cs) (d ∷ ds) = eqb c d && chars_eq cs ds

-- `BTreeMap::get` and `BTreeMap::insert`, which replaces the value of a key that is there.
unfoldable pub field_value : Fields → Chars → Option Value
field_value no_field key = none
field_value (field k v rest) key = if chars_eq k key then some v else field_value rest key

unfoldable pub insert_field : Chars → Value → Fields → Fields
insert_field key value no_field = field key value no_field
insert_field key value (field k v rest) =
    let later = insert_field key value rest in
    if chars_eq key k
    then field k value rest
    else if chars_lt key k
    then field key value (field k v rest)
    else field k v later

-- `Value::get` and `Value::as_str`
unfoldable pub get_value : Value → Chars → Option Value
get_value (object map) key = field_value map key
get_value _ key = none

unfoldable pub value_str : Value → Option Chars
value_str (string s) = some s
value_str _ = none
