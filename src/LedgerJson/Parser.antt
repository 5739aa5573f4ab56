-- ===== src/LedgerJson/Parser.antt =====
-- The parser of crates/nopal-ledger-json/src/lib.rs by recursive descent. Each call costs a unit of
-- fuel. `serde_json::from_str` on a string literal is the parameter `decode`.
use nopal.Prelude.{
  ℕ, zero, suc, ◌+◌, ◌*◌, Bool, true, false, ◌||◌, Option, none, some, [], ◌∷◌, eqb, if◌then◌else◌,
  length,
}
use nopal.LedgerJson.Value.{
  Bytes, Chars, Value, Items, Fields, null, bool, number, string, array, object, no_item, item,
  no_field, insert_field,
}
use nopal.LedgerJson.Scan.{
  Outcome, ok, error, out_of_fuel, then_do, or_error, starts, bump, ws, slice, strip, is_digit,
  skip_number, skip_string,
}

-- `literal`
unfoldable pub literal : Bytes → Value → Bytes → Outcome (Value × Bytes)
literal word value s = elim (strip word s) [ some rest ↦ ok (value, rest) | none ↦ error ]

unfoldable pub parse_number : Bytes → Outcome (Value × Bytes)
parse_number s = then_do (skip_number s) (λ rest. ok (number (slice s rest), rest))

abbrev pub starts_number : Bytes → Bool
starts_number [] = false
starts_number (c ∷ cs) = eqb c 45 || is_digit c

-- `array` and `object` after the bracket and the space that follows it, given their loops.
unfoldable pub array_at : (Bytes → Outcome (Items × Bytes)) → Bytes → Outcome (Value × Bytes)
array_at loop s =
    let items = then_do (loop s) (λ (items, rest). ok (array items, rest)) in
    if starts 93 s then ok (array no_item, bump s) else items

unfoldable pub object_at : (Bytes → Outcome (Fields × Bytes)) → Bytes → Outcome (Value × Bytes)
object_at loop s =
    let fields = then_do (loop s) (λ (map, rest). ok (object map, rest)) in
    if starts 125 s then ok (object no_field, bump s) else fields

-- The loops after an item and after a value, and the loop of `object` at a key.
unfoldable pub more_items :
    (Bytes → Outcome (Items × Bytes)) → Value → Bytes → Outcome (Items × Bytes)
more_items loop value s =
    let further = then_do (loop (bump s)) (λ (items, rest). ok (item value items, rest)) in
    if starts 93 s then ok (item value no_item, bump s) else if starts 44 s then further else error

unfoldable pub more_fields :
    (Fields → Bytes → Outcome (Fields × Bytes)) → Fields → Bytes → Outcome (Fields × Bytes)
more_fields loop map s =
    let further = loop map (bump s) in
    if starts 125 s then ok (map, bump s) else if starts 44 s then further else error

unfoldable pub value_at :
    (Bytes → Outcome (Value × Bytes))
    → (Fields → Bytes → Outcome (Fields × Bytes))
    → Fields
    → Chars × Bytes
    → Outcome (Fields × Bytes)
value_at read loop map (key, after) =
    let entry =
      then_do (read (bump (ws after)))
        (λ (value, rest). more_fields loop (insert_field key value map) (ws rest)) in
    if starts 58 (ws after) then entry else error

-- `parse`: nothing but space may follow.
unfoldable pub finish : Value × Bytes → Outcome Value
finish (value, rest) = elim (ws rest) [ [] ↦ ok value | c ∷ cs ↦ error ]

module _ (decode : Bytes → Option Chars) where
  -- `string`, at the opening quote
  unfoldable pub parse_string : Bytes → Outcome (Chars × Bytes)
  parse_string s = elim (skip_string false (bump s)) [
    | some rest ↦ then_do (or_error (decode (slice s rest))) (λ text. ok (text, rest))
    | none ↦ error
  ]

  unfoldable mutual
    pub parse_value : ℕ → Bytes → Outcome (Value × Bytes)
    parse_value zero s = out_of_fuel
    parse_value (suc fuel) s =
        let here = ws s in
        let items = array_at (λ r. parse_items fuel r) (ws (bump here)) in
        let fields = object_at (λ r. parse_fields fuel no_field r) (ws (bump here)) in
        if starts 110 here
        then literal (110 ∷ 117 ∷ 108 ∷ 108 ∷ []) null here
        else if starts 116 here
        then literal (116 ∷ 114 ∷ 117 ∷ 101 ∷ []) (bool true) here
        else if starts 102 here
        then literal (102 ∷ 97 ∷ 108 ∷ 115 ∷ 101 ∷ []) (bool false) here
        else if starts 34 here
        then then_do (parse_string here) (λ (text, rest). ok (string text, rest))
        else if starts 91 here
        then items
        else if starts 123 here
        then fields
        else if starts_number here
        then parse_number here
        else error

    -- The loop of `array`, at an item.
    pub parse_items : ℕ → Bytes → Outcome (Items × Bytes)
    parse_items zero s = out_of_fuel
    parse_items (suc fuel) s =
        then_do (parse_value fuel s)
          (λ (value, rest). more_items (λ r. parse_items fuel r) value (ws rest))

    -- The loop of `object`, given the map so far.
    pub parse_fields : ℕ → Fields → Bytes → Outcome (Fields × Bytes)
    parse_fields zero map s = out_of_fuel
    parse_fields (suc fuel) map s =
        let entry =
          then_do (parse_string (ws s))
            (value_at (λ r. parse_value fuel r) (λ m r. parse_fields fuel m r) map) in
        if starts 34 (ws s) then entry else error

  unfoldable pub from_str : Bytes → Outcome Value
  from_str s = then_do (parse_value (2 * length s + 2) s) finish
