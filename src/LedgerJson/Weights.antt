-- ===== src/LedgerJson/Weights.antt =====
-- The fuel that a value takes is bounded by the length of what is written for it.
use nopal.Prelude.{
  ℕ, suc, ◌+◌, ◌*◌, ◌≤◌, Bool, true, false, Option, List, [], ◌∷◌, ◌++◌, map, arith, length,
  length-append,
}
use nopal.LedgerJson.Value.{
  Bytes, Value, Items, Fields, null, bool, number, string, array, object, no_item, item, no_field,
  field,
}
use nopal.LedgerJson.Scan.{skip_number, skip_integer}
use nopal.LedgerJson.Order.{sort_entries-ascends}
use nopal.LedgerJson.Layout.{IsWritable, AreWritable, HasWritable}
use nopal.LedgerJson.Reads.{weight, items_weight, fields_weight}
use nopal.LedgerJson.Writer.{
  lead, separator, write_rest, write_seq, write_string, write_entry, write_value, write_items,
  write_fields, sort_entries,
}

module _ (indent : Option ℕ) where
  length-write_rest :
      (level : ℕ) (first : Bool) (x : Bytes) (xs : List Bytes)
      → length x + length (write_rest indent level false xs)
        ≤ length (write_rest indent level first (x ∷ xs))
  unfolding write_rest
  length-write_rest level first x xs = omega (
    arith,
    length-append (lead indent level first)
        (x ++ (separator xs ++ write_rest indent level false xs)),
    length-append x (separator xs ++ write_rest indent level false xs),
    length-append (separator xs) (write_rest indent level false xs),
  )

  -- A written sequence holds its items between two brackets.
  length-write_seq :
      (level left right : ℕ) (x : Bytes) (xs : List Bytes)
      → 2 + length (write_rest indent level true (x ∷ xs))
        ≤ length (write_seq indent level left right (x ∷ xs))
  unfolding write_seq
  length-write_seq level left right x xs =
      omega (arith, length-append (write_rest indent level true (x ∷ xs)) (right ∷ []))

  abbrev Weighs : Value → Type 0
  Weighs v = (level : ℕ) → IsWritable v → suc (weight v) ≤ 2 * length (write_value indent level v)

  abbrev WeighsItems : Items → Type 0
  WeighsItems xs =
      (level : ℕ) (first : Bool)
      → AreWritable xs
      → items_weight xs
        ≤ 2 * length (write_rest indent level first (write_items indent (suc level) xs))

  abbrev WeighsFields : Fields → Type 0
  WeighsFields fs =
      (level : ℕ) (first : Bool)
      → HasWritable fs
      → fields_weight fs
        ≤ 2
          * length
              (write_rest indent level first (map write_entry (write_fields indent (suc level) fs)))

  length-write_entry : (k : List ℕ) (b : Bytes) → length b ≤ length (write_entry (k, b))
  unfolding write_entry
  length-write_entry k b = omega (arith, length-append (write_string k) (58 ∷ 32 ∷ b))

  number-Weighs : (n : Bytes) → Weighs (number n)
  unfolding weight write_value IsWritable
  number-Weighs [] level h = absurd (unfold skip_number skip_integer in cc h)
  number-Weighs (c ∷ cs) level h = omega arith

  array-Weighs : (xs : Items) → WeighsItems xs → Weighs (array xs)
  unfolding weight items_weight write_value IsWritable write_items
  array-Weighs no_item weighs level h = unfold write_seq in omega arith
  array-Weighs (item v rest) weighs level h = omega (
    arith,
    length-write_seq level 91 93 (write_value indent (suc level) v)
        (write_items indent (suc level) rest),
    weighs level true h,
  )

  object_bound :
      (level : ℕ) (k : List ℕ) (v : Value) (rest : Fields)
      → fields_weight (field k v rest)
        ≤ 2
          * length (
              write_rest indent level true
                (map write_entry (write_fields indent (suc level) (field k v rest))))
      → suc (suc (fields_weight (field k v rest)))
        ≤ 2
          * length (
              write_seq indent level 123 125
                (map write_entry (write_fields indent (suc level) (field k v rest))))
  unfolding write_fields
  object_bound level k v rest h = omega (
    arith,
    length-write_seq level 123 125 (write_entry (k, write_value indent (suc level) v))
        (map write_entry (write_fields indent (suc level) rest)),
  )

  object-Weighs : (fs : Fields) → WeighsFields fs → Weighs (object fs)
  unfolding weight fields_weight write_value IsWritable
  object-Weighs no_field weighs level h = unfold write_seq write_fields sort_entries in omega arith
  object-Weighs (field k v rest) weighs level h =
      let inner = weighs level true h.1 in
      rw (sort_entries-ascends indent (suc level) (field k v rest) h.0)
        (object_bound level k v rest inner)

  item-Weighs : (v : Value) (rest : Items) → Weighs v → WeighsItems rest → WeighsItems (item v rest)
  unfolding items_weight write_items AreWritable
  item-Weighs v rest one more level first h = omega (
    arith,
    one (suc level) h.0,
    more level false h.1,
    length-write_rest level first (write_value indent (suc level) v)
        (write_items indent (suc level) rest),
  )

  field-Weighs :
      (k : List ℕ) (v : Value) (rest : Fields)
      → Weighs v
      → WeighsFields rest
      → WeighsFields (field k v rest)
  unfolding fields_weight write_fields HasWritable
  field-Weighs k v rest one more level first h = omega (
    arith,
    one (suc level) h.1,
    more level false h.2,
    length-write_entry k (write_value indent (suc level) v),
    length-write_rest level first (write_entry (k, write_value indent (suc level) v))
        (map write_entry (write_fields indent (suc level) rest)),
  )

  pub weight-length : (v : Value) → Weighs v
  unfolding weight items_weight fields_weight write_value
  weight-length v = elim v as Weighs WeighsItems WeighsFields [
    | null ↦ λ level h. omega arith
    | bool true ↦ λ level h. omega arith
    | bool false ↦ λ level h. omega arith
    | number n ↦ number-Weighs n
    | string s ↦ λ level h. unfold write_string in omega arith
    | array (xs → ih) ↦ array-Weighs xs ih
    | object (fs → ih) ↦ object-Weighs fs ih
    | no_item ↦ λ level first h. omega arith
    | item (w → one) (xs → more) ↦ item-Weighs w xs one more
    | no_field ↦ λ level first h. omega arith
    | field k (w → one) (fs → more) ↦ field-Weighs k w fs one more
  ]
