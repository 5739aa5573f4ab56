-- ===== src/LedgerJson/Sorted.antt =====
-- Inserting a key keeps the keys of a map in order, each once.
use nopal.Prelude.{◌≡◌, refl, true, false, inl, inr, [], ◌∷◌, arith, Bool-cases, all}
use nopal.LedgerJson.Value.{Chars, Value, Fields, no_field, field, chars_lt, chars_eq, insert_field}
use nopal.LedgerJson.Literals.{is_scalar}
use nopal.LedgerJson.Layout.{IsWritable, HasWritable}
use nopal.LedgerJson.Order.{is_above, ascends, ascends-tail}

chars_lt_trans : (a b c : Chars) → chars_lt a b ≡ true → chars_lt b c ≡ true → chars_lt a c ≡ true
unfolding chars_lt
chars_lt_trans a [] [] h k = cc
chars_lt_trans [] [] (z ∷ zs) h k = cc
chars_lt_trans (x ∷ xs) [] (z ∷ zs) h k = cc
chars_lt_trans [] (y ∷ ys) [] h k = cc
chars_lt_trans (x ∷ xs) (y ∷ ys) [] h k = cc
chars_lt_trans [] (y ∷ ys) (z ∷ zs) h k = refl
chars_lt_trans (x ∷ xs) (y ∷ ys) (z ∷ zs) h k = ground (arith, h, k, chars_lt_trans xs ys zs)

chars_lt_total : (a b : Chars) → chars_eq a b ≡ false → chars_lt a b ≡ false → chars_lt b a ≡ true
unfolding chars_lt chars_eq
chars_lt_total [] [] h k = cc
chars_lt_total [] (y ∷ ys) h k = cc
chars_lt_total (x ∷ xs) [] h k = refl
chars_lt_total (x ∷ xs) (y ∷ ys) h k = ground (arith, h, k, chars_lt_total xs ys)

is_above_trans :
    (a b : Chars) (fields : Fields)
    → chars_lt a b ≡ true
    → is_above b fields ≡ true
    → is_above a fields ≡ true
unfolding is_above
is_above_trans a b no_field h k = refl
is_above_trans a b (field j v rest) h k =
    ground (arith, h, k, is_above_trans a b rest h, chars_lt_trans a b j)

is_above-insert :
    (a key : Chars) (v : Value) (fields : Fields)
    → chars_lt a key ≡ true
    → is_above a fields ≡ true
    → is_above a (insert_field key v fields) ≡ true
unfolding is_above insert_field
is_above-insert a key v no_field h k = ground (arith, h)
is_above-insert a key v (field j w rest) h k = elim (Bool-cases (chars_eq key j)) [
  | inl e ↦ rw e k
  | inr e ↦ elim (Bool-cases (chars_lt key j)) [
    | inl f ↦ rw (e, f, h) k
    | inr f ↦ rw (e, f) (ground (arith, k, is_above-insert a key v rest h))
  ]
]

pub ascends-insert :
    (key : Chars) (v : Value) (fields : Fields)
    → ascends fields ≡ true
    → ascends (insert_field key v fields) ≡ true
unfolding ascends insert_field
ascends-insert key v no_field h = unfold is_above in refl
ascends-insert key v (field j w rest) h =
    let (above, later) = ascends-tail j w rest h in
    elim (Bool-cases (chars_eq key j)) [
      | inl e ↦ rw e h
      | inr e ↦ elim (Bool-cases (chars_lt key j)) [
        | inl f ↦
            let higher = is_above_trans key j rest f above in
            let first : is_above key (field j w rest) ≡ true = unfold is_above in rw (f, higher) in
            rw (e, f, first) h
        | inr f ↦
            let higher = is_above-insert j key v rest (chars_lt_total key j e f) above in
            rw (e, f, higher) (ascends-insert key v rest later)
      ]
    ]

pub HasWritable-insert :
    (key : Chars) (v : Value) (fields : Fields)
    → all is_scalar key ≡ true
    → IsWritable v
    → HasWritable fields
    → HasWritable (insert_field key v fields)
unfolding HasWritable insert_field
HasWritable-insert key v no_field q h k = (q, h, tt)
HasWritable-insert key v (field j w rest) q h k = elim (Bool-cases (chars_eq key j)) [
  | inl e ↦ rw e (k.0, h, k.2)
  | inr e ↦ elim (Bool-cases (chars_lt key j)) [
    | inl f ↦ rw (e, f) (q, h, k)
    | inr f ↦ rw (e, f) (k.0, k.1, HasWritable-insert key v rest q h k.2)
  ]
]
