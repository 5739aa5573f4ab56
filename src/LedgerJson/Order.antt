-- ===== src/LedgerJson/Order.antt =====
-- The order of a map's keys: what the writer's sort and the parser's insertions do on entries that
-- are in order already.
use nopal.Prelude.{ℕ, ◌≡◌, refl, Bool, true, false, ◌&&◌, Option, [], ◌∷◌, arith}
use nopal.LedgerJson.Value.{Chars, Value, Fields, no_field, field, chars_lt, chars_eq, insert_field}
use nopal.LedgerJson.Writer.{insert_entry, sort_entries, write_fields}

pub chars_lt_asym : (a b : Chars) → chars_lt a b ≡ true → chars_lt b a ≡ false
unfolding chars_lt
chars_lt_asym [] [] h = cc
chars_lt_asym [] (d ∷ ds) h = refl
chars_lt_asym (c ∷ cs) [] h = cc
chars_lt_asym (c ∷ cs) (d ∷ ds) h = ground (arith, h, chars_lt_asym cs ds)

pub chars_lt_neq : (a b : Chars) → chars_lt a b ≡ true → chars_eq b a ≡ false
unfolding chars_lt chars_eq
chars_lt_neq [] [] h = cc
chars_lt_neq [] (d ∷ ds) h = refl
chars_lt_neq (c ∷ cs) [] h = cc
chars_lt_neq (c ∷ cs) (d ∷ ds) h = ground (arith, h, chars_lt_neq cs ds)

-- Every key comes after this one.
unfoldable pub is_above : Chars → Fields → Bool
is_above k no_field = true
is_above k (field j v rest) = chars_lt k j && is_above k rest

-- The keys of a map are in order, without repetition.
unfoldable pub ascends : Fields → Bool
ascends no_field = true
ascends (field k v rest) = is_above k rest && ascends rest

-- Every key of the first comes before every key of the second.
unfoldable pub precedes : Fields → Fields → Bool
precedes no_field fields = true
precedes (field j v rest) fields = is_above j fields && precedes rest fields

unfoldable pub join_fields : Fields → Fields → Fields
join_fields no_field fields = fields
join_fields (field k v rest) fields = field k v (join_fields rest fields)

pub ascends-tail :
    (k : Chars) (v : Value) (rest : Fields)
    → ascends (field k v rest) ≡ true
    → (is_above k rest ≡ true) × (ascends rest ≡ true)
unfolding ascends
ascends-tail k v rest h = (ground (arith, h), ground (arith, h))

-- A key beyond all others is put at the end.
pub insert_field-end :
    (k : Chars) (v : Value) (map rest : Fields)
    → precedes map (field k v rest) ≡ true
    → insert_field k v map ≡ join_fields map (field k v no_field)
unfolding insert_field join_fields precedes is_above
insert_field-end k v no_field rest h = refl
insert_field-end k v (field j w more) rest h =
    let low : chars_lt j k ≡ true = ground (arith, h) in
    let later : precedes more (field k v rest) ≡ true = ground (arith, h) in
    rw (chars_lt_neq j k low, chars_lt_asym j k low, insert_field-end k v more rest later)

pub precedes-join :
    (k : Chars) (v : Value) (map rest : Fields)
    → precedes map (field k v rest) ≡ true
    → is_above k rest ≡ true
    → precedes (join_fields map (field k v no_field)) rest ≡ true
unfolding join_fields precedes is_above
precedes-join k v no_field rest h e = ground (arith, e)
precedes-join k v (field j w more) rest h e =
    ground (arith, h, precedes-join k v more rest (ground (arith, h)) e)

pub join_fields-step :
    (k : Chars) (v : Value) (map rest : Fields)
    → join_fields (join_fields map (field k v no_field)) rest ≡ join_fields map (field k v rest)
unfolding join_fields
join_fields-step k v no_field rest = refl
join_fields-step k v (field j w more) rest = rw (join_fields-step k v more rest)

pub sort_entries-ascends :
    (indent : Option ℕ) (level : ℕ) (fields : Fields)
    → ascends fields ≡ true
    → sort_entries (write_fields indent level fields) ≡ write_fields indent level fields
unfolding sort_entries insert_entry write_fields ascends is_above
sort_entries-ascends indent level no_field h = refl
sort_entries-ascends indent level (field k v no_field) h = refl
sort_entries-ascends indent level (field k v (field j w rest)) h =
    let low : chars_lt k j ≡ true = ground (arith, h) in
    let later : ascends (field j w rest) ≡ true = ground (arith, h) in
    rw (sort_entries-ascends indent level (field j w rest) later, chars_lt_asym k j low)
