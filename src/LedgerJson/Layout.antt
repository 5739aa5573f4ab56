-- ===== src/LedgerJson/Layout.antt =====
-- How the writer lays values out, as the parser meets it: spaces are skipped, and the first byte
-- tells what follows.
use nopal.Prelude.{
  ℕ, zero, suc, ◌+◌, ◌*◌, ◌≡◌, refl, ◌∙◌, Bool, true, false, not, ◌||◌, Option, none, some, inl,
  inr, List, [], ◌∷◌, ◌++◌, map, eqb, leb, ◌&&◌, append_assoc, all, arith, Bool-cases,
}
use nopal.LedgerJson.Value.{
  Bytes, Value, Items, Fields, null, bool, number, string, array, object, no_item, item, no_field,
  field,
}
use nopal.LedgerJson.Scan.{ok, is_space, is_digit, ws, starts, skip_number, skip_integer}
use nopal.LedgerJson.Literals.{is_scalar}
use nopal.LedgerJson.Order.{ascends}
use nopal.LedgerJson.Writer.{
  spaces, lead, trail, separator, write_rest, write_seq, write_string, write_value, write_items,
  write_fields, write_entry, sort_entries,
}

-- What can be written and read back: numbers are lexemes, characters are scalar values, and keys
-- are in order.
unfoldable mutual
  pub IsWritable : Value → Type 0
  IsWritable null = Unit
  IsWritable (bool b) = Unit
  IsWritable (number n) = skip_number n ≡ ok []
  IsWritable (string s) = all is_scalar s ≡ true
  IsWritable (array items) = AreWritable items
  IsWritable (object fields) = (ascends fields ≡ true) × HasWritable fields

  pub AreWritable : Items → Type 0
  AreWritable no_item = Unit
  AreWritable (item v rest) = IsWritable v × AreWritable rest

  pub HasWritable : Fields → Type 0
  HasWritable no_field = Unit
  HasWritable (field k v rest) = (all is_scalar k ≡ true) × IsWritable v × HasWritable rest

-- A byte that starts a value is no space and closes no array.
abbrev pub is_start : ℕ → Bool
is_start c = not (is_space c || eqb c 93)

pub ws-start : (c : ℕ) (cs : Bytes) → is_space c ≡ false → ws (c ∷ cs) ≡ c ∷ cs
unfolding ws
ws-start c cs h = ground (arith, h)

ws-spaces : (n : ℕ) (t : Bytes) → ws (spaces n ++ t) ≡ ws t
unfolding ws
ws-spaces zero t = refl
ws-spaces (suc n) t = ws-spaces n t

ws-lead :
    (indent : Option ℕ) (level : ℕ) (first : Bool) (t : Bytes)
    → ws (lead indent level first ++ t) ≡ ws t
unfolding ws lead
ws-lead none level true t = refl
ws-lead none level false t = refl
ws-lead (some width) level first t = ws-spaces (width * (level + 1)) t

-- A byte that starts a number is a digit or the sign.
pub skip_number-start :
    (c : ℕ) (cs r : Bytes) → skip_number (c ∷ cs) ≡ ok r → (eqb c 45 || is_digit c) ≡ true
unfolding skip_number skip_integer
skip_number-start c cs r h = elim (Bool-cases (eqb c 45)) [
  | inl e ↦ rw e
  | inr e ↦ elim (Bool-cases (is_digit c)) [
    | inl d ↦ rw (e, d)
    | inr d ↦
        let zero_no : eqb c 48 ≡ false = ground (arith, d) in
        let other_no : (leb 49 c && leb c 57) ≡ false = ground (arith, d) in
        absurd (cc (rw (e, zero_no, other_no) at h))
  ]
]

module _ (indent : Option ℕ) (level : ℕ) where
  write_seq-start :
      (left right : ℕ) (xs : List Bytes)
      → (cs : Bytes) × (write_seq indent level left right xs ≡ left ∷ cs)
  unfolding write_seq
  write_seq-start left right [] = (_, refl)
  write_seq-start left right (x ∷ xs) = (_, refl)

  -- What is written for a value has a first byte.
  pub write_value-start :
      (v : Value)
      → IsWritable v
      → (c : ℕ) × (cs : Bytes) × (write_value indent level v ≡ c ∷ cs) × (is_start c ≡ true)
  unfolding write_value write_string write_seq IsWritable
  write_value-start null h = (110, _, refl, refl)
  write_value-start (bool true) h = (116, _, refl, refl)
  write_value-start (bool false) h = (102, _, refl, refl)
  write_value-start (number []) h = absurd (unfold skip_number skip_integer in cc h)
  write_value-start (number (c ∷ cs)) h =
      let start : (eqb c 45 || is_digit c) ≡ true = skip_number-start c cs [] h in
      (c, cs, refl, ground (arith, start))
  write_value-start (string s) h = (34, _, refl, refl)
  write_value-start (array items) h =
      let (cs, e) = write_seq-start 91 93 (write_items indent (suc level) items) in
      (91, cs, e, refl)
  write_value-start (object fields) h =
      let (cs, e) =
        write_seq-start 123 125
          (map write_entry (sort_entries (write_fields indent (suc level) fields))) in
      (123, cs, e, refl)

  pub ws-write_value :
      (v : Value) (t : Bytes)
      → IsWritable v
      → ws (write_value indent level v ++ t) ≡ write_value indent level v ++ t
  ws-write_value v t h =
      let (c, cs, e, start) = write_value-start v h in
      rw (e, ws-start c (cs ++ t) (ground (arith, start)))

  pub starts-write_value :
      (v : Value) (t : Bytes) → IsWritable v → starts 93 (write_value indent level v ++ t) ≡ false
  starts-write_value v t h =
      let (c, cs, e, start) = write_value-start v h in rw (e) (ground (arith, start))

  -- What follows an item of a sequence.
  abbrev pub following : List Bytes → Bytes → Bytes
  following xs t = separator xs ++ (write_rest indent level false xs ++ t)

  pub ws-write_rest :
      (first : Bool) (x : Bytes) (xs : List Bytes) (t : Bytes)
      → ws (write_rest indent level first (x ∷ xs) ++ t) ≡ ws (x ++ following xs t)
  unfolding write_rest
  ws-write_rest first x xs t = rw (
    append_assoc (lead indent level first) (x ++ (separator xs ++ write_rest indent level false xs))
        t,
    ws-lead indent level first ((x ++ (separator xs ++ write_rest indent level false xs)) ++ t),
    append_assoc x (separator xs ++ write_rest indent level false xs) t,
    append_assoc (separator xs) (write_rest indent level false xs) t,
  )

  pub ws-trail : (c : ℕ) (t : Bytes) → is_space c ≡ false → ws (trail indent level ++ c ∷ t) ≡ c ∷ t
  unfolding trail ws
  ws-trail c t h = elim indent as (λ indent. ws (trail indent level ++ c ∷ t) ≡ c ∷ t) [
    | none ↦ ws-start c t h
    | some width ↦ ws-spaces (width * level) (c ∷ t) ∙ ws-start c t h
  ]
