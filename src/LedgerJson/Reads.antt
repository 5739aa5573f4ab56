-- ===== src/LedgerJson/Reads.antt =====
-- What the writer printed, the parser reads: values inside any layout, with fuel for their size.
use nopal.Prelude.{
  ℕ, zero, suc, ◌+◌, ◌≤◌, ◌≡◌, refl, ◌∙◌, Bool, true, false, ◌||◌, Option, none, some, List, [],
  ◌∷◌, ◌++◌, map, eqb, append_assoc, all, arith,
}
use nopal.LedgerJson.Value.{
  Bytes, Chars, Value, Items, Fields, number, array, object, no_item, item, no_field, field,
  insert_field,
}
use nopal.LedgerJson.Scan.{ok, is_digit, ws, starts, bump, skip_number, skip_integer, skip_string}
use nopal.LedgerJson.Lexemes.{is_end, slice-append, skip_number-append}
use nopal.LedgerJson.Literals.{is_scalar, read_literal}
use nopal.LedgerJson.Escapes.{skip_string-escape, read_literal-write_string}
use nopal.LedgerJson.Order.{
  ascends, ascends-tail, precedes, join_fields, insert_field-end, precedes-join, join_fields-step,
}
use nopal.LedgerJson.Layout.{
  IsWritable, AreWritable, HasWritable, ws-start, skip_number-start, ws-write_value, following,
  ws-write_rest, ws-trail,
}
use nopal.LedgerJson.Parser.{
  parse_number, parse_string, more_items, more_fields, value_at, parse_value, parse_items,
  parse_fields,
}
use nopal.LedgerJson.Writer.{
  trail, escape, write_rest, write_string, write_entry, write_value, write_items, write_fields,
}

-- The fuel that reading takes.
unfoldable mutual
  pub weight : Value → ℕ
  weight (array items) = suc (items_weight items)
  weight (object fields) = suc (fields_weight fields)
  weight _ = 1

  pub items_weight : Items → ℕ
  items_weight no_item = 0
  items_weight (item v rest) = suc (weight v + items_weight rest)

  pub fields_weight : Fields → ℕ
  fields_weight no_field = 0
  fields_weight (field k v rest) = suc (weight v + fields_weight rest)

-- Fuel from some bound on is a successor.
pub spend {ℓ} :
    {n : ℕ} (P : ℕ → Type ℓ) → ((f : ℕ) → suc n ≤ suc f → P (suc f)) → (f : ℕ) → suc n ≤ f → P f
spend P k zero h = absurd (omega arith)
spend P k (suc f) h = k f h

-- `serde_json` reads a literal of ASCII characters as RFC 8259 says.
abbrev pub ReadsLiterals : (Bytes → Option Chars) → Type 0
ReadsLiterals decode = (s : Bytes) (t : Chars) → read_literal s ≡ some t → decode s ≡ some t

module _ (decode : Bytes → Option Chars) (reads : ReadsLiterals decode) where
  pub parse_string-write_string :
      (s : Chars) (t : Bytes)
      → all is_scalar s ≡ true
      → parse_string decode (write_string s ++ t) ≡ ok (s, t)
  unfolding parse_string
  parse_string-write_string s t h =
      let scan : skip_string false (bump (write_string s ++ t)) ≡ some t =
        unfold write_string in rw (append_assoc (escape s) (34 ∷ []) t) (skip_string-escape s t) in
      rw (
        parse_string,
        scan,
        slice-append (write_string s) t,
        reads (write_string s) s (read_literal-write_string s h),
      )

  pub parse_value-number :
      (n s t : Bytes) (f : ℕ)
      → skip_number n ≡ ok []
      → is_end t ≡ true
      → ws s ≡ n ++ t
      → parse_value decode (suc f) s ≡ ok (number n, t)
  unfolding parse_value parse_number
  parse_value-number [] s t f h e q = absurd (unfold skip_number skip_integer in cc h)
  parse_value-number (c ∷ cs) s t f h e q =
      let start : (eqb c 45 || is_digit c) ≡ true = skip_number-start c cs [] h in
      let n : eqb c 110 ≡ false = ground (arith, start) in
      let t_no : eqb c 116 ≡ false = ground (arith, start) in
      let f_no : eqb c 102 ≡ false = ground (arith, start) in
      let quote : eqb c 34 ≡ false = ground (arith, start) in
      let bracket : eqb c 91 ≡ false = ground (arith, start) in
      let brace : eqb c 123 ≡ false = ground (arith, start) in
      rw (
        q,
        n,
        t_no,
        f_no,
        quote,
        bracket,
        brace,
        start,
        skip_number-append t e (c ∷ cs) [] h,
        slice-append (c ∷ cs) t,
      )

  module _ (indent : Option ℕ) where
    abbrev pub Reads : Value → Type 0
    Reads v =
        IsWritable v
        → (level : ℕ) (s t : Bytes) (fuel : ℕ) → weight v ≤ fuel
        → is_end t ≡ true
        → ws s ≡ write_value indent level v ++ t
        → parse_value decode fuel s ≡ ok (v, t)

    abbrev pub ReadsItems : Items → Type 0
    ReadsItems no_item = Unit
    ReadsItems (item v rest) =
        AreWritable (item v rest)
        → (level : ℕ) (first : Bool) (s t : Bytes) (fuel : ℕ) → items_weight (item v rest) ≤ fuel
        → ws s
          ≡ ws (
              write_rest indent level first (write_items indent (suc level) (item v rest))
              ++ 93 ∷ t)
        → parse_items decode fuel s ≡ ok (item v rest, t)

    abbrev pub ReadsFields : Fields → Type 0
    ReadsFields no_field = Unit
    ReadsFields (field k v rest) =
        HasWritable (field k v rest)
        → ascends (field k v rest) ≡ true
        → (map_so_far : Fields) (level : ℕ) (first : Bool) (s t : Bytes) (fuel : ℕ)
        → fields_weight (field k v rest) ≤ fuel
        → precedes map_so_far (field k v rest) ≡ true
        → ws s
          ≡ ws (
              write_rest indent level first
                (map write_entry (write_fields indent (suc level) (field k v rest)))
              ++ 125 ∷ t)
        → parse_fields decode fuel map_so_far s ≡ ok (join_fields map_so_far (field k v rest), t)

    is_end-following :
        (level : ℕ) (xs : List Bytes) (c : ℕ) (t : Bytes)
        → is_end (c ∷ t) ≡ true
        → is_end (following indent level xs (c ∷ t)) ≡ true
    unfolding write_rest trail
    is_end-following level (x ∷ xs) c t h = refl
    is_end-following level [] c t h =
        elim indent as (λ indent. is_end (following indent level [] (c ∷ t)) ≡ true) [
          | none ↦ h
          | some width ↦ refl
        ]

    pub ws-written :
        (level : ℕ) (first : Bool) (v : Value) (xs : List Bytes) (t : Bytes)
        → IsWritable v
        → ws (write_rest indent level first (write_value indent (suc level) v ∷ xs) ++ t)
          ≡ write_value indent (suc level) v ++ following indent level xs t
    ws-written level first v xs t h =
        ws-write_rest indent level first (write_value indent (suc level) v) xs t
        ∙ ws-write_value indent (suc level) v (following indent level xs t) h

    pub parse_items-step :
        (v : Value) (rest : Items) → Reads v → ReadsItems rest → ReadsItems (item v rest)
    unfolding parse_items write_items items_weight AreWritable more_items
    parse_items-step v no_item read reads_rest h level first s t = spend _ λ fuel enough q.
        let close : ws (following indent level [] (93 ∷ t)) ≡ 93 ∷ t =
          unfold write_rest in ws-trail indent level 93 t refl in
        rw (
          read h.0 (suc level) s (following indent level [] (93 ∷ t)) fuel (omega arith)
              (is_end-following level [] 93 t refl) (q ∙ ws-written level first v [] (93 ∷ t) h.0),
          close,
        )
    parse_items-step v (item w rest) read reads_rest h level first s t = spend _ λ fuel enough q.
        let xs = write_items indent (suc level) (item w rest) in
        let later = write_rest indent level false xs ++ 93 ∷ t in
        rw (
          read h.0 (suc level) s (following indent level xs (93 ∷ t)) fuel (omega arith)
              (is_end-following level xs 93 t refl) (q ∙ ws-written level first v xs (93 ∷ t) h.0),
          ws-start 44 later refl,
          reads_rest h.1 level false later t fuel (omega arith) refl,
        )

    pub ws-entry :
        (level : ℕ) (first : Bool) (k : Chars) (b : Bytes) (xs : List Bytes) (t : Bytes)
        → ws (write_rest indent level first (write_entry (k, b) ∷ xs) ++ t)
          ≡ write_string k ++ 58 ∷ 32 ∷ (b ++ following indent level xs t)
    unfolding write_entry
    ws-entry level first k b xs t =
        let rest = 58 ∷ 32 ∷ (b ++ following indent level xs t) in
        let quoted : ws (write_string k ++ rest) ≡ write_string k ++ rest =
          unfold write_string in ws-start 34 ((escape k ++ 34 ∷ []) ++ rest) refl in
        ws-write_rest indent level first (write_entry (k, b)) xs t
        ∙ rw (append_assoc (write_string k) (58 ∷ 32 ∷ b) (following indent level xs t)) quoted

    -- An entry is read up to what follows it.
    parse_fields-entry :
        (k : Chars) (v : Value) (map_so_far : Fields) (level : ℕ) (s f : Bytes) (fuel : ℕ)
        → Reads v
        → all is_scalar k ≡ true
        → IsWritable v
        → weight v ≤ fuel
        → is_end f ≡ true
        → ws s ≡ write_string k ++ 58 ∷ 32 ∷ (write_value indent level v ++ f)
        → parse_fields decode (suc fuel) map_so_far s
          ≡ more_fields (λ m r. parse_fields decode fuel m r) (insert_field k v map_so_far) (ws f)
    unfolding parse_fields value_at
    parse_fields-entry k v map_so_far level s f fuel read scalar writable enough ends q =
        let value = write_value indent level v ++ f in
        let quote : starts 34 (write_string k ++ 58 ∷ 32 ∷ value) ≡ true =
          unfold write_string in refl in
        let colon : ws (58 ∷ 32 ∷ value) ≡ 58 ∷ 32 ∷ value = ws-start 58 (32 ∷ value) refl in
        let space : ws (32 ∷ value) ≡ value =
          unfold ws in ws-write_value indent level v f writable in
        rw (
          q,
          quote,
          parse_string-write_string k (58 ∷ 32 ∷ value) scalar,
          colon,
          read writable level (32 ∷ value) f fuel enough ends space,
        )

    pub parse_fields-step :
        (k : Chars) (v : Value) (rest : Fields)
        → Reads v
        → ReadsFields rest
        → ReadsFields (field k v rest)
    unfolding write_fields fields_weight HasWritable more_fields
    parse_fields-step k v no_field read reads_rest h up map_so_far level first s t =
        spend _ λ fuel enough low q.
          let close : ws (following indent level [] (125 ∷ t)) ≡ 125 ∷ t =
            unfold write_rest in ws-trail indent level 125 t refl in
          rw (
            parse_fields-entry k v map_so_far (suc level) s (following indent level [] (125 ∷ t))
                fuel read h.0 h.1 (omega arith) (is_end-following level [] 125 t refl)
                (q ∙ ws-entry level first k (write_value indent (suc level) v) [] (125 ∷ t)),
            close,
            insert_field-end k v map_so_far no_field low,
          )
    parse_fields-step k v (field j w rest) read reads_rest h up map_so_far level first s t =
        spend _ λ fuel enough low q.
          let xs = map write_entry (write_fields indent (suc level) (field j w rest)) in
          let later = write_rest indent level false xs ++ 125 ∷ t in
          let (above, up_rest) = ascends-tail k v (field j w rest) up in
          rw (
            parse_fields-entry k v map_so_far (suc level) s (following indent level xs (125 ∷ t))
                fuel read h.0 h.1 (omega arith) (is_end-following level xs 125 t refl)
                (q ∙ ws-entry level first k (write_value indent (suc level) v) xs (125 ∷ t)),
            ws-start 44 later refl,
            insert_field-end k v map_so_far (field j w rest) low,
            reads_rest h.2 up_rest (join_fields map_so_far (field k v no_field)) level false later t
                fuel (omega arith) (precedes-join k v map_so_far (field j w rest) low above) refl,
            join_fields-step k v map_so_far (field j w rest),
          )
