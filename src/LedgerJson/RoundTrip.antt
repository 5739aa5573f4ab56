-- ===== src/LedgerJson/RoundTrip.antt =====
-- Every value that can be written is read back, in either layout.
use nopal.Prelude.{
  ℕ, suc, ◌+◌, ◌*◌, ◌≡◌, refl, sym, ap, ◌∙◌, Bool, true, false, Option, [], ◌∷◌, ◌++◌, map,
  append_assoc, append-nil, arith, length,
}
use nopal.LedgerJson.Value.{
  Bytes, Chars, Value, Items, Fields, null, bool, number, string, array, object, no_item, item,
  no_field, field,
}
use nopal.LedgerJson.Scan.{ok, ws, starts, strip}
use nopal.LedgerJson.Order.{precedes, join_fields, sort_entries-ascends}
use nopal.LedgerJson.Layout.{
  IsWritable, AreWritable, ws-start, ws-write_value, starts-write_value, following,
}
use nopal.LedgerJson.Parser.{
  literal, parse_string, array_at, object_at, parse_value, finish, from_str,
}
use nopal.LedgerJson.Reads.{
  weight, spend, ReadsLiterals, parse_string-write_string, parse_value-number, Reads, ReadsItems,
  ReadsFields, ws-written, ws-entry, parse_items-step, parse_fields-step,
}
use nopal.LedgerJson.Weights.{weight-length}
use nopal.LedgerJson.Writer.{
  sort_entries, escape, write_rest, write_seq, write_string, write_entry, write_value, write_items,
  write_fields,
}

module _ (decode : Bytes → Option Chars) (reads : ReadsLiterals decode) (indent : Option ℕ) where
  parse_array-step :
      (items : Items)
      → ReadsItems decode reads indent items
      → Reads decode reads indent (array items)
  unfolding parse_value write_value write_seq write_items weight IsWritable array_at
  parse_array-step no_item read h level s t = spend _ λ fuel enough e q. rw (q, ws-start 93 t refl)
  parse_array-step (item v rest) read h level s t = spend _ λ fuel enough e q.
      let xs = write_items indent (suc level) rest in
      let body = write_rest indent level true (write_value indent (suc level) v ∷ xs) ++ 93 ∷ t in
      let here : ws s ≡ 91 ∷ body =
        q
        ∙ rw (
            append_assoc (write_rest indent level true (write_value indent (suc level) v ∷ xs))
              (93 ∷ []) t) in
      let written : ws body
          ≡ write_value indent (suc level) v ++ following indent level xs (93 ∷ t) =
        ws-written decode reads indent level true v xs (93 ∷ t) (unfold AreWritable in h.0) in
      let again : ws (ws body) ≡ ws body = rw written (
        ws-write_value indent (suc level) v (following indent level xs (93 ∷ t))
          (unfold AreWritable in h.0)) in
      let opened : starts 93 (ws body) ≡ false = rw written (
        starts-write_value indent (suc level) v (following indent level xs (93 ∷ t))
          (unfold AreWritable in h.0)) in
      rw (here, opened, read h level true (ws body) t fuel (omega arith) again)

  parse_object-step :
      (fields : Fields)
      → ReadsFields decode reads indent fields
      → Reads decode reads indent (object fields)
  unfolding parse_value write_value write_seq weight join_fields IsWritable object_at
  parse_object-step no_field read h level s t = spend _ λ fuel enough e q.
      let here : ws s ≡ 123 ∷ 125 ∷ t = unfold write_fields sort_entries in q in
      rw (here, ws-start 125 t refl)
  parse_object-step (field k v rest) read h level s t = spend _ λ fuel enough e q.
      let b = write_value indent (suc level) v in
      let xs = map write_entry (write_fields indent (suc level) rest) in
      let body = write_rest indent level true (write_entry (k, b) ∷ xs) ++ 125 ∷ t in
      let sorted = sort_entries-ascends indent (suc level) (field k v rest) h.0 in
      let here : ws s ≡ 123 ∷ body =
        q
        ∙ rw sorted (
            unfold write_fields in
            rw (
              append_assoc (write_rest indent level true (write_entry (k, b) ∷ xs)) (125 ∷ [])
                t)) in
      let written : ws body
          ≡ write_string k ++ 58 ∷ 32 ∷ (b ++ following indent level xs (125 ∷ t)) =
        ws-entry decode reads indent level true k b xs (125 ∷ t) in
      let again : ws (ws body) ≡ ws body = rw written (unfold write_string in ws-start 34 _ refl) in
      let opened : starts 125 (ws body) ≡ false = rw written (unfold write_string in refl) in
      rw (
        here,
        opened,
        read h.1 h.0 no_field level true (ws body) t fuel (omega arith) (unfold precedes in refl)
            (unfold write_fields in again),
      )

  parse_value-null : Reads decode reads indent null
  unfolding parse_value write_value literal strip weight
  parse_value-null h level s t = spend _ λ fuel enough e q. rw q

  parse_value-bool : (b : Bool) → Reads decode reads indent (bool b)
  unfolding parse_value write_value literal strip weight
  parse_value-bool true h level s t = spend _ λ fuel enough e q. rw q
  parse_value-bool false h level s t = spend _ λ fuel enough e q. rw q

  parse_number-Reads : (n : Bytes) → Reads decode reads indent (number n)
  unfolding write_value IsWritable weight
  parse_number-Reads n h level s t =
      spend _ λ fuel enough e q. parse_value-number decode reads n s t fuel h e q

  parse_value-string : (x : Chars) → Reads decode reads indent (string x)
  unfolding parse_value write_value IsWritable weight
  parse_value-string x h level s t = spend _ λ fuel enough e q.
      let here : ws s ≡ 34 ∷ ((escape x ++ 34 ∷ []) ++ t) = unfold write_string in q in
      let text : parse_string decode (34 ∷ ((escape x ++ 34 ∷ []) ++ t)) ≡ ok (x, t) =
        unfold write_string in parse_string-write_string decode reads x t h in
      rw (here, text)

  parse_value-Reads : (v : Value) → Reads decode reads indent v
  parse_value-Reads v =
      elim v
        as (Reads decode reads indent) (ReadsItems decode reads indent) (ReadsFields decode reads
          indent) [
            | null ↦ parse_value-null
            | bool b ↦ parse_value-bool b
            | number n ↦ parse_number-Reads n
            | string x ↦ parse_value-string x
            | array (xs → ih) ↦ parse_array-step xs ih
            | object (fs → ih) ↦ parse_object-step fs ih
            | no_item ↦ tt
            | item (w → one) (xs → more) ↦ parse_items-step decode reads indent w xs one more
            | no_field ↦ tt
            | field k (w → one) (fs → more) ↦ parse_fields-step decode reads indent k w fs one more
          ]

  -- What is written for a value is read back as that value.
  pub from_str-write_value :
      (v : Value) (level : ℕ) → IsWritable v → from_str decode (write_value indent level v) ≡ ok v
  unfolding from_str finish ws
  from_str-write_value v level h =
      let text = write_value indent level v in
      let fixed = ws-write_value indent level v [] h in
      let start : ws text ≡ text ++ [] = sym (ap ws (append-nil text)) ∙ fixed in
      rw (
        parse_value-Reads v h level text [] (2 * length text + 2)
          (omega (arith, weight-length indent v level h)) refl start)
