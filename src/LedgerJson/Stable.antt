-- ===== src/LedgerJson/Stable.antt =====
-- What the parser returns can be written and read back: its objects have their keys in order, each
-- once, its numbers are lexemes and its texts are texts.
use nopal.Prelude.{
  ℕ, zero, suc, ◌≡◌, refl, true, false, inl, inr, Option, none, some, [], ◌∷◌, Option-cases, length,
  ◌+◌, ◌*◌, all,
}
use nopal.LedgerJson.Value.{Bytes, Chars, Value, Items, Fields, null, bool, no_field, insert_field}
use nopal.LedgerJson.Scan.{
  Outcome, ok, error, out_of_fuel, then_do, starts, bump, ws, slice, strip, skip_number,
  skip_string,
}
use nopal.LedgerJson.Lexemes.{Outcome-cases}
use nopal.LedgerJson.Cut.{skip_number-slice}
use nopal.LedgerJson.Literals.{is_scalar}
use nopal.LedgerJson.Layout.{IsWritable, AreWritable, HasWritable}
use nopal.LedgerJson.Writer.{write_value}
use nopal.LedgerJson.Reads.{ReadsLiterals}
use nopal.LedgerJson.RoundTrip.{from_str-write_value}
use nopal.LedgerJson.Order.{ascends}
use nopal.LedgerJson.Settles.{if-holds}
use nopal.LedgerJson.Parser.{
  literal, parse_number, starts_number, parse_string, array_at, object_at, more_items, more_fields,
  value_at, parse_value, parse_items, parse_fields, finish, from_str,
}
use nopal.LedgerJson.Sorted.{ascends-insert, HasWritable-insert}

-- What an outcome returns has a property.
abbrev Gives {ℓ} : {A : Type ℓ} → (A → Type 0) → Outcome (A × Bytes) → Type 0
Gives P (ok (a, rest)) = P a
Gives P error = Unit
Gives P out_of_fuel = Unit

then_do-Gives {ℓ κ} :
    {A : Type ℓ} {B : Type κ} (P : A → Type 0) (Q : B → Type 0) (m : Outcome (A × Bytes))
    (f : A × Bytes → Outcome (B × Bytes))
    → Gives P m
    → ((a : A) (rest : Bytes) → P a → Gives Q (f (a, rest)))
    → Gives Q (then_do m f)
then_do-Gives P Q (ok (a, rest)) f h next = next a rest h
then_do-Gives P Q error f h next = tt
then_do-Gives P Q out_of_fuel f h next = tt

abbrev IsSorted : Fields → Type 0
IsSorted fields = (ascends fields ≡ true) × HasWritable fields

literal-Gives :
    (w : Bytes) (v : Value) (s : Bytes) → IsWritable v → Gives IsWritable (literal w v s)
unfolding literal
literal-Gives w v s h =
    elim (strip w s)
      as (λ o. Gives IsWritable (elim o [ some rest ↦ ok (v, rest) | none ↦ error ])) [
        | some rest ↦ h
        | none ↦ tt
      ]

parse_number-Gives : (s : Bytes) → Gives IsWritable (parse_number s)
unfolding parse_number IsWritable
parse_number-Gives s = elim (Outcome-cases (skip_number s)) [
  | inl (rest, e) ↦ rw e (skip_number-slice s rest e)
  | inr (inl e) ↦ rw e tt
  | inr (inr e) ↦ rw e tt
]

array_at-Gives :
    (loop : Bytes → Outcome (Items × Bytes)) (s : Bytes)
    → Gives AreWritable (loop s)
    → Gives IsWritable (array_at loop s)
unfolding array_at IsWritable AreWritable
array_at-Gives loop s h =
    if-holds (Gives IsWritable) (starts 93 s) _ _ (λ e. tt)
      (λ e. then_do-Gives AreWritable IsWritable (loop s) _ h (λ items rest k. k))

object_at-Gives :
    (loop : Bytes → Outcome (Fields × Bytes)) (s : Bytes)
    → Gives IsSorted (loop s)
    → Gives IsWritable (object_at loop s)
unfolding object_at IsWritable HasWritable ascends
object_at-Gives loop s h =
    if-holds (Gives IsWritable) (starts 125 s) _ _ (λ e. (refl, tt))
      (λ e. then_do-Gives IsSorted IsWritable (loop s) _ h (λ fields rest k. k))

more_items-Gives :
    (loop : Bytes → Outcome (Items × Bytes)) (v : Value) (s : Bytes)
    → IsWritable v
    → Gives AreWritable (loop (bump s))
    → Gives AreWritable (more_items loop v s)
unfolding more_items AreWritable
more_items-Gives loop v s h k =
    if-holds (Gives AreWritable) (starts 93 s) _ _ (λ e. (h, tt))
      (λ e.
        if-holds (Gives AreWritable) (starts 44 s) _ _
          (λ f. then_do-Gives AreWritable AreWritable (loop (bump s)) _ k (λ items rest l. (h, l)))
          (λ f. tt))

more_fields-Gives :
    (loop : Fields → Bytes → Outcome (Fields × Bytes)) (m : Fields) (s : Bytes)
    → IsSorted m
    → Gives IsSorted (loop m (bump s))
    → Gives IsSorted (more_fields loop m s)
unfolding more_fields
more_fields-Gives loop m s h k =
    if-holds (Gives IsSorted) (starts 125 s) _ _ (λ e. h)
      (λ e. if-holds (Gives IsSorted) (starts 44 s) _ _ (λ f. k) (λ f. tt))

-- `serde_json` decodes a literal to a `String`, which holds Unicode scalar values.
abbrev pub DecodesScalars : (Bytes → Option Chars) → Type 0
DecodesScalars decode = (s : Bytes) (t : Chars) → decode s ≡ some t → all is_scalar t ≡ true

module _ (decode : Bytes → Option Chars) (scalars : DecodesScalars decode) where
  abbrev GivesWritable : ℕ → Type 0
  GivesWritable fuel =
      ((s : Bytes) → Gives IsWritable (parse_value decode fuel s))
      × ((s : Bytes) → Gives AreWritable (parse_items decode fuel s))
      × ((m : Fields) (s : Bytes) → IsSorted m → Gives IsSorted (parse_fields decode fuel m s))

  abbrev IsText : Chars → Type 0
  IsText t = all is_scalar t ≡ true

  parse_string-Gives : (s : Bytes) → Gives IsText (parse_string decode s)
  unfolding parse_string
  parse_string-Gives s = elim (Option-cases (skip_string false (bump s))) [
    | inl e ↦ rw (parse_string, e) tt
    | inr (rest, e) ↦ elim (Option-cases (decode (slice s rest))) [
      | inl d ↦ rw (parse_string, e, d) tt
      | inr (t, d) ↦ rw (parse_string, e, d) (scalars (slice s rest) t d)
    ]
  ]

  parse_value-Gives :
      (fuel : ℕ)
      → GivesWritable fuel
      → (s : Bytes) → Gives IsWritable (parse_value decode (suc fuel) s)
  unfolding parse_value IsWritable HasWritable ascends
  parse_value-Gives fuel h s =
      let here = ws s in
      let P = Gives IsWritable in
      if-holds P (starts 110 here) _ _ (λ e. literal-Gives _ null here tt)
        (λ e.
          if-holds P (starts 116 here) _ _ (λ e. literal-Gives _ (bool true) here tt)
            (λ e.
              if-holds P (starts 102 here) _ _ (λ e. literal-Gives _ (bool false) here tt)
                (λ e.
                  if-holds P (starts 34 here) _ _
                    (λ e.
                      then_do-Gives IsText IsWritable (parse_string decode here) _
                        (parse_string-Gives here) (λ a rest k. k))
                    (λ e.
                      if-holds P (starts 91 here) _ _
                        (λ e.
                          array_at-Gives (λ r. parse_items decode fuel r) (ws (bump here))
                            (h.1 (ws (bump here))))
                        (λ e.
                          if-holds P (starts 123 here) _ _
                            (λ e.
                              object_at-Gives (λ r. parse_fields decode fuel no_field r)
                                (ws (bump here)) (h.2 no_field (ws (bump here)) (refl, tt)))
                            (λ e.
                              if-holds P (starts_number here) _ _ (λ e. parse_number-Gives here)
                                (λ e. tt)))))))

  value_at-Gives :
      (fuel : ℕ)
      → GivesWritable fuel
      → (m : Fields) (key : Chars) (after : Bytes) → IsText key
      → IsSorted m
      → Gives IsSorted (
          value_at
            (λ r. parse_value decode fuel r)
            (λ k r. parse_fields decode fuel k r)
            m
            (key, after))
  unfolding value_at
  value_at-Gives fuel h m key after q k =
      if-holds (Gives IsSorted) (starts 58 (ws after)) _ _
        (λ e.
          then_do-Gives IsWritable IsSorted (parse_value decode fuel (bump (ws after))) _
            (h.0 (bump (ws after)))
            (λ v rest ordered.
              let sorted : IsSorted (insert_field key v m) =
                (ascends-insert key v m k.0, HasWritable-insert key v m q ordered k.1) in
              more_fields-Gives (λ k r. parse_fields decode fuel k r) (insert_field key v m)
                (ws rest) sorted (h.2 (insert_field key v m) (bump (ws rest)) sorted)))
        (λ e. tt)

  parser-GivesWritable : (fuel : ℕ) → GivesWritable fuel
  unfolding parse_value parse_items parse_fields
  parser-GivesWritable zero = ((λ s. tt), (λ s. tt), (λ m s k. tt))
  parser-GivesWritable (suc fuel) =
      let h = parser-GivesWritable fuel in
      (
        (λ s. parse_value-Gives fuel h s),
        (λ s.
            then_do-Gives IsWritable AreWritable (parse_value decode fuel s) _ (h.0 s) (λ v rest k.
              more_items-Gives (λ r. parse_items decode fuel r) v (ws rest) k
                (h.1 (bump (ws rest))))),
        (λ m s k.
            if-holds (Gives IsSorted) (starts 34 (ws s)) _ _
              (λ e.
                then_do-Gives IsText IsSorted (parse_string decode (ws s)) _
                  (parse_string-Gives (ws s))
                  (λ key after q. value_at-Gives fuel h m key after q k))
              (λ e. tt)),
      )

  finish-IsWritable :
      (m : Outcome (Value × Bytes)) (v : Value)
      → Gives IsWritable m
      → then_do m finish ≡ ok v
      → IsWritable v
  unfolding finish
  finish-IsWritable (ok (w, rest)) v h e =
      elim (ws rest) as (λ r. (elim r [ [] ↦ ok w | c ∷ cs ↦ error ]) ≡ ok v → IsWritable v) [
        | [] ↦ λ e. let same : w ≡ v = cc e in rw (← same) h
        | c ∷ cs ↦ λ e. absurd (cc e)
      ]
        e
  finish-IsWritable error v h e = absurd (cc e)
  finish-IsWritable out_of_fuel v h e = absurd (cc e)

  from_str-IsWritable : (s : Bytes) (v : Value) → from_str decode s ≡ ok v → IsWritable v
  unfolding from_str
  from_str-IsWritable s v h =
      finish-IsWritable (parse_value decode (2 * length s + 2) s) v
        ((parser-GivesWritable (2 * length s + 2)).0 s) h

  -- If `serde_json` decodes literals to texts, and those of ASCII characters as RFC 8259 says, then
  -- whatever bytes a value was read from, it is read back from what is written for it, in either
  -- layout and at any level.
  pub from_str_stable :
      (reads : ReadsLiterals decode) (indent : Option ℕ) (level : ℕ) (s : Bytes) (v : Value)
      → from_str decode s ≡ ok v
      → from_str decode (write_value indent level v) ≡ ok v
  from_str_stable reads indent level s v h =
      from_str-write_value decode reads indent v level (from_str-IsWritable s v h)
