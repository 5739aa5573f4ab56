-- ===== src/Parse/Distinct.antt =====
-- What the validator of policy documents keeps is distinct: the classes and the actions of a rule,
-- and the ids of the rules of a mode.
use nopal.Prelude.{
  ℕ, suc, String, Bool, true, not, ◌&&◌, ◌≡◌, refl, sym, ap, ◌∙◌, Option, none, some, List, [], ◌∷◌,
  ◌++◌, map, ◌==◌, eq_iff, arith, contains, contains-snoc, concat, Bool-cases, Option-cases, inl,
  inr,
}
use nopal.Json.{Json, and_then}
use nopal.Diagnostics.Report.{Diagnostic}
use nopal.Policy.Vocabulary.{ActionClass, parse_class, is_known}
use nopal.Policy.Doc.{Rule}
use nopal.Parse.Lists.{
  Filled, push_diag, push_new, push_class, class_entry, class_entries, parse_class_list,
  action_entry, action_entries, parse_action_list,
}
use nopal.Parse.Rules.{
  Rules, parse_rule, parse_rule_object, parse_rule_fields, keep_rule, parse_rules,
}

abbrev pub is_distinct : List String → Bool
is_distinct [] = true
is_distinct (x ∷ xs) = not (contains xs x) && is_distinct xs

pub distinct-snoc :
    (xs : List String) (x : String)
    → is_distinct (xs ++ x ∷ []) ≡ (is_distinct xs && not (contains xs x))
unfolding contains
distinct-snoc [] x = refl
distinct-snoc (y ∷ ys) x =
    ground (arith, distinct-snoc ys x, contains-snoc ys x y, eq_iff x y, eq_iff y x)

push_new-is_distinct :
    (item : String) (f : Filled)
    → is_distinct f.items ≡ true
    → is_distinct (push_new item f).items ≡ true
push_new-is_distinct item f h = elim (Bool-cases (contains f.items item)) [
  | inl e ↦ rw e h
  | inr e ↦ rw e (ground (arith, h, e, distinct-snoc f.items item))
]

module _ (json : Json) (ctx path : String) where
  push_class-is_distinct :
      (value : json.Value) (class : ActionClass) (f : Filled)
      → is_distinct f.items ≡ true
      → is_distinct (push_class json ctx path value class f).items ≡ true
  unfolding push_class
  push_class-is_distinct value class f h = elim (Bool-cases (is_known class)) [
    | inl e ↦ rw e (push_new-is_distinct class f h)
    | inr e ↦ rw e (push_new-is_distinct class (push_diag _ f) h)
  ]

  class_entry-is_distinct :
      (value : json.Value) (f : Filled)
      → is_distinct f.items ≡ true
      → is_distinct (class_entry json ctx path value f).items ≡ true
  unfolding class_entry
  class_entry-is_distinct value f h =
      elim (Option-cases (and_then (json.as_str value) parse_class)) [
        | inl e ↦ rw (e, class_entry) h
        | inr (class, e) ↦ rw (e, class_entry) (push_class-is_distinct value class f h)
      ]

  class_entries-is_distinct :
      (entries : List json.Value) (f : Filled)
      → is_distinct f.items ≡ true
      → is_distinct (class_entries json ctx path entries f).items ≡ true
  unfolding class_entries
  class_entries-is_distinct [] f h = h
  class_entries-is_distinct (value ∷ rest) f h =
      class_entries-is_distinct rest (class_entry json ctx path value f)
        (class_entry-is_distinct value f h)

  action_entry-is_distinct :
      (value : json.Value) (f : Filled)
      → is_distinct f.items ≡ true
      → is_distinct (action_entry json ctx path value f).items ≡ true
  unfolding action_entry
  action_entry-is_distinct value f h = elim (Option-cases (json.as_str value)) [
    | inl e ↦ rw (e, action_entry) h
    | inr (action, e) ↦ elim (Bool-cases (action == "")) [
      | inl blank ↦ rw (e, action_entry, blank) h
      | inr named ↦ rw (e, action_entry, named) (push_new-is_distinct action f h)
    ]
  ]

  action_entries-is_distinct :
      (entries : List json.Value) (f : Filled)
      → is_distinct f.items ≡ true
      → is_distinct (action_entries json ctx path entries f).items ≡ true
  unfolding action_entries
  action_entries-is_distinct [] f h = h
  action_entries-is_distinct (value ∷ rest) f h =
      action_entries-is_distinct rest (action_entry json ctx path value f)
        (action_entry-is_distinct value f h)

  classes-is_distinct :
      (value : Option json.Value) (diags : List Diagnostic)
      → is_distinct (parse_class_list json ctx path value diags).items ≡ true
  unfolding parse_class_list
  classes-is_distinct none diags = refl
  classes-is_distinct (some value) diags = elim (Option-cases (json.as_array value)) [
    | inl e ↦ rw (e, parse_class_list) refl
    | inr (entries, e) ↦
        rw (e, parse_class_list)
          (class_entries-is_distinct entries (record { items = []; diags = diags }) refl)
  ]

  actions-is_distinct :
      (value : Option json.Value) (diags : List Diagnostic)
      → is_distinct (parse_action_list json ctx path value diags).items ≡ true
  unfolding parse_action_list
  actions-is_distinct none diags = refl
  actions-is_distinct (some value) diags = elim (Option-cases (json.as_array value)) [
    | inl e ↦ rw (e, parse_action_list) refl
    | inr (entries, e) ↦
        rw (e, parse_action_list)
          (action_entries-is_distinct entries (record { items = []; diags = diags }) refl)
  ]

-- The lists of a rule have no entry twice.
abbrev pub HasDistinct : Option Rule → Type 0
HasDistinct none = Unit
HasDistinct (some rule) = (is_distinct rule.classes ≡ true) × (is_distinct rule.actions ≡ true)

module _ (json : Json) (path : String) where
  parse_rule_object-HasDistinct :
      (ctx : String) (fields : json.Object) (diags : List Diagnostic)
      → HasDistinct (parse_rule_object json path ctx fields diags).value
  unfolding parse_rule_object parse_rule_fields
  parse_rule_object-HasDistinct ctx fields diags =
      elim (Option-cases (and_then (json.get fields "id") json.as_str)) [
        | inl e ↦ rw (e, parse_rule_object) tt
        | inr (id, e) ↦ elim (Bool-cases (id == "")) [
          | inl blank ↦ rw (e, parse_rule_object, blank) tt
          | inr named ↦
              rw (e, parse_rule_object, named)
                (
                  classes-is_distinct json ctx path (json.get fields "classes") _,
                  actions-is_distinct json ctx path (json.get fields "actions") _,
                )
        ]
      ]

  -- A rule that is read names no class and no action twice.
  pub parse_rule-HasDistinct :
      (value : json.Value) (ctx : String) (diags : List Diagnostic)
      → HasDistinct (parse_rule json path value ctx diags).value
  unfolding parse_rule
  parse_rule-HasDistinct value ctx diags = elim (Option-cases (json.as_object value)) [
    | inl e ↦ rw (e, parse_rule) tt
    | inr (fields, e) ↦ rw (e, parse_rule) (parse_rule_object-HasDistinct ctx fields _)
  ]

abbrev pub ids : List Rule → List String
ids rules = map (λ (r : Rule). r.id) rules

-- The seen ids are those of the rules, and they are distinct.
abbrev IsTracked : Rules → Type 0
IsTracked s = (s.seen_ids ≡ ids s.rules) × (is_distinct s.seen_ids ≡ true)

ids-snoc : (rules : List Rule) (r : Rule) → ids (rules ++ r ∷ []) ≡ ids rules ++ r.id ∷ []
ids-snoc [] r = refl
ids-snoc (x ∷ xs) r = ap (λ rest. x.id ∷ rest) (ids-snoc xs r)

module _ (json : Json) (path : String) where
  keep_rule-IsTracked :
      (ctx : String) (rule : Option Rule) (s : Rules)
      → IsTracked s
      → IsTracked (keep_rule json path ctx rule s)
  unfolding keep_rule
  keep_rule-IsTracked ctx none s h = h
  keep_rule-IsTracked ctx (some rule) s (same, distinct) =
      elim (Bool-cases (contains s.seen_ids rule.id)) [
        | inl e ↦ rw e (same, distinct)
        | inr e ↦ rw e (
          ap (λ xs. xs ++ rule.id ∷ []) same ∙ sym (ids-snoc s.rules rule),
          ground (arith, distinct, e, distinct-snoc s.seen_ids rule.id),
        )
      ]

  parse_rules-IsTracked :
      (ctx : String) (index : ℕ) (entries : List json.Value) (s : Rules)
      → IsTracked s
      → IsTracked (parse_rules json path ctx index entries s)
  unfolding parse_rules
  parse_rules-IsTracked ctx index [] s h = h
  parse_rules-IsTracked ctx index (value ∷ rest) s h =
      let name = concat (ctx ∷ ".rules[" ∷ json.decimal index ∷ "]" ∷ []) in
      let parsed = parse_rule json path value name s.diags in
      parse_rules-IsTracked ctx (suc index) rest
        (keep_rule json path name parsed.value (record s { diags = parsed.diags }))
        (keep_rule-IsTracked name parsed.value (record s { diags = parsed.diags }) h)

  -- The rules that a mode keeps have distinct ids, whatever its entries are.
  pub parse_rules-is_distinct :
      (ctx : String) (entries : List json.Value) (diags : List Diagnostic)
      → is_distinct (
          ids
            (parse_rules json path ctx 0 entries
              (record { rules = []; seen_ids = []; diags = diags })).rules)
        ≡ true
  parse_rules-is_distinct ctx entries diags =
      let s : Rules = record { rules = []; seen_ids = []; diags = diags } in
      let (same, distinct) = parse_rules-IsTracked ctx 0 entries s (refl, refl) in
      ap is_distinct (sym same) ∙ distinct
