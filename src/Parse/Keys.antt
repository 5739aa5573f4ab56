-- ===== src/Parse/Keys.antt =====
-- A policy document that was read names no environment reference twice, and no rule of a mode twice.
use nopal.Prelude.{
  ℕ, suc, String, Bool, true, ◌≡◌, refl, ap, Option, none, some, List, [], ◌∷◌, ◌++◌, map, ◌==◌,
  any, all, all-append, contains, eq_iff, arith, Bool-cases, Option-cases, inl, inr,
}
use nopal.Json.{Json, contains_key, and_then}
use nopal.Diagnostics.Report.{Diagnostic}
use nopal.Policy.Vocabulary.{Mode, parse_mode}
use nopal.Policy.Doc.{ModePolicy, EnvRef, PolicyDoc}
use nopal.Parse.Distinct.{is_distinct, distinct-snoc, ids, parse_rules-is_distinct}
use nopal.Parse.Lists.{parse_class_list}
use nopal.Parse.Rules.{warn_unknown_keys}
use nopal.Parse.Modes.{
  Modes, Refs, parse_rules_field, parse_mode_object, parse_mode_policy, add_mode, mode_entry,
  mode_entries, parse_modes, named_ref, ref_object, ref_entry, ref_entries, parse_env_refs,
  check_policy_version, read_policy, validate_policy,
}

abbrev pub names : List EnvRef → List String
names env = map (λ (e : EnvRef). e.name) env

names-snoc : (env : List EnvRef) (e : EnvRef) → names (env ++ e ∷ []) ≡ names env ++ e.name ∷ []
names-snoc [] e = refl
names-snoc (x ∷ xs) e = ap (λ rest. x.name ∷ rest) (names-snoc xs e)

contains-names :
    (env : List EnvRef) (name : String)
    → contains (names env) name ≡ any (λ (e : EnvRef). e.name == name) env
unfolding contains any
contains-names [] name = refl
contains-names (x ∷ xs) name =
    ground (arith, contains-names xs name, eq_iff x.name name, eq_iff name x.name)

-- The rules of a mode have distinct ids, and so have those of every mode.
abbrev pub has_distinct_ids : ModePolicy → Bool
has_distinct_ids policy = is_distinct (ids policy.rules)

abbrev IsMode : Option ModePolicy → Type 0
IsMode none = Unit
IsMode (some policy) = has_distinct_ids policy ≡ true

abbrev pub all_distinct_ids : List (Mode × ModePolicy) → Bool
all_distinct_ids modes = all (λ m. has_distinct_ids m.1) modes

module _ (json : Json) (path : String) where
  -- The references that are kept have distinct names.
  abbrev IsNamed : Refs → Type 0
  IsNamed s = is_distinct (names s.env) ≡ true

  named_ref-IsNamed :
      (ctx : String) (fields : json.Object) (name : String) (s : Refs)
      → IsNamed s
      → IsNamed (named_ref json path ctx fields name s)
  unfolding named_ref
  named_ref-IsNamed ctx fields name s h =
      elim (Bool-cases (any (λ (e : EnvRef). e.name == name) s.env)) [
        | inl e ↦ rw e h
        | inr e ↦ elim (Bool-cases (contains_key json fields "classes")) [
          | inr f ↦ rw (e, f) h
          | inl f ↦
              let ref : EnvRef = record {
                name = name;
                classes =
                    (parse_class_list json ctx path (json.get fields "classes") s.diags).items;
              } in
              rw (e, f, names-snoc s.env ref)
                (ground (arith, h, e, distinct-snoc (names s.env) name, contains-names s.env name))
        ]
      ]

  ref_object-IsNamed :
      (ctx : String) (fields : json.Object) (s : Refs)
      → IsNamed s
      → IsNamed (ref_object json path ctx fields s)
  unfolding ref_object
  ref_object-IsNamed ctx fields s h =
      elim (Option-cases (and_then (json.get fields "name") json.as_str)) [
        | inl e ↦ rw (e, ref_object) h
        | inr (name, e) ↦ elim (Bool-cases (name == "")) [
          | inl blank ↦ rw (e, ref_object, blank) h
          | inr named ↦ rw (e, ref_object, named) (named_ref-IsNamed ctx fields name s h)
        ]
      ]

  ref_entry-IsNamed :
      (ctx : String) (entry : json.Value) (s : Refs)
      → IsNamed s
      → IsNamed (ref_entry json path ctx entry s)
  unfolding ref_entry
  ref_entry-IsNamed ctx entry s h = elim (Option-cases (json.as_object entry)) [
    | inl e ↦ rw (e, ref_entry) h
    | inr (fields, e) ↦ rw (e, ref_entry) (ref_object-IsNamed ctx fields _ h)
  ]

  ref_entries-IsNamed :
      (index : ℕ) (entries : List json.Value) (s : Refs)
      → IsNamed s
      → IsNamed (ref_entries json path index entries s)
  unfolding ref_entries
  ref_entries-IsNamed index [] s h = h
  ref_entries-IsNamed index (entry ∷ rest) s h =
      ref_entries-IsNamed (suc index) rest _ (ref_entry-IsNamed _ entry s h)

  parse_env_refs-IsNamed :
      (value : Option json.Value) (diags : List Diagnostic)
      → IsNamed (parse_env_refs json path value diags)
  unfolding parse_env_refs
  parse_env_refs-IsNamed none diags = refl
  parse_env_refs-IsNamed (some value) diags = elim (Option-cases (json.as_array value)) [
    | inl e ↦ rw (e, parse_env_refs) refl
    | inr (entries, e) ↦
        rw (e, parse_env_refs)
          (ref_entries-IsNamed 0 entries (record { env = []; diags = diags }) refl)
  ]

  rules_field-is_distinct :
      (ctx : String) (value : Option json.Value) (diags : List Diagnostic)
      → is_distinct (ids (parse_rules_field json path ctx value diags).rules) ≡ true
  unfolding parse_rules_field
  rules_field-is_distinct ctx none diags = refl
  rules_field-is_distinct ctx (some value) diags = elim (Option-cases (json.as_array value)) [
    | inl e ↦ rw (e, parse_rules_field) refl
    | inr (entries, e) ↦
        rw (e, parse_rules_field) (parse_rules-is_distinct json path ctx entries diags)
  ]

  parse_mode_policy-IsMode :
      (value : json.Value) (name : String) (diags : List Diagnostic)
      → IsMode (parse_mode_policy json path value name diags).value
  unfolding parse_mode_policy parse_mode_object
  parse_mode_policy-IsMode value name diags = elim (Option-cases (json.as_object value)) [
    | inl e ↦ rw (e, parse_mode_policy) tt
    | inr (fields, e) ↦
        rw (e, parse_mode_policy) (rules_field-is_distinct _ (json.get fields "rules") _)
  ]

  add_mode_distinct :
      (mode : Mode) (policy : Option ModePolicy) (modes : List (Mode × ModePolicy))
      → IsMode policy
      → all_distinct_ids modes ≡ true
      → all_distinct_ids (add_mode json path mode policy modes) ≡ true
  unfolding all
  add_mode_distinct mode none modes h k = k
  add_mode_distinct mode (some policy) modes h k =
      ground (arith, h, k, all-append (λ m. has_distinct_ids m.1) modes ((mode, policy) ∷ []))

  mode_entry_distinct :
      (name : String) (value : json.Value) (s : Modes)
      → all_distinct_ids s.modes ≡ true
      → all_distinct_ids (mode_entry json path name value s).modes ≡ true
  unfolding mode_entry
  mode_entry_distinct name value s h = elim (Option-cases (parse_mode name)) [
    | inl e ↦ rw (e, mode_entry) h
    | inr (mode, e) ↦
        rw (e, mode_entry)
          (add_mode_distinct mode (parse_mode_policy json path value name s.diags).value s.modes
            (parse_mode_policy-IsMode value name s.diags) h)
  ]

  mode_entries_distinct :
      (entries : List (String × json.Value)) (s : Modes)
      → all_distinct_ids s.modes ≡ true
      → all_distinct_ids (mode_entries json path entries s).modes ≡ true
  unfolding mode_entries
  mode_entries_distinct [] s h = h
  mode_entries_distinct ((name, value) ∷ rest) s h =
      mode_entries_distinct rest (mode_entry json path name value s)
        (mode_entry_distinct name value s h)

  parse_modes_distinct :
      (value : Option json.Value) (diags : List Diagnostic)
      → all_distinct_ids (parse_modes json path value diags).modes ≡ true
  unfolding parse_modes all
  parse_modes_distinct none diags = refl
  parse_modes_distinct (some value) diags = elim (Option-cases (json.as_object value)) [
    | inl e ↦ rw (e, parse_modes) refl
    | inr (object, e) ↦
        rw (e, parse_modes)
          (mode_entries_distinct (json.entries object) (record { modes = []; diags = diags }) refl)
  ]

  -- Whatever a policy document holds and whatever errors it has, what is read of it names no
  -- environment reference twice, and no rule of one mode twice.
  pub validate_policy_distinct :
      (root : json.Value) (doc : PolicyDoc)
      → (validate_policy json path root).value ≡ some doc
      → (is_distinct (names doc.env) ≡ true) × (all_distinct_ids doc.modes ≡ true)
  unfolding validate_policy read_policy
  validate_policy_distinct root doc h = elim (Option-cases (json.as_object root)) [
    | inl e ↦ absurd (cc (rw (e, validate_policy) at h))
    | inr (fields, e) ↦
        let read : (read_policy json path fields).value ≡ some doc = rw (e, validate_policy) at h in
        let checked =
          check_policy_version json path (and_then (json.get fields "version") json.as_str)
            (warn_unknown_keys json path fields ("version" ∷ "modes" ∷ "env" ∷ []) none []) in
        let modes = parse_modes json path (json.get fields "modes") checked in
        let refs = parse_env_refs json path (json.get fields "env") modes.diags in
        let env : refs.env ≡ doc.env = cc read in
        let same : modes.modes ≡ doc.modes = cc read in
        (
          rw (← env) (parse_env_refs-IsNamed (json.get fields "env") modes.diags),
          rw (← same) (parse_modes_distinct (json.get fields "modes") checked),
        )
  ]
