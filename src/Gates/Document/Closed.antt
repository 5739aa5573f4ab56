-- ===== src/Gates/Document/Closed.antt =====
-- References in a gates document: without errors, every name of a set and every id of a gate that a
-- selector or a set gives is declared.
use nopal.Prelude.{
  ℕ, suc, ◌+◌, ◌≤◌, String, Bool, true, ◌≡◌, refl, Option, none, some, List, [], ◌∷◌, ◌++◌, arith,
  all, concat, is_some, Bool-cases, Option-cases, inl, inr,
}
use nopal.Json.{Json, and_then, get_field}
use nopal.Diagnostics.Codes.{gate_ref_unknown, gate_set_unknown}
use nopal.Diagnostics.Report.{Diagnostic, error_diagnostic}
use nopal.Diagnostics.Errors.{errors, errors-append, error_counts}
use nopal.Diagnostics.Said.{Said, try-holds}
use nopal.Gates.{Gate, GateSet, Selector, GatesConfig, get_set}
use nopal.Gates.Document.Fields.{required_str, required_str_list, entry_list}
use nopal.Gates.Document.Entries.{add_some, parse_preflights, parse_gates}
use nopal.Gates.Document.Sets.{
  Sets, filter_strs, is_declared, check_refs, parse_gate_set, named, parse_set_entries,
  parse_gate_sets, check_sets, parse_exclude, finish_selector, parse_selector,
  parse_selector_entries, parse_selectors,
}
use nopal.Gates.Document.Scaffold.{Read, parse_scaffold_provenance}
use nopal.Gates.Document.Validate.{check_kind, validate_document}

-- Every id of every set is declared.
abbrev pub sets_closed : List Gate → Sets → Bool
sets_closed gates sets = all (λ (e : String × GateSet). all (is_declared gates) e.1.gates) sets

-- Every set that a selector names exists.
abbrev pub selectors_closed : Sets → List Selector → Bool
selectors_closed sets selectors =
    all (λ (s : Selector). all (λ name. is_some (get_set sets name)) s.gate_sets) selectors

-- The last three of the parts of a document have no error if the whole has none.
errors-parts :
    (a b c d e f g k : List Diagnostic)
    → errors (a ++ (b ++ (c ++ (d ++ (e ++ (f ++ (g ++ k))))))) ≡ 0
    → (errors f ≡ 0) × (errors g ≡ 0) × (errors k ≡ 0)
errors-parts a b c d e f g k h =
    let sum : errors f + errors g + errors k ≤ 0 = omega (
      arith,
      h,
      errors-append a (b ++ (c ++ (d ++ (e ++ (f ++ (g ++ k)))))),
      errors-append b (c ++ (d ++ (e ++ (f ++ (g ++ k))))),
      errors-append c (d ++ (e ++ (f ++ (g ++ k)))),
      errors-append d (e ++ (f ++ (g ++ k))),
      errors-append e (f ++ (g ++ k)),
      errors-append f (g ++ k),
      errors-append g k,
    ) in
    (omega (arith, sum), omega (arith, sum), omega (arith, sum))

module _ (json : Json) (path : String) where
  check_refs-declared :
      (gates : List Gate) (at : String) (ids : List String)
      → errors (check_refs json path gates at ids) ≡ 0
      → all (is_declared gates) ids ≡ true
  unfolding check_refs all
  check_refs-declared gates at [] h = refl
  check_refs-declared gates at (id ∷ ids) h = elim (Bool-cases (is_declared gates id)) [
    | inl e ↦ rw e (check_refs-declared gates at ids (rw e at h))
    | inr e ↦ absurd (
        omega (
          arith,
          rw e at h,
          errors-append
              (error_diagnostic gate_ref_unknown path
                  (concat (at ∷ ": references unknown gate id " ∷ json.debug id ∷ []))
                ∷ [])
              (check_refs json path gates at ids),
          error_counts gate_ref_unknown path
              (concat (at ∷ ": references unknown gate id " ∷ json.debug id ∷ [])),
        ))
  ]

  check_sets-exist :
      (sets : Sets) (at : String) (names : List String)
      → errors (check_sets json path sets at names) ≡ 0
      → all (λ name. is_some (get_set sets name)) names ≡ true
  unfolding check_sets all
  check_sets-exist sets at [] h = refl
  check_sets-exist sets at (name ∷ names) h = elim (Bool-cases (is_some (get_set sets name))) [
    | inl e ↦ rw e (check_sets-exist sets at names (rw e at h))
    | inr e ↦ absurd (
        omega (
          arith,
          rw e at h,
          errors-append
              (error_diagnostic gate_set_unknown path
                  (concat (at ∷ ": references unknown gate set " ∷ json.debug name ∷ []))
                ∷ [])
              (check_sets json path sets at names),
          error_counts gate_set_unknown path
              (concat (at ∷ ": references unknown gate set " ∷ json.debug name ∷ [])),
        ))
  ]

  parse_gate_set-closed :
      (gates : List Gate) (name : String) (entry : json.Value)
      → errors (parse_gate_set json path gates name entry).said ≡ 0
      → sets_closed gates
          (add_some (named json path name (parse_gate_set json path gates name entry).value) [])
        ≡ true
  unfolding parse_gate_set all
  parse_gate_set-closed gates name entry h =
      elim (Option-cases (and_then (get_field json entry "gates") json.as_array)) [
        | inl e ↦ rw (e, parse_gate_set) refl
        | inr (items, e) ↦
            rw (e, parse_gate_set)
              (ground (
                arith,
                check_refs-declared gates (concat ("gate_sets." ∷ name ∷ []))
                    (filter_strs json items) (rw (e, parse_gate_set) at h),
              ))
      ]

  closed-add_some :
      (gates : List Gate) (set : Option (String × GateSet)) (sets : Sets)
      → sets_closed gates (add_some set []) ≡ true
      → sets_closed gates sets ≡ true
      → sets_closed gates (add_some set sets) ≡ true
  unfolding all
  closed-add_some gates none sets h k = k
  closed-add_some gates (some set) sets h k = ground (arith, h, k)

  parse_set_entries-closed :
      (gates : List Gate) (entries : List (String × json.Value))
      → errors (parse_set_entries json path gates entries).said ≡ 0
      → sets_closed gates (parse_set_entries json path gates entries).value ≡ true
  unfolding parse_set_entries all
  parse_set_entries-closed gates [] h = refl
  parse_set_entries-closed gates ((name, entry) ∷ rest) h =
      let set = parse_gate_set json path gates name entry in
      let later = parse_set_entries json path gates rest in
      let first = errors-append set.said (later.said ++ []) in
      let second = errors-append later.said [] in
      closed-add_some gates (named json path name set.value) later.value
        (parse_gate_set-closed gates name entry (omega (arith, h, first, second)))
        (parse_set_entries-closed gates rest (omega (arith, h, first, second)))

  parse_gate_sets-closed :
      (root : json.Value) (gates : List Gate)
      → errors (parse_gate_sets json path root gates).said ≡ 0
      → sets_closed gates (parse_gate_sets json path root gates).value ≡ true
  unfolding parse_gate_sets all
  parse_gate_sets-closed root gates h = elim (Option-cases (get_field json root "gate_sets")) [
    | inl e ↦ rw (e, parse_gate_sets) refl
    | inr (value, e) ↦ elim (Option-cases (json.as_object value)) [
      | inl f ↦ rw (e, parse_gate_sets, f) refl
      | inr (object, f) ↦
          rw (e, parse_gate_sets, f)
            (parse_set_entries-closed gates (json.entries object) (rw (e, parse_gate_sets, f) at h))
    ]
  ]

  abbrev selector_closed : Sets → Option Selector → Bool
  selector_closed sets selector = selectors_closed sets (add_some selector [])

  parse_selector-closed :
      (sets : Sets) (entry : json.Value) (at : String)
      → errors (parse_selector json path sets entry at).said ≡ 0
      → selector_closed sets (parse_selector json path sets entry at).value ≡ true
  unfolding parse_selector finish_selector all
  parse_selector-closed sets entry at =
      let P = λ (s : Option Selector). selector_closed sets s ≡ true in
      try-holds P (required_str json path entry "name" at) _ refl (λ name.
        try-holds P (required_str_list json path entry "paths" at) _ refl (λ paths.
          try-holds P (parse_exclude json path entry at) _ refl (λ exclude.
            try-holds P (required_str_list json path entry "gate_sets" at) _ refl
              (λ gate_sets h. ground (arith, check_sets-exist sets at gate_sets h)))))

  closed-add_selector :
      (sets : Sets) (selector : Option Selector) (rest : List Selector)
      → selector_closed sets selector ≡ true
      → selectors_closed sets rest ≡ true
      → selectors_closed sets (add_some selector rest) ≡ true
  unfolding all
  closed-add_selector sets none rest h k = k
  closed-add_selector sets (some selector) rest h k = ground (arith, h, k)

  parse_selector_entries-closed :
      (sets : Sets) (index : ℕ) (entries : List json.Value)
      → errors (parse_selector_entries json path sets index entries).said ≡ 0
      → selectors_closed sets (parse_selector_entries json path sets index entries).value ≡ true
  unfolding parse_selector_entries all
  parse_selector_entries-closed sets index [] h = refl
  parse_selector_entries-closed sets index (entry ∷ rest) h =
      let at = concat ("selectors[" ∷ json.decimal index ∷ "]" ∷ []) in
      let selector = parse_selector json path sets entry at in
      let later = parse_selector_entries json path sets (suc index) rest in
      let first = errors-append selector.said (later.said ++ []) in
      let second = errors-append later.said [] in
      closed-add_selector sets selector.value later.value
        (parse_selector-closed sets entry at (omega (arith, h, first, second)))
        (parse_selector_entries-closed sets (suc index) rest (omega (arith, h, first, second)))

  parse_selectors-closed :
      (root : json.Value) (sets : Sets)
      → errors (parse_selectors json path root sets).said ≡ 0
      → selectors_closed sets (parse_selectors json path root sets).value ≡ true
  unfolding parse_selectors
  parse_selectors-closed root sets h =
      let listed = entry_list json path root "selectors" in
      parse_selector_entries-closed sets 0 listed.value (
        omega (
          arith,
          h,
          errors-append listed.said (parse_selector_entries json path sets 0 listed.value).said,
        ))

  -- The errors of a document are those of its parts.
  module _ (from_value : json.Value → Read) (root : json.Value) where
    abbrev pub document : Said GatesConfig
    document = validate_document json from_value path root

    pub errors-document :
        errors document.said ≡ 0
        → (errors (parse_gate_sets json path root document.value.gates).said ≡ 0)
          × (errors (parse_selectors json path root document.value.gate_sets).said ≡ 0)
          × (errors
                (parse_scaffold_provenance json path from_value root
                  (and_then (get_field json root "version") json.as_str)
                  document.value.gates).said
              ≡ 0)
    unfolding validate_document
    errors-document h =
        let version = and_then (get_field json root "version") json.as_str in
        let preflight_entries = entry_list json path root "preflights" in
        let preflights = parse_preflights json path [] preflight_entries.value in
        let gate_entries = entry_list json path root "gates" in
        let gates = parse_gates json path preflights.seen_ids gate_entries.value in
        let gate_sets = parse_gate_sets json path root gates.kept in
        errors-parts (check_kind json from_value path version) preflight_entries.said
          preflights.said gate_entries.said gates.said gate_sets.said
          (parse_selectors json path root gate_sets.value).said
          (parse_scaffold_provenance json path from_value root version gates.kept).said h

    -- If a document has no error, then each id of each of its sets names a gate, and each set that
    -- a selector names exists.
    pub validate_document_closed :
        errors document.said ≡ 0
        → (sets_closed document.value.gates document.value.gate_sets ≡ true)
          × (selectors_closed document.value.gate_sets document.value.selectors ≡ true)
    validate_document_closed h =
        let (sets, selectors, scaffold) = errors-document h in
        (
          unfold validate_document in parse_gate_sets-closed root document.value.gates sets,
          unfold validate_document in
              parse_selectors-closed root document.value.gate_sets selectors,
        )
