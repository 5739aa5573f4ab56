-- ===== src/Gates/Document/Detected.antt =====
-- Generated gates in a gates document: without errors, the generated ids are exactly the declared
-- ones in the reserved namespace.
use nopal.Prelude.{
  ◌+◌, ◌≤◌, ◌==◌, String, Bool, true, false, not, ◌&&◌, ◌||◌, ◌≡◌, refl, ap, ◌∙◌, Option, some,
  List, [], ◌∷◌, ◌++◌, arith, map, any, contains, eq_iff, is_some_and, Bool-cases, Option-cases,
  inl, inr,
}
use nopal.Prelude.Sets.{eq_of_iff}
use nopal.Json.{Json, and_then, get_field}
use nopal.Diagnostics.Report.{Diagnostic, error_diagnostic, new_diagnostic}
use nopal.Diagnostics.Errors.{errors, errors-append, is_error}
use nopal.Gates.Provenance.{ScaffoldProvenance}
use nopal.Gates.{Gate, generated_gate_ids}
use nopal.Gates.Document.Scaffold.{
  Read, readable, unreadable, is_detected, declared_gate_ids, when, check_version, check_templates,
  check_generated, check_declared, check_ready, check_provenance, read_provenance,
  parse_scaffold_provenance,
}
use nopal.Gates.Document.Validate.{validate_document}
use nopal.Gates.Document.Closed.{errors-document}
use nopal.Selection.Globs.{insert_file, sort, dedup}

contains-insert_file :
    (f : String) (fs : List String) (x : String)
    → contains (insert_file f fs) x ≡ (f == x || contains fs x)
unfolding insert_file contains
contains-insert_file f [] x = refl
contains-insert_file f (g ∷ gs) x = ground (arith, contains-insert_file f gs x)

contains-sort : (fs : List String) (x : String) → contains (sort fs) x ≡ contains fs x
unfolding sort contains
contains-sort [] x = refl
contains-sort (f ∷ fs) x = ground (arith, contains-insert_file f (sort fs) x, contains-sort fs x)

contains-dedup : (fs : List String) (x : String) → contains (dedup fs) x ≡ contains fs x
unfolding dedup contains
contains-dedup [] x = refl
contains-dedup (f ∷ []) x = refl
contains-dedup (f ∷ g ∷ gs) x =
    ground (arith, contains-dedup (g ∷ gs) x, eq_iff f g, ap (λ y. y == x))

contains-ids :
    (gates : List Gate) (x : String)
    → contains (map (λ (gate : Gate). gate.id) gates) x ≡ any (λ (gate : Gate). gate.id == x) gates
unfolding contains any
contains-ids [] x = refl
contains-ids (gate ∷ gates) x = ground (arith, contains-ids gates x)

-- The sorted ids without repetition are those of the gates.
pub contains-declared_gate_ids :
    (gates : List Gate) (x : String)
    → contains (declared_gate_ids gates) x ≡ any (λ (gate : Gate). gate.id == x) gates
unfolding declared_gate_ids
contains-declared_gate_ids gates x =
    let ids = map (λ (gate : Gate). gate.id) gates in
    contains-dedup (sort ids) x ∙ contains-sort ids x ∙ contains-ids gates x

errors-when :
    (test : Bool) (d : Diagnostic) (rest : List Diagnostic)
    → is_error d ≡ true
    → errors (when test d ++ rest) ≡ 0
    → (test ≡ false) × (errors rest ≡ 0)
errors-when true d rest e h = absurd (ground (arith, e, h))
errors-when false d rest e h = (refl, h)

module _ (json : Json) (path : String) where
  -- Every generated id is detected and declared, unless an error says otherwise.
  check_generated-contained :
      (declared seen ids : List String) (x : String)
      → errors (check_generated json path declared seen ids) ≡ 0
      → contains ids x ≡ true
      → (is_detected x ≡ true) × (contains declared x ≡ true)
  unfolding check_generated contains error_diagnostic new_diagnostic
  check_generated-contained declared seen [] x h inside = cc
  check_generated-contained declared seen (id ∷ rest) x h inside =
      let (new, h1) = errors-when (contains seen id) _ _ refl h in
      let (detected, h2) = errors-when (not (is_detected id)) _ _ refl h1 in
      let (known, h3) = errors-when (not (contains declared id)) _ _ refl h2 in
      elim (Bool-cases (id == x)) [
        | inl e ↦
            let same : id ≡ x = (eq_iff id x).0 e in
            rw (← same) (ground (arith, detected), ground (arith, known))
        | inr e ↦
            check_generated-contained declared (id ∷ seen) rest x h3 (ground (arith, inside, e))
      ]

  check_declared-contained :
      (generated_ids ids : List String) (x : String)
      → errors (check_declared json path generated_ids ids) ≡ 0
      → contains ids x ≡ true
      → is_detected x ≡ true
      → contains generated_ids x ≡ true
  unfolding check_declared contains error_diagnostic new_diagnostic
  check_declared-contained generated_ids [] x h inside detected = cc
  check_declared-contained generated_ids (id ∷ rest) x h inside detected =
      let (known, later) =
        errors-when (is_detected id && not (contains generated_ids id)) _ _ refl h in
      elim (Bool-cases (id == x)) [
        | inl e ↦
            let same : id ≡ x = (eq_iff id x).0 e in ground (arith, rw same at known, detected)
        | inr e ↦
            check_declared-contained generated_ids rest x later (ground (arith, inside, e)) detected
      ]

  -- The ids of a provenance without errors.
  abbrev IsExact : List Gate → ScaffoldProvenance → Type 0
  IsExact gates p =
      (x : String)
      → contains p.generated_gate_ids x
        ≡ (any (λ (gate : Gate). gate.id == x) gates && is_detected x)

  check_provenance-IsExact :
      (gates : List Gate) (p : ScaffoldProvenance)
      → errors (check_provenance json path (declared_gate_ids gates) p) ≡ 0
      → IsExact gates p
  unfolding check_provenance
  check_provenance-IsExact gates p h x =
      let declared = declared_gate_ids gates in
      let said_ready = check_ready json path p declared in
      let said_declared = check_declared json path p.generated_gate_ids declared in
      let said_generated = check_generated json path declared [] p.generated_gate_ids in
      let sum : errors said_generated + errors said_declared ≤ 0 = omega (
        arith,
        h,
        errors-append (check_version json path p) (
            check_templates json path p.templates
            ++ (said_generated ++ (said_declared ++ said_ready))),
        errors-append (check_templates json path p.templates)
            (said_generated ++ (said_declared ++ said_ready)),
        errors-append said_generated (said_declared ++ said_ready),
        errors-append said_declared said_ready,
      ) in
      eq_of_iff _ _
        (λ inside.
          let (detected, known) =
            check_generated-contained declared [] p.generated_gate_ids x (omega (arith, sum))
              inside in
          ground (arith, detected, known, contains-declared_gate_ids gates x))
        (λ both.
          check_declared-contained p.generated_gate_ids declared x (omega (arith, sum))
            (ground (arith, both, contains-declared_gate_ids gates x)) (ground (arith, both)))

  read_provenance-IsExact :
      (gates : List Gate) (read : Read) (p : ScaffoldProvenance)
      → errors (read_provenance json path gates read).said ≡ 0
      → (read_provenance json path gates read).value ≡ some p
      → IsExact gates p
  unfolding read_provenance
  read_provenance-IsExact gates (unreadable error) p h e = cc
  read_provenance-IsExact gates (readable q) p h e =
      let same : q ≡ p = cc e in rw (← same) (check_provenance-IsExact gates q h)

  parse_scaffold-IsExact :
      (from_value : json.Value → Read) (root : json.Value) (version : Option String)
      (gates : List Gate) (p : ScaffoldProvenance)
      → errors (parse_scaffold_provenance json path from_value root version gates).said ≡ 0
      → (parse_scaffold_provenance json path from_value root version gates).value ≡ some p
      → IsExact gates p
  unfolding parse_scaffold_provenance
  parse_scaffold-IsExact from_value root version gates p h e =
      elim (Bool-cases (is_some_and version (λ v. v == "nopal.gates/v1"))) [
        | inl one ↦ cc (rw one at e)
        | inr one ↦ elim (Bool-cases (not (is_some_and version (λ v. v == "nopal.gates/v2")))) [
          | inl two ↦ cc (rw (one, two) at e)
          | inr two ↦ elim (Option-cases (get_field json root "scaffold")) [
            | inl missing ↦ cc (rw (one, two, missing, parse_scaffold_provenance) at e)
            | inr (value, found) ↦
                read_provenance-IsExact gates (from_value value) p
                  (rw (one, two, found, parse_scaffold_provenance) at h)
                  (rw (one, two, found, parse_scaffold_provenance) at e)
          ]
        ]
      ]

  -- If a document has no error and keeps a provenance, then an id is generated exactly if a gate has
  -- it and it is in the namespace `detected.`.
  pub validate_document_detected :
      (from_value : json.Value → Read) (root : json.Value) (p : ScaffoldProvenance) (x : String)
      → errors (validate_document json from_value path root).said ≡ 0
      → (validate_document json from_value path root).value.scaffold ≡ some p
      → contains (generated_gate_ids (validate_document json from_value path root).value) x ≡ (
          any
            (λ (gate : Gate). gate.id == x)
            (validate_document json from_value path root).value.gates
          && is_detected x)
  unfolding generated_gate_ids
  validate_document_detected from_value root p x h e =
      let (sets, selectors, scaffold) = errors-document json path from_value root h in
      rw (e, generated_gate_ids)
        (unfold validate_document in
          parse_scaffold-IsExact from_value root
            (and_then (get_field json root "version") json.as_str)
            (validate_document json from_value path root).value.gates p scaffold e x)
