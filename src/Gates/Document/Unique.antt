-- ===== src/Gates/Document/Unique.antt =====
-- Ids in a gates document: every preflight and every gate that is kept has an id of its own.
use nopal.Prelude.{
  ℕ, suc, ◌+◌, ◌≤◌, ◌==◌, String, Bool, false, ◌≡◌, refl, ap, Option, none, some, List, [], ◌∷◌,
  arith, if◌then◌else◌, contains, contains-snoc, concat, eq_iff, Bool-cases, Option-cases, inl, inr,
}
use nopal.Json.{Json}
use nopal.Diagnostics.Said.{Said}
use nopal.Gates.{Preflight}
use nopal.Gates.Document.Fields.{required_str, entry_list}
use nopal.Gates.Document.Entries.{
  add_some, see, check_id, entry_id, parse_run, preflight_rest, preflight_body, gate_rest,
  gate_body, parse_entries, parse_preflights, parse_gates,
}
use nopal.Gates.Document.Scaffold.{Read}
use nopal.Gates.Document.Validate.{validate_document}
use nopal.Selection.Partition.{count, gate_id}

abbrev pub preflight_id : Preflight → String
preflight_id preflight = preflight.id

abbrev one : Bool → ℕ
one b = if b then 1 else 0

-- The entry has the id, if there is one.
abbrev HasId : {A : Type 0} → (A → String) → String → Option A → Type 0
HasId key id none = Unit
HasId key id (some a) = key a ≡ id

module _ (json : Json) (path : String) where
  check_id-new :
      (seen : List String) (at id : String) {j : String}
      → (check_id json path seen at id).value ≡ some j
      → contains seen j ≡ false
  unfolding check_id
  check_id-new seen at id {j} h = elim (Bool-cases (contains seen id)) [
    | inl e ↦ cc (rw e at h)
    | inr e ↦ cc (rw e at h, e)
  ]

  entry_id-new :
      (seen : List String) (entry : json.Value) (at : String) {j : String}
      → (entry_id json path seen entry at).value ≡ some j
      → contains seen j ≡ false
  unfolding entry_id
  entry_id-new seen entry at h = elim (Option-cases (required_str json path entry "id" at).value) [
    | inl e ↦ cc (rw e at h)
    | inr (id, e) ↦ check_id-new seen at id (rw e at h)
  ]

  gate_body-HasId :
      (entry : json.Value) (at id : String)
      → HasId gate_id id (gate_body json path entry at id).value
  unfolding gate_body gate_rest
  gate_body-HasId entry at id =
      elim (Option-cases (required_str json path entry "stage" at).value) [
        | inl e ↦ rw e tt
        | inr (text, e) ↦ rw e (elim (Option-cases (parse_run json path entry at).value) [
          | inl f ↦ rw f tt
          | inr (run, f) ↦ rw f refl
        ])
      ]

  preflight_body-HasId :
      (entry : json.Value) (at id : String)
      → HasId preflight_id id (preflight_body json path entry at id).value
  unfolding preflight_body preflight_rest
  preflight_body-HasId entry at id =
      elim (Option-cases (required_str json path entry "stage" at).value) [
        | inl e ↦ rw e tt
        | inr (text, e) ↦ rw e (elim (Option-cases (parse_run json path entry at).value) [
          | inl f ↦ rw f tt
          | inr (run, f) ↦ rw f refl
        ])
      ]

  count-add_some :
      {A : Type 0} (key : A → String) (i j : String) (a : Option A) (xs : List A)
      → HasId key j a
      → count key i (add_some a xs) ≤ one (j == i) + count key i xs
  count-add_some key i j none xs h = omega arith
  count-add_some key i j (some a) xs h = ground (arith, ap (λ k. one (k == i)) h)

  contains-see :
      (seen : List String) (j i : String)
      → contains seen j ≡ false
      → one (j == i) + one (contains seen i) ≡ one (contains (see seen (some j)) i)
  contains-see seen j i new =
      ground (arith, new, eq_iff j i, ap (contains seen), contains-snoc seen j i)

  -- Each id is kept once at most, and never if it was seen before.
  parse_entries-count :
      {A : Type 0} (key : A → String) (list : String)
      (body : json.Value → String → String → Said (Option A))
      → ((entry : json.Value) (at id : String) → HasId key id (body entry at id).value)
      → (index : ℕ) (seen : List String) (entries : List json.Value) (i : String)
      → count key i (parse_entries json path list body index seen entries).kept
          + one (contains seen i)
        ≤ one (contains (parse_entries json path list body index seen entries).seen_ids i)
  unfolding parse_entries
  parse_entries-count key list body has index seen [] i = omega arith
  parse_entries-count key list body has index seen (entry ∷ rest) i =
      let at = concat (list ∷ "[" ∷ json.decimal index ∷ "]" ∷ []) in
      elim (Option-cases (entry_id json path seen entry at).value) [
        | inl e ↦ rw e (parse_entries-count key list body has (suc index) seen rest i)
        | inr (j, e) ↦ rw e (
            omega (
              arith,
              count-add_some key i j (body entry at j).value
                  (parse_entries json path list body (suc index) (see seen (some j)) rest).kept
                  (has entry at j),
              contains-see seen j i (entry_id-new seen entry at e),
              parse_entries-count key list body has (suc index) (see seen (some j)) rest i,
            ))
      ]

  -- No two preflights or gates of a validated document share an id, and no preflight shares its id
  -- with a gate, whatever the document is.
  pub validate_document_unique :
      (from_value : json.Value → Read) (root : json.Value) (i : String)
      → count preflight_id i (validate_document json from_value path root).value.preflights
          + count gate_id i (validate_document json from_value path root).value.gates
        ≤ 1
  unfolding validate_document parse_preflights parse_gates
  validate_document_unique from_value root i =
      let preflights = (entry_list json path root "preflights").value in
      let gates = (entry_list json path root "gates").value in
      let seen =
        (parse_entries json path "preflights" (preflight_body json path) 0 []
          preflights).seen_ids in
      ground (
        arith,
        parse_entries-count preflight_id "preflights" (preflight_body json path)
            preflight_body-HasId 0 [] preflights i,
        parse_entries-count gate_id "gates" (gate_body json path) gate_body-HasId 0 seen gates i,
      )
