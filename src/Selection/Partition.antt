-- ===== src/Selection/Partition.antt =====
-- Every declared gate comes out of `select` once, selected or skipped, at its own stage.
use nopal.Prelude.{
  ℕ, ◌+◌, ◌≤◌, ltb, String, Bool, true, not, ◌≡◌, refl, some, List, [], ◌∷◌, ◌++◌, ◌==◌, eq_iff,
  arith, if◌then◌else◌, is_empty, any, any-find, find-holds, sym, ap, ◌∙◌, contains, Bool-cases,
  Option-cases, is_some, inl, inr,
}
use nopal.Gates.{GateStage, Gate, Selector, GatesConfig, get_set, generated_gate_ids}
use nopal.Selection.Types.{SelectedGate, SkippedGate, Via, default, by_selector}
use nopal.Selection.Globs.{Globset, matching_files, sort, dedup}
use nopal.Selection.Pull.{
  find_gate, Pulled, is_pulled, scan, pull_default, pull_gate, pull_gates, pull_set, pull_sets,
  scan_selector, scan_selectors, Scan,
}
use nopal.Selection.Select.{
  Outcome, decide_gate, decide_pulled, skip_unpulled, suppressed_generated, select,
}

-- How often an id is among the keys of a list.
abbrev pub count {ℓ} : {A : Type ℓ} → (A → String) → String → List A → ℕ
count key id [] = 0
count key id (x ∷ xs) = (if key x == id then 1 else 0) + count key id xs

abbrev pub gate_id : Gate → String
gate_id gate = gate.id

abbrev pulled_id : String × Via → String
pulled_id p = p.0

-- No gate is pulled twice.
abbrev IsOnce : Pulled → Type 0
IsOnce pulled = (id : String) → count pulled_id id pulled ≤ 1

count-append :
    {A : Type 0} (key : A → String) (id : String) (xs ys : List A)
    → count key id (xs ++ ys) ≡ count key id xs + count key id ys
count-append key id [] ys = omega arith
count-append key id (x ∷ xs) ys = omega (arith, count-append key id xs ys)

count-any :
    {A : Type 0} (key : A → String) (id : String) (xs : List A)
    → any (λ x. key x == id) xs ≡ ltb 0 (count key id xs)
unfolding any
count-any key id [] = refl
count-any key id (x ∷ xs) = ground (arith, count-any key id xs)

pull_default-count :
    (wanted : String → Bool) (pulled : Pulled) (gates : List Gate) (id : String)
    → count pulled_id id (pull_default wanted pulled gates)
      ≤ count pulled_id id pulled + count gate_id id gates
unfolding pull_default
pull_default-count wanted pulled [] id = omega arith
pull_default-count wanted pulled (gate ∷ gates) id = elim (Bool-cases (wanted gate.id)) [
  | inl e ↦ rw e (
      omega (
        arith,
        pull_default-count wanted (pulled ++ (gate.id, default) ∷ []) gates id,
        count-append pulled_id id pulled ((gate.id, default) ∷ []),
      ))
  | inr e ↦ rw e (omega (arith, pull_default-count wanted pulled gates id))
]

pull_gate-IsOnce :
    (via : Via) (pulled : Pulled) (id : String) → IsOnce pulled → IsOnce (pull_gate via pulled id)
unfolding pull_gate
pull_gate-IsOnce via pulled id h j = ground (
  arith,
  h j,
  count-append pulled_id j pulled ((id, via) ∷ []),
  count-any pulled_id id pulled,
  eq_iff id j,
)

pull_gates-IsOnce :
    (via : Via) (pulled : Pulled) (ids : List String)
    → IsOnce pulled
    → IsOnce (pull_gates via pulled ids)
unfolding pull_gates
pull_gates-IsOnce via pulled [] h = h
pull_gates-IsOnce via pulled (id ∷ ids) h =
    pull_gates-IsOnce via (pull_gate via pulled id) ids (pull_gate-IsOnce via pulled id h)

module _ (config : GatesConfig) where
  pull_set-IsOnce :
      (selector : String) (pulled : Pulled) (name : String)
      → IsOnce pulled
      → IsOnce (pull_set config selector pulled name)
  unfolding pull_set
  pull_set-IsOnce selector pulled name h = elim (Option-cases (get_set config.gate_sets name)) [
    | inl absent ↦ rw (absent, pull_set) h
    | inr (set, found) ↦
        rw (found, pull_set) (pull_gates-IsOnce (by_selector selector name) pulled set.gates h)
  ]

  pull_sets-IsOnce :
      (selector : String) (pulled : Pulled) (names : List String)
      → IsOnce pulled
      → IsOnce (pull_sets config selector pulled names)
  unfolding pull_sets
  pull_sets-IsOnce selector pulled [] h = h
  pull_sets-IsOnce selector pulled (name ∷ names) h =
      pull_sets-IsOnce selector (pull_set config selector pulled name) names
        (pull_set-IsOnce selector pulled name h)

  module _ (globset : Globset) (files : List String) where
    scan_selector-IsOnce :
        (s : Scan) (selector : Selector)
        → IsOnce s.pulled
        → IsOnce (scan_selector globset config files s selector).pulled
    unfolding scan_selector
    scan_selector-IsOnce s selector h =
        elim (Bool-cases
          (not (is_empty (matching_files globset files selector.paths selector.exclude)))) [
            | inl e ↦ rw e (pull_sets-IsOnce selector.name s.pulled selector.gate_sets h)
            | inr e ↦ rw e h
          ]

    scan_selectors-IsOnce :
        (s : Scan) (selectors : List Selector)
        → IsOnce s.pulled
        → IsOnce (scan_selectors globset config files s selectors).pulled
    unfolding scan_selectors
    scan_selectors-IsOnce s [] h = h
    scan_selectors-IsOnce s (selector ∷ rest) h =
        scan_selectors-IsOnce (scan_selector globset config files s selector) rest
          (scan_selector-IsOnce s selector h)

    scan-IsOnce :
        ((id : String) → count gate_id id config.gates ≤ 1)
        → IsOnce (scan globset config files).pulled
    unfolding scan
    scan-IsOnce unique = elim (Bool-cases (is_empty config.selectors)) [
      | inl e ↦
          rw e (λ id. omega (arith, pull_default-count (λ i. true) [] config.gates id, unique id))
      | inr e ↦ rw e (
          scan_selectors-IsOnce
            (record {
              pulled = pull_default (contains (generated_gate_ids config)) [] config.gates;
              selectors = [];
            })
            config.selectors
            (λ id. omega (
              arith,
              pull_default-count (contains (generated_gate_ids config)) [] config.gates id,
              unique id,
            )))
    ]

pub find_gate-id :
    (config : GatesConfig) (id : String) {gate : Gate}
    → find_gate config id ≡ some gate
    → gate.id ≡ id
unfolding find_gate
find_gate-id config id {gate} h = (eq_iff gate.id id).0 (find-holds _ config.gates h)

find_gate-declared :
    (config : GatesConfig) (id : String)
    → is_some (find_gate config id) ≡ ltb 0 (count gate_id id config.gates)
unfolding find_gate
find_gate-declared config id =
    sym (any-find (λ (g : Gate). g.id == id) config.gates) ∙ count-any gate_id id config.gates

abbrev outcome_count : String → Outcome → ℕ
outcome_count id o =
    count (λ (g : SelectedGate). g.id) id o.selected
    + count (λ (g : SkippedGate). g.id) id o.skipped

decide_gate-count :
    (stage : GateStage) (suppressed : List String) (gate : Gate) (via : Via) (o : Outcome)
    (id : String)
    → outcome_count id (decide_gate stage suppressed gate via o)
      ≡ (if gate.id == id then 1 else 0) + outcome_count id o
unfolding decide_gate
decide_gate-count stage suppressed gate via o id = ground arith

pub find_gate-same :
    (config : GatesConfig) (j id : String)
    → (j == id) ≡ true
    → find_gate config j ≡ find_gate config id
find_gate-same config j id h = ap (find_gate config) ((eq_iff j id).0 h)

-- A pulled gate that is declared comes out once for each time it was pulled.
decide_pulled-count :
    (config : GatesConfig) (stage : GateStage) (suppressed : List String) (pulled : Pulled)
    (id : String)
    → outcome_count id (decide_pulled config stage suppressed pulled)
      ≡ (if is_some (find_gate config id) then count pulled_id id pulled else 0)
unfolding decide_pulled
decide_pulled-count config stage suppressed [] id = ground arith
decide_pulled-count config stage suppressed ((j, via) ∷ rest) id =
    elim (Option-cases (find_gate config j)) [
      | inl absent ↦
          rw (absent, decide_pulled)
            (ground (
              arith,
              absent,
              find_gate-same config j id,
              decide_pulled-count config stage suppressed rest id,
            ))
      | inr (gate, found) ↦
          rw (found, decide_pulled)
            (ground (
              arith,
              found,
              find_gate-same config j id,
              find_gate-id config j found,
              decide_gate-count stage suppressed gate via
                  (decide_pulled config stage suppressed rest) id,
              decide_pulled-count config stage suppressed rest id,
            ))
    ]

skip_unpulled-count :
    (suppressed : List String) (pulled : Pulled) (gates : List Gate) (id : String)
    → count (λ (g : SkippedGate). g.id) id (skip_unpulled suppressed pulled gates)
      ≡ (if is_pulled pulled id then 0 else count gate_id id gates)
unfolding skip_unpulled
skip_unpulled-count suppressed pulled [] id = ground arith
skip_unpulled-count suppressed pulled (gate ∷ gates) id =
    ground (arith, skip_unpulled-count suppressed pulled gates id, eq_iff gate.id id)

-- If no two gates share an id, then every id is among the selected and the skipped gates exactly as
-- often as among the declared ones: no gate vanishes, none comes out twice and none is made up.
pub select-partition :
    (globset : Globset) (config : GatesConfig) (stage : GateStage) (changed_files : List String)
    (id : String)
    → ((i : String) → count gate_id i config.gates ≤ 1)
    → count (λ (g : SelectedGate). g.id) id (select globset config stage changed_files).selected
        + count (λ (g : SkippedGate). g.id) id (select globset config stage changed_files).skipped
      ≡ count gate_id id config.gates
unfolding select
select-partition globset config stage changed_files id unique =
    let files = dedup (sort changed_files) in
    let suppressed = suppressed_generated globset config stage files in
    let pulled = (scan globset config files).pulled in
    let o = decide_pulled config stage suppressed pulled in
    ground (
      arith,
      count-append (λ (g : SkippedGate). g.id) id o.skipped
          (skip_unpulled suppressed pulled config.gates),
      decide_pulled-count config stage suppressed pulled id,
      skip_unpulled-count suppressed pulled config.gates id,
      find_gate-declared config id,
      count-any pulled_id id pulled,
      scan-IsOnce config globset files unique id,
      unique id,
    )
