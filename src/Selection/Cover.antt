-- ===== src/Selection/Cover.antt =====
-- Generated gates are only superseded where a gate of explicit authority is selected.
use nopal.Prelude.{
  String, Bool, true, false, not, ◌&&◌, ◌≡◌, ◌⊎◌, refl, List, [], ◌∷◌, map, arith, is_empty, any,
  any-append, all, contains, contains-append, Bool-cases, Option-cases, inl, inr,
}
use nopal.Gates.{GateStage, Gate, Selector, GatesConfig, generated_gate_ids}
use nopal.Selection.Types.{superseded_by_explicit_authority, SelectedGate, SkippedGate}
use nopal.Selection.Globs.{Globset, sort, dedup}
use nopal.Selection.Pull.{find_gate, Pulled, scan}
use nopal.Selection.Pulled.{has, selects}
use nopal.Selection.Scanned.{files_of, is_matched, match_of, selectors-scan, has-scan}
use nopal.Selection.Select.{
  is_explicit_at, selects_explicit_gate, covered_files, explicit_authority_covers_selection,
  decide_gate, decide_pulled, skip_unpulled, suppressed_generated, select,
}

abbrev pub is_superseded : SkippedGate → Bool
is_superseded g = elim g.reason [ superseded_by_explicit_authority ↦ true | _ ↦ false ]

-- With nothing suppressed nothing is superseded.
decide_pulled-superseded :
    (config : GatesConfig) (stage : GateStage) (pulled : Pulled)
    → any is_superseded (decide_pulled config stage [] pulled).skipped ≡ false
unfolding decide_pulled decide_gate any contains
decide_pulled-superseded config stage [] = refl
decide_pulled-superseded config stage ((id, via) ∷ rest) =
    ground (arith, decide_pulled-superseded config stage rest)

skip_unpulled-superseded :
    (pulled : Pulled) (gates : List Gate)
    → any is_superseded (skip_unpulled [] pulled gates) ≡ false
unfolding skip_unpulled any contains
skip_unpulled-superseded pulled [] = refl
skip_unpulled-superseded pulled (gate ∷ gates) =
    ground (arith, skip_unpulled-superseded pulled gates)

module _ (config : GatesConfig) (stage : GateStage) (generated : List String) where
  abbrev explicit : String → Bool
  explicit = is_explicit_at config stage generated

  -- An explicit gate at the stage that is pulled is selected.
  explicit-selected :
      (pulled : Pulled)
      → has explicit pulled ≡ true
      → any
          (λ (g : SelectedGate). not (contains generated g.id))
          (decide_pulled config stage generated pulled).selected
        ≡ true
  unfolding decide_pulled decide_gate is_explicit_at any
  explicit-selected [] h = h
  explicit-selected ((id, via) ∷ rest) h = elim (Option-cases (find_gate config id)) [
    | inl absent ↦ rw (absent, decide_pulled) (explicit-selected rest (ground (arith, absent, h)))
    | inr (gate, found) ↦
        rw (found, decide_pulled) (ground (arith, found, h, explicit-selected rest))
  ]

  module _ (globset : Globset) (files : List String) where
    contains-not_empty :
        (xs : List String) (x : String) → contains xs x ≡ true → not (is_empty xs) ≡ true
    unfolding contains
    contains-not_empty [] x h = h
    contains-not_empty (y ∷ ys) x h = refl

    -- A covered file was matched by a selector with an explicit gate.
    covered-matched :
        (selectors : List Selector) (file : String)
        → contains
            (covered_files config stage generated selectors
              (map (match_of globset files) selectors))
            file
          ≡ true
        → any (λ s. is_matched globset files s && selects explicit config s) selectors ≡ true
    unfolding covered_files selects_explicit_gate any contains
    covered-matched [] file h = h
    covered-matched (s ∷ rest) file h =
        let covered =
          covered_files config stage generated rest (map (match_of globset files) rest) in
        ground (
          arith,
          h,
          contains-append (files_of globset files s) covered file,
          contains-not_empty (files_of globset files s) file,
          covered-matched rest file,
        )

    all-first :
        (p : String → Bool) (xs : List String)
        → is_empty xs ≡ false
        → all p xs ≡ true
        → (x : String) × (p x ≡ true)
    unfolding all
    all-first p [] e h = cc
    all-first p (x ∷ xs) e h = (x, ground (arith, h))

    -- Where explicit authority covers the selection, an explicit gate at the stage is pulled.
    covers-pulled :
        explicit_authority_covers_selection config stage files
            (scan globset config files).selectors
            (scan globset config files).pulled
            generated
          ≡ true
        → has explicit (scan globset config files).pulled ≡ true
    unfolding explicit_authority_covers_selection
    covers-pulled h = elim (Bool-cases (is_empty config.selectors)) [
      | inl e ↦ rw e at h
      | inr e ↦ elim (Bool-cases (is_empty files)) [
        | inl f ↦ ground (arith, e, f, h)
        | inr f ↦
            let (file, covered) =
              all-first
                (contains (
                  covered_files config stage generated config.selectors
                    (scan globset config files).selectors))
                files f (ground (arith, e, f, h)) in
            ground (
              arith,
              e,
              has-scan globset files explicit config,
              covered-matched config.selectors file
                  (rw (selectors-scan globset files config) at covered),
            )
      ]
    ]

module _ (globset : Globset) (config : GatesConfig) (stage : GateStage) (files : List String) where
  abbrev covers : Bool
  covers =
      explicit_authority_covers_selection config stage files (scan globset config files).selectors
        (scan globset config files).pulled (generated_gate_ids config)

  suppressed_cases :
      (covers ≡ true)
        × (suppressed_generated globset config stage files ≡ generated_gate_ids config)
      ⊎ (suppressed_generated globset config stage files ≡ [])
  unfolding suppressed_generated
  suppressed_cases = ground arith

-- If a generated gate is skipped as superseded by explicit authority, then a gate that is not
-- generated is selected at the stage: proof that was generated is replaced and never only dropped.
pub superseded-selected :
    (globset : Globset) (config : GatesConfig) (stage : GateStage) (changed_files : List String)
    → any is_superseded (select globset config stage changed_files).skipped ≡ true
    → any
        (λ (g : SelectedGate). not (contains (generated_gate_ids config) g.id))
        (select globset config stage changed_files).selected
      ≡ true
unfolding select
superseded-selected globset config stage changed_files h =
    let files = dedup (sort changed_files) in
    let generated = generated_gate_ids config in
    let pulled = (scan globset config files).pulled in
    elim (suppressed_cases globset config stage files) [
      | inl (covered, on) ↦ rw on (
          explicit-selected config stage generated pulled
            (covers-pulled config stage generated globset files covered))
      | inr off ↦ ground (
        arith,
        rw off at h,
        any-append is_superseded (decide_pulled config stage [] pulled).skipped
            (skip_unpulled [] pulled config.gates),
        decide_pulled-superseded config stage pulled,
        skip_unpulled-superseded pulled config.gates,
      )
    ]
