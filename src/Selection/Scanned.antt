-- ===== src/Selection/Scanned.antt =====
-- What the loop over the selectors leaves: the match of each selector, and what it pulled.
use nopal.Prelude.{
  String, Bool, true, not, ◌||◌, ◌&&◌, ◌≡◌, refl, sym, ◌∙◌, List, [], ◌∷◌, ◌++◌, map, arith,
  if◌then◌else◌, is_empty, any, contains, Bool-cases, inl, inr,
}
use mathlib.Core.List.{append_assoc, append-nil}
use nopal.Gates.{Gate, Selector, GatesConfig, generated_gate_ids}
use nopal.Selection.Types.{SelectorMatch}
use nopal.Selection.Globs.{Globset, matching_files}
use nopal.Selection.Pull.{pull_default, Scan, scan_selector, scan_selectors, scan}
use nopal.Selection.Pulled.{has, selects, has-pull_default, has-pull_sets}

map-is_empty : {A B : Type 0} (f : A → B) (xs : List A) → is_empty xs ≡ true → map f xs ≡ []
map-is_empty f [] h = refl
map-is_empty f (x ∷ xs) h = cc

module _ (globset : Globset) (files : List String) where
  abbrev pub files_of : Selector → List String
  files_of selector = matching_files globset files selector.paths selector.exclude

  abbrev pub is_matched : Selector → Bool
  is_matched selector = not (is_empty (files_of selector))

  abbrev pub match_of : Selector → SelectorMatch
  match_of selector = record {
    name = selector.name;
    matched = is_matched selector;
    matched_files = files_of selector;
  }

  selectors-scan_selectors :
      (config : GatesConfig) (s : Scan) (selectors : List Selector)
      → (scan_selectors globset config files s selectors).selectors
        ≡ s.selectors ++ map match_of selectors
  unfolding scan_selectors scan_selector
  selectors-scan_selectors config s [] = sym (append-nil s.selectors)
  selectors-scan_selectors config s (selector ∷ rest) =
      selectors-scan_selectors config (scan_selector globset config files s selector) rest
      ∙ append_assoc s.selectors (match_of selector ∷ []) (map match_of rest)

  pub selectors-scan :
      (config : GatesConfig) → (scan globset config files).selectors ≡ map match_of config.selectors
  unfolding scan
  selectors-scan config = elim (Bool-cases (is_empty config.selectors)) [
    | inl e ↦ rw e (sym (map-is_empty match_of config.selectors e))
    | inr e ↦ rw e (
        selectors-scan_selectors config
          (record {
            pulled = pull_default (contains (generated_gate_ids config)) [] config.gates;
            selectors = [];
          })
          config.selectors)
  ]

  module _ (wanted : String → Bool) (config : GatesConfig) where
    has-scan_selector :
        (s : Scan) (selector : Selector)
        → has wanted (scan_selector globset config files s selector).pulled
          ≡ (has wanted s.pulled || (is_matched selector && selects wanted config selector))
    unfolding scan_selector
    has-scan_selector s selector = elim (Bool-cases (is_matched selector)) [
      | inl e ↦ rw e (has-pull_sets wanted config selector.name s.pulled selector.gate_sets)
      | inr e ↦ rw e (ground arith)
    ]

    has-scan_selectors :
        (s : Scan) (selectors : List Selector)
        → has wanted (scan_selectors globset config files s selectors).pulled ≡ (
            has wanted s.pulled
            || any (λ selector. is_matched selector && selects wanted config selector) selectors)
    unfolding scan_selectors any
    has-scan_selectors s [] = ground arith
    has-scan_selectors s (selector ∷ rest) = ground (
      arith,
      has-scan_selectors (scan_selector globset config files s selector) rest,
      has-scan_selector s selector,
    )

    -- What is pulled, over any test of ids.
    pub has-scan : has wanted (scan globset config files).pulled ≡ (
        if is_empty config.selectors
        then any (λ (g : Gate). wanted g.id) config.gates
        else any
            (λ (g : Gate). contains (generated_gate_ids config) g.id && wanted g.id)
            config.gates
          || any
              (λ selector. is_matched selector && selects wanted config selector)
              config.selectors)
    unfolding scan any
    has-scan = elim (Bool-cases (is_empty config.selectors)) [
      | inl e ↦ rw e (has-pull_default wanted (λ id. true) [] config.gates)
      | inr e ↦ rw e (
          ground (
            arith,
            has-scan_selectors
                (record {
                  pulled = pull_default (contains (generated_gate_ids config)) [] config.gates;
                  selectors = [];
                })
                config.selectors,
            has-pull_default wanted (contains (generated_gate_ids config)) [] config.gates,
          ))
    ]
