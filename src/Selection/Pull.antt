-- ===== src/Selection/Pull.antt =====
-- Which gates `select` of selection.rs pulls into consideration, and by what.
use nopal.Prelude.{
  String, Bool, true, not, Option, none, some, List, [], ◌∷◌, ◌++◌, ◌==◌, if◌then◌else◌, is_empty,
  any, find, contains,
}
use nopal.Gates.{Gate, Selector, GatesConfig, get_set, generated_gate_ids}
use nopal.Selection.Types.{Via, default, by_selector, SelectorMatch}
use nopal.Selection.Globs.{Globset, matching_files}

unfoldable pub find_gate : GatesConfig → String → Option Gate
find_gate config id = find (λ (gate : Gate). gate.id == id) config.gates

abbrev pub Pulled : Type 0
Pulled = List (String × Via)

abbrev pub is_pulled : Pulled → String → Bool
is_pulled pulled id = any (λ (p : String × Via). p.0 == id) pulled

-- The gates that are pulled with no selector: all of them, or the generated ones.
unfoldable pub pull_default : (String → Bool) → Pulled → List Gate → Pulled
pull_default wanted pulled [] = pulled
pull_default wanted pulled (gate ∷ gates) =
    pull_default wanted (if wanted gate.id then pulled ++ (gate.id, default) ∷ [] else pulled) gates

-- A gate that was pulled already keeps its first `Via`.
unfoldable pub pull_gate : Via → Pulled → String → Pulled
pull_gate via pulled id = if is_pulled pulled id then pulled else pulled ++ (id, via) ∷ []

unfoldable pub pull_gates : Via → Pulled → List String → Pulled
pull_gates via pulled [] = pulled
pull_gates via pulled (id ∷ ids) = pull_gates via (pull_gate via pulled id) ids

-- The gates of one set of a selector; a name with no set is passed over.
unfoldable pub pull_set : GatesConfig → String → Pulled → String → Pulled
pull_set config selector pulled name = elim (get_set config.gate_sets name) [
  | some set ↦ pull_gates (by_selector selector name) pulled set.gates
  | none ↦ pulled
]

unfoldable pub pull_sets : GatesConfig → String → Pulled → List String → Pulled
pull_sets config selector pulled [] = pulled
pull_sets config selector pulled (name ∷ names) =
    pull_sets config selector (pull_set config selector pulled name) names

-- The loop over the selectors.
pub record Scan : Type 0 where
  pub pulled : Pulled
  pub selectors : List SelectorMatch

unfoldable pub scan_selector : Globset → GatesConfig → List String → Scan → Selector → Scan
scan_selector globset config files s selector =
    let matched_files = matching_files globset files selector.paths selector.exclude in
    let matched = not (is_empty matched_files) in
    record {
      pulled =
          if matched then pull_sets config selector.name s.pulled selector.gate_sets else s.pulled;
      selectors =
          s.selectors
          ++ record { name = selector.name; matched = matched; matched_files = matched_files } ∷ [];
    }

unfoldable pub scan_selectors : Globset → GatesConfig → List String → Scan → List Selector → Scan
scan_selectors globset config files s [] = s
scan_selectors globset config files s (selector ∷ rest) =
    scan_selectors globset config files (scan_selector globset config files s selector) rest

unfoldable pub scan : Globset → GatesConfig → List String → Scan
scan globset config files =
    if is_empty config.selectors
    then record { pulled = pull_default (λ id. true) [] config.gates; selectors = [] }
    else scan_selectors globset config files
        (record {
          pulled = pull_default (contains (generated_gate_ids config)) [] config.gates;
          selectors = [];
        })
        config.selectors
