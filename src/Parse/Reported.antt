-- ===== src/Parse/Reported.antt =====
-- Evaluation on a policy document that was read: each reference is reported as it was declared.
use nopal.Prelude.{
  String, true, ◌≡◌, some, List, [], ◌∷◌, ◌++◌, ◌==◌, contains, find, eq_iff, eq_refl, arith,
  Bool-cases, inl, inr,
}
use nopal.Json.{Json}
use nopal.Policy.Doc.{EnvRef, PolicyDoc}
use nopal.Policy.Classes.{env_report}
use nopal.Parse.Distinct.{is_distinct}
use nopal.Parse.Modes.{validate_policy}
use nopal.Parse.Keys.{names, validate_policy_distinct}

-- A declared name is among the names.
contains-declared :
    (before after : List EnvRef) (e : EnvRef) → contains (names (before ++ e ∷ after)) e.name ≡ true
unfolding contains
contains-declared [] after e = rw (eq_refl e.name)
contains-declared (x ∷ xs) after e = ground (arith, contains-declared xs after e)

-- Among distinct names the search finds the reference itself.
find-distinct :
    (before after : List EnvRef) (e : EnvRef)
    → is_distinct (names (before ++ e ∷ after)) ≡ true
    → find (λ (x : EnvRef). x.name == e.name) (before ++ e ∷ after) ≡ some e
unfolding find
find-distinct [] after e h = rw (eq_refl e.name)
find-distinct (x ∷ xs) after e h = elim (Bool-cases (x.name == e.name)) [
  | inr f ↦ rw f (find-distinct xs after e (ground (arith, h)))
  | inl f ↦
      let same : x.name ≡ e.name = (eq_iff x.name e.name).0 f in
      let repeated = contains-declared xs after e in absurd (ground (arith, rw same at h, repeated))
]

-- Whatever a policy document holds and whatever errors it has, an evaluation reports each reference
-- that was read of it as known, with its own classes.
pub env_report-validate_policy :
    (json : Json) (path : String) (root : json.Value) (doc : PolicyDoc) (before after : List EnvRef)
    (e : EnvRef)
    → (validate_policy json path root).value ≡ some doc
    → doc.env ≡ before ++ e ∷ after
    → env_report doc.env e.name ≡ record { name = e.name; known = true; classes = e.classes }
unfolding env_report
env_report-validate_policy json path root doc before after e h same =
    let distinct = (validate_policy_distinct json path root doc h).0 in
    rw (same, env_report, find-distinct before after e (rw same at distinct))
