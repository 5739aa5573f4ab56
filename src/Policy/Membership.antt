-- ===== src/Policy/Membership.antt =====
-- Which classes are effective: those that the caller declares and those of the referenced
-- variables that the document classifies, each once.
use nopal.Prelude.{
  String, Bool, true, false, ◌||◌, ◌&&◌, ◌≡◌, refl, ap, fun_ext, ◌∙◌, none, some, List, [], ◌∷◌,
  ◌++◌, arith, ◌==◌, eq_iff, any, any-append, find, concat, contains, contains-snoc, Bool-cases,
  inl, inr,
}
use nopal.Policy.Vocabulary.{ActionClass}
use nopal.Policy.Doc.{EnvRef, PolicyDoc, EvalRequest, EnvRefReport}
use nopal.Policy.Classes.{
  env_report, env_reports_from, Classes, add_class, add_declared, add_from_env, add_report,
  add_reports, insert_class, sort_classes, effective,
}
use nopal.Policy.Evaluate.{evaluate}

contains-add_class :
    (note : String) (c : Classes) (x y : ActionClass)
    → contains (add_class note c x).classes y ≡ (contains c.classes y || x == y)
unfolding add_class
contains-add_class note c x y = ground (arith, contains-snoc c.classes x y, eq_iff x y)

contains-add_declared :
    (c : Classes) (xs : List ActionClass) (y : ActionClass)
    → contains (add_declared c xs).classes y ≡ (contains c.classes y || contains xs y)
unfolding add_declared contains
contains-add_declared c [] y = ground arith
contains-add_declared c (x ∷ xs) y = ground (
  arith,
  contains-add_declared (add_class (concat ("class " ∷ x ∷ ": declared by caller" ∷ [])) c x) xs y,
  contains-add_class (concat ("class " ∷ x ∷ ": declared by caller" ∷ [])) c x y,
)

contains-add_from_env :
    (name : String) (c : Classes) (xs : List ActionClass) (y : ActionClass)
    → contains (add_from_env name c xs).classes y ≡ (contains c.classes y || contains xs y)
unfolding add_from_env contains
contains-add_from_env name c [] y = ground arith
contains-add_from_env name c (x ∷ xs) y =
    let note = concat ("class " ∷ x ∷ ": added by env ref " ∷ name ∷ []) in
    ground
      (arith, contains-add_from_env name (add_class note c x) xs y, contains-add_class note c x y)

abbrev gives : ActionClass → EnvRefReport → Bool
gives y r = r.known && contains r.classes y

contains-add_report :
    (c : Classes) (r : EnvRefReport) (y : ActionClass)
    → contains (add_report c r).classes y ≡ (contains c.classes y || gives y r)
unfolding add_report
contains-add_report c r y = ground (arith, contains-add_from_env r.name c r.classes y)

contains-add_reports :
    (c : Classes) (rs : List EnvRefReport) (y : ActionClass)
    → contains (add_reports c rs).classes y ≡ (contains c.classes y || any (gives y) rs)
unfolding add_reports any
contains-add_reports c [] y = ground arith
contains-add_reports c (r ∷ rs) y =
    ground (arith, contains-add_reports (add_report c r) rs y, contains-add_report c r y)

-- Every report is that of its own name.
abbrev IsFaithful : List EnvRef → List EnvRefReport → Type 0
IsFaithful refs [] = Unit {0}
IsFaithful refs (r ∷ rs) = (r ≡ env_report refs r.name) × IsFaithful refs rs

name-env_report : (refs : List EnvRef) (name : String) → (env_report refs name).name ≡ name
unfolding env_report
name-env_report refs name = ground arith

IsFaithful-snoc :
    (refs : List EnvRef) (rs : List EnvRefReport) (name : String)
    → IsFaithful refs rs
    → IsFaithful refs (rs ++ env_report refs name ∷ [])
unfolding env_report
IsFaithful-snoc refs [] name h = (rw name-env_report, tt)
IsFaithful-snoc refs (r ∷ rs) name h = (h.0, IsFaithful-snoc refs rs name h.1)

module _ (refs : List EnvRef) (y : ActionClass) where
  -- A name that was reported already adds nothing new.
  gives-reported :
      (rs : List EnvRefReport) (name : String)
      → IsFaithful refs rs
      → any (λ (e : EnvRefReport). e.name == name) rs ≡ true
      → gives y (env_report refs name) ≡ true
      → any (gives y) rs ≡ true
  unfolding any
  gives-reported [] name f h g = h
  gives-reported (r ∷ rs) name f h g = elim (Bool-cases (r.name == name)) [
    | inl same ↦
        let e : gives y r ≡ gives y (env_report refs name) =
          ap (gives y) (f.0 ∙ ap (env_report refs) ((eq_iff r.name name).0 same)) in
        rw (e, g)
    | inr other ↦ ground (arith, gives-reported rs name f.1)
  ]

  any-env_reports_from :
      (acc : List EnvRefReport) (names : List String)
      → IsFaithful refs acc
      → any (gives y) (env_reports_from refs acc names)
        ≡ (any (gives y) acc || any (λ name. gives y (env_report refs name)) names)
  unfolding env_reports_from any
  any-env_reports_from acc [] f = ground arith
  any-env_reports_from acc (name ∷ names) f =
      elim (Bool-cases (any (λ (e : EnvRefReport). e.name == name) acc)) [
        | inl old ↦
            rw old (ground (arith, any-env_reports_from acc names f, gives-reported acc name f old))
        | inr new ↦ rw new (
            ground (
              arith,
              any-env_reports_from (acc ++ env_report refs name ∷ []) names
                  (IsFaithful-snoc refs acc name f),
              any-append (gives y) acc (env_report refs name ∷ []),
            ))
      ]

contains-insert_class :
    (x : ActionClass) (xs : List ActionClass) (y : ActionClass)
    → contains (insert_class x xs) y ≡ (x == y || contains xs y)
unfolding insert_class contains
contains-insert_class x [] y = refl
contains-insert_class x (z ∷ zs) y = ground (arith, contains-insert_class x zs y)

contains-sort_classes :
    (xs : List ActionClass) (y : ActionClass) → contains (sort_classes xs) y ≡ contains xs y
unfolding sort_classes contains
contains-sort_classes [] y = refl
contains-sort_classes (x ∷ xs) y =
    contains-insert_class x (sort_classes xs) y ∙ ap (λ b. x == y || b) (contains-sort_classes xs y)

-- A variable's classification in the document: the first entry of that name.
abbrev pub classified : PolicyDoc → ActionClass → String → Bool
classified doc y name = elim (find (λ (e : EnvRef). e.name == name) doc.env) [
  | some r ↦ contains r.classes y
  | none ↦ false
]

gives-env_report :
    (doc : PolicyDoc) (y : ActionClass) (name : String)
    → gives y (env_report doc.env name) ≡ classified doc y name
unfolding env_report contains
gives-env_report doc y name = ground arith

-- A class is effective exactly when the caller declares it or some referenced variable is
-- classified with it by the document's first entry of that name, however often a variable is named.
pub contains-classes :
    (doc : PolicyDoc) (req : EvalRequest) (y : ActionClass)
    → contains (evaluate doc req).classes y
      ≡ (contains req.classes y || any (classified doc y) req.env)
unfolding evaluate effective
contains-classes doc req y =
    rw
      (
        contains-sort_classes,
        contains-add_reports,
        contains-add_declared,
        any-env_reports_from doc.env y [] req.env tt,
        fun_ext (gives-env_report doc y),
      )
      (unfold contains any in refl)
