-- ===== src/Parse/Effective.antt =====
-- The errors that the lists of a rule add (policy.rs): a list that stays empty adds an error or says nothing.
use nopal.Prelude.{
  ◌≤◌, ◌<◌, String, true, false, ◌≡◌, refl, ◌∙◌, Option, none, some, List, [], ◌∷◌, ◌++◌, ◌==◌, ◌⊎◌,
  arith, contains, is_empty, Bool-cases, Option-cases, inl, inr,
}
use nopal.Json.{Json, and_then}
use nopal.Diagnostics.Report.{Diagnostic, error_diagnostic, new_diagnostic}
use nopal.Diagnostics.Errors.{is_error, errors, errors-append, errors-grow}
use nopal.Policy.Vocabulary.{ActionClass, parse_class, is_known}
use nopal.Parse.Lists.{
  Filled, push_diag, push_new, push_class, class_entry, class_entries, parse_class_list,
  action_entry, action_entries, parse_action_list,
}

-- What a loop does to the list and the errors: a list that is still empty was empty before, and
-- nothing was said or an error was added.
abbrev pub Silent : Filled → Filled → Type 0
Silent f g =
    (errors f.diags ≤ errors g.diags)
    × (is_empty g.items ≡ true
        → (is_empty f.items ≡ true) × ((g.diags ≡ f.diags) ⊎ (errors f.diags < errors g.diags)))

Silent-trans : (f g h : Filled) → Silent f g → Silent g h → Silent f h
Silent-trans f g h (fg, f_empty) (gh, g_empty) = (
  omega (arith, fg, gh),
  λ e.
      let (ge, gs) = g_empty e in
      let (fe, fs) = f_empty ge in
      (
        fe,
        elim gs [
          | inr more ↦ inr (omega (arith, more, fg))
          | inl same ↦ elim fs [
            | inl still ↦ inl (same ∙ still)
            | inr more ↦ inr (omega (arith, more, gh))
          ]
        ],
      ),
)

not_empty-snoc : (xs : List String) (x : String) → is_empty (xs ++ x ∷ []) ≡ false
not_empty-snoc [] x = refl
not_empty-snoc (y ∷ ys) x = refl

not_empty_of_contains : (xs : List String) (x : String) → contains xs x ≡ true → is_empty xs ≡ false
unfolding contains
not_empty_of_contains [] x h = cc
not_empty_of_contains (y ∷ ys) x h = refl

not_empty-push_new : (item : String) (f : Filled) → is_empty (push_new item f).items ≡ false
not_empty-push_new item f = elim (Bool-cases (contains f.items item)) [
  | inl e ↦ rw e (not_empty_of_contains f.items item e)
  | inr e ↦ rw e (not_empty-snoc f.items item)
]

diags-push_new : (item : String) (f : Filled) → (push_new item f).diags ≡ f.diags
diags-push_new item f = elim (Bool-cases (contains f.items item)) [
  | inl e ↦ rw e refl
  | inr e ↦ rw e refl
]

-- A list that is not empty after a step says nothing of the diagnostics but that none is lost.
push_new-Silent : (item : String) (f : Filled) → Silent f (push_new item f)
push_new-Silent item f = (
  rw (diags-push_new item f) (omega arith),
  λ e. absurd (ground (arith, e, not_empty-push_new item f)),
)

warned-Silent :
    (item : String) (g f : Filled) → errors f.diags ≤ errors g.diags → Silent f (push_new item g)
warned-Silent item g f h =
    (rw (diags-push_new item g) h, λ e. absurd (ground (arith, e, not_empty-push_new item g)))

Silent-refl : (f : Filled) → Silent f f
Silent-refl f = (omega arith, λ e. (e, inl refl))

push_error-Silent : (d : Diagnostic) (f : Filled) → is_error d ≡ true → Silent f (push_diag d f)
push_error-Silent d f h =
    let grown = errors-append f.diags (d ∷ []) in
    (ground (arith, grown, h), λ e. (e, inr (ground (arith, grown, h))))

module _ (json : Json) (ctx path : String) where
  push_class-Silent :
      (value : json.Value) (class : ActionClass) (f : Filled)
      → Silent f (push_class json ctx path value class f)
  unfolding push_class
  push_class-Silent value class f = elim (Bool-cases (is_known class)) [
    | inl e ↦ rw e (push_new-Silent class f)
    | inr e ↦ rw e (warned-Silent class (push_diag _ f) f (errors-grow f.diags _))
  ]

  class_entry-Silent :
      (value : json.Value) (f : Filled) → Silent f (class_entry json ctx path value f)
  unfolding class_entry error_diagnostic new_diagnostic
  class_entry-Silent value f = elim (Option-cases (and_then (json.as_str value) parse_class)) [
    | inl e ↦ rw (e, class_entry) (push_error-Silent _ f refl)
    | inr (class, e) ↦ rw (e, class_entry) (push_class-Silent value class f)
  ]

  class_entries-Silent :
      (entries : List json.Value) (f : Filled) → Silent f (class_entries json ctx path entries f)
  unfolding class_entries
  class_entries-Silent [] f = Silent-refl f
  class_entries-Silent (value ∷ rest) f =
      Silent-trans f (class_entry json ctx path value f)
        (class_entries json ctx path rest (class_entry json ctx path value f))
        (class_entry-Silent value f) (class_entries-Silent rest (class_entry json ctx path value f))

  action_entry-Silent :
      (value : json.Value) (f : Filled) → Silent f (action_entry json ctx path value f)
  unfolding action_entry error_diagnostic new_diagnostic
  action_entry-Silent value f = elim (Option-cases (json.as_str value)) [
    | inl e ↦ rw (e, action_entry) (push_error-Silent _ f refl)
    | inr (action, e) ↦ elim (Bool-cases (action == "")) [
      | inl blank ↦ rw (e, action_entry, blank) (push_error-Silent _ f refl)
      | inr named ↦ rw (e, action_entry, named) (push_new-Silent action f)
    ]
  ]

  action_entries-Silent :
      (entries : List json.Value) (f : Filled) → Silent f (action_entries json ctx path entries f)
  unfolding action_entries
  action_entries-Silent [] f = Silent-refl f
  action_entries-Silent (value ∷ rest) f =
      Silent-trans f (action_entry json ctx path value f)
        (action_entries json ctx path rest (action_entry json ctx path value f))
        (action_entry-Silent value f)
        (action_entries-Silent rest (action_entry json ctx path value f))

  abbrev started : List Diagnostic → Filled
  started diags = record { items = []; diags = diags }

  pub parse_class_list-Silent :
      (value : Option json.Value) (diags : List Diagnostic)
      → Silent (started diags) (parse_class_list json ctx path value diags)
  unfolding parse_class_list error_diagnostic new_diagnostic
  parse_class_list-Silent none diags = Silent-refl (started diags)
  parse_class_list-Silent (some value) diags = elim (Option-cases (json.as_array value)) [
    | inl e ↦ rw (e, parse_class_list) (push_error-Silent _ (started diags) refl)
    | inr (entries, e) ↦ rw (e, parse_class_list) (class_entries-Silent entries (started diags))
  ]

  pub parse_action_list-Silent :
      (value : Option json.Value) (diags : List Diagnostic)
      → Silent (started diags) (parse_action_list json ctx path value diags)
  unfolding parse_action_list error_diagnostic new_diagnostic
  parse_action_list-Silent none diags = Silent-refl (started diags)
  parse_action_list-Silent (some value) diags = elim (Option-cases (json.as_array value)) [
    | inl e ↦ rw (e, parse_action_list) (push_error-Silent _ (started diags) refl)
    | inr (entries, e) ↦ rw (e, parse_action_list) (action_entries-Silent entries (started diags))
  ]
