-- ===== src/Config/Required.antt =====
-- The modules that a manifest requires are distinct, and a manifest without errors has a profile.
use nopal.Prelude.{
  String, Bool, true, not, ◌&&◌, ◌≡◌, refl, inl, inr, ◌⊎◌, Option, none, some, List, [], ◌∷◌, ◌++◌,
  ◌==◌, any, any-append, eqb, arith, Bool-cases, Option-cases,
}
use nopal.Json.{Json, and_then, get_field}
use nopal.Diagnostics.Report.{Diagnostic}
use nopal.Config.Modules.{
  Module, module_tag, contains_module, builtin_required_modules, parse_module,
}
use nopal.Config.Manifest.{
  Manifest, removed_module_migration, add_module, check_module, check_item, check_items,
  read_modules, profile_required_modules, choose_modules, choose_profile, read_manifest,
  parse_manifest,
}

-- No module stands twice.
abbrev pub are_distinct : List Module → Bool
are_distinct [] = true
are_distinct (m ∷ ms) = not (contains_module ms m) && are_distinct ms

distinct-snoc :
    (ms : List Module) (m : Module)
    → are_distinct (ms ++ m ∷ []) ≡ (are_distinct ms && not (contains_module ms m))
unfolding any
distinct-snoc [] m = refl
distinct-snoc (x ∷ xs) m =
    ground
      (arith, distinct-snoc xs m, any-append (λ y. eqb (module_tag y) (module_tag x)) xs (m ∷ []))

module _ (json : Json) (path : String) where
  add_module_distinct :
      (ms : List Module) (m : Module)
      → are_distinct ms ≡ true
      → are_distinct (add_module json path ms m) ≡ true
  add_module_distinct ms m h = elim (Bool-cases (contains_module ms m)) [
    | inl e ↦ rw e h
    | inr e ↦ rw e (ground (arith, h, e, distinct-snoc ms m))
  ]

  check_module_distinct :
      (p : String) (item : json.Value) (ms : List Module) (name : String)
      → are_distinct ms ≡ true
      → are_distinct (check_module json path p item ms name).value ≡ true
  unfolding check_module
  check_module_distinct p item ms name h = elim (Option-cases (removed_module_migration name)) [
    | inr (migration, e) ↦ rw (e, check_module) h
    | inl e ↦ elim (Option-cases (parse_module name)) [
      | inr (m, f) ↦ rw (e, f, check_module) (add_module_distinct ms m h)
      | inl f ↦ rw (e, f, check_module) h
    ]
  ]

  check_item_distinct :
      (p : String) (ms : List Module) (item : json.Value)
      → are_distinct ms ≡ true
      → are_distinct (check_item json path p ms item).value ≡ true
  unfolding check_item
  check_item_distinct p ms item h = elim (Option-cases (json.as_str item)) [
    | inr (name, e) ↦ rw (e, check_item) (check_module_distinct p item ms name h)
    | inl e ↦ rw (e, check_item) h
  ]

  check_items_distinct :
      (p : String) (ms : List Module) (items : List json.Value)
      → are_distinct ms ≡ true
      → are_distinct (check_items json path p ms items).value ≡ true
  unfolding check_items
  check_items_distinct p ms [] h = h
  check_items_distinct p ms (item ∷ rest) h =
      check_items_distinct p (check_item json path p ms item).value rest
        (check_item_distinct p ms item h)

  abbrev HasDistinctModules : Option (List Module) → Type 0
  HasDistinctModules none = Unit
  HasDistinctModules (some ms) = are_distinct ms ≡ true

  read_modules-HasDistinctModules :
      (p : String) (value : json.Value) → HasDistinctModules (read_modules json path p value).value
  unfolding read_modules
  read_modules-HasDistinctModules p value =
      elim (Option-cases (get_field json value "required_modules")) [
        | inl e ↦ rw (e, read_modules) refl
        | inr (items, e) ↦ elim (Option-cases (json.as_array items)) [
          | inl f ↦ rw (e, f, read_modules) refl
          | inr (values, f) ↦ rw (e, f, read_modules) (check_items_distinct p [] values refl)
        ]
      ]

  profile_required_modules-HasDistinctModules :
      (root : json.Value) (p : String)
      → HasDistinctModules (profile_required_modules json path root p).value
  unfolding profile_required_modules
  profile_required_modules-HasDistinctModules root p =
      elim (Option-cases (and_then (get_field json root "profiles") (λ ps. get_field json ps p))) [
        | inl e ↦ rw (e, profile_required_modules) tt
        | inr (value, e) ↦
            rw (e, profile_required_modules) (read_modules-HasDistinctModules p value)
      ]

  builtin-HasDistinctModules : (name : String) → HasDistinctModules (builtin_required_modules name)
  unfolding builtin_required_modules any module_tag
  builtin-HasDistinctModules name = elim (Bool-cases (name == "minimal")) [
    | inl e ↦ rw e refl
    | inr e ↦ elim (Bool-cases (name == "portable")) [
      | inl f ↦ rw (e, f) refl
      | inr f ↦ rw (e, f) tt
    ]
  ]

  choose_modules_distinct :
      (name : String) (builtin found : Option (List Module))
      → HasDistinctModules builtin
      → HasDistinctModules found
      → are_distinct (choose_modules json path name builtin found).value.1 ≡ true
  unfolding choose_modules
  choose_modules_distinct name none none h k = refl
  choose_modules_distinct name (some ms) none h k = h
  choose_modules_distinct name none (some ns) h k = k
  choose_modules_distinct name (some ms) (some ns) h k = k

  choose_profile_distinct :
      (root : json.Value) (name : Option String)
      → are_distinct (choose_profile json path root name).value.1 ≡ true
  unfolding choose_profile
  choose_profile_distinct root none = refl
  choose_profile_distinct root (some name) =
      choose_modules_distinct name (builtin_required_modules name)
        (profile_required_modules json path root name).value (builtin-HasDistinctModules name)
        (profile_required_modules-HasDistinctModules root name)

  -- Whatever a manifest holds, the modules that it requires are distinct.
  pub parse_manifest_distinct :
      (source : json.Value ⊎ Diagnostic) (m : Manifest)
      → (parse_manifest json path source).value ≡ some m
      → are_distinct m.required_modules ≡ true
  unfolding parse_manifest read_manifest
  parse_manifest_distinct (inl root) m h =
      let name = and_then (get_field json root "profile") json.as_str in
      let same : (choose_profile json path root name).value.1 ≡ m.required_modules = cc h in
      rw (← same) (choose_profile_distinct root name)
  parse_manifest_distinct (inr d) m h = cc h
