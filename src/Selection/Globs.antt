-- ===== src/Selection/Globs.antt =====
-- The changed files in order, and those that a selector matches (selection.rs). The globset crate
-- is a parameter: how a pattern compiles, and which paths a compiled set matches.
use nopal.Prelude.{
  String, Bool, false, not, ◌&&◌, Option, none, some, List, [], ◌∷◌, ◌++◌, ◌==◌, if◌then◌else◌,
  is_empty, keep, is_some_and, text_lt,
}

-- The globset crate: `GlobBuilder::build`, `GlobSetBuilder::build` and `GlobSet::is_match`.
pub record Globset : Type 1 where
  pub Glob : Type 0
  pub GlobSet : Type 0
  pub glob : String → Option Glob
  pub build : List Glob → Option GlobSet
  pub is_match : GlobSet → String → Bool

-- `files.sort()` and `files.dedup()`
unfoldable pub insert_file : String → List String → List String
insert_file f [] = f ∷ []
insert_file f (g ∷ gs) = if text_lt g f then g ∷ insert_file f gs else f ∷ g ∷ gs

unfoldable pub sort : List String → List String
sort [] = []
sort (f ∷ fs) = insert_file f (sort fs)

unfoldable pub dedup : List String → List String
dedup [] = []
dedup (f ∷ []) = f ∷ []
dedup (f ∷ g ∷ gs) = let rest = dedup (g ∷ gs) in if f == g then rest else f ∷ rest

module _ (globset : Globset) where
  open globset use {Glob, GlobSet, glob, build, is_match}

  -- The loop of `glob_set`: the first pattern that does not compile ends it.
  unfoldable pub compile : List Glob → List String → Option GlobSet
  compile builder [] = build builder
  compile builder (pattern ∷ patterns) = elim (glob pattern) [
    | none ↦ none
    | some g ↦ compile (builder ++ g ∷ []) patterns
  ]

  unfoldable pub glob_set : List String → Option GlobSet
  glob_set patterns = compile [] patterns

  abbrev pub excluded : List String → String → Bool
  excluded exclude file =
      if is_empty exclude then false else is_some_and (glob_set exclude) (λ set. is_match set file)

  unfoldable pub matching_files : List String → List String → List String → List String
  matching_files files paths exclude = elim (glob_set paths) [
    | none ↦ []
    | some include ↦ keep (λ file. is_match include file && not (excluded exclude file)) files
  ]
