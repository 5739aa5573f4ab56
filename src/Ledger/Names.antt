-- ===== src/Ledger/Names.antt =====
-- Slugs and identifiers of run_ledger.rs, over texts as the list of their characters' code points.
use Prim.Native.Char.{code}
use nopal.Prelude.{
  ℕ, String, Bool, true, false, not, ◌&&◌, ◌||◌, Option, none, some, List, [], ◌∷◌, ◌++◌, eqb, leb,
  if◌then◌else◌, is_empty, all,
}

abbrev pub codes : String → List ℕ
codes String.[] = []
codes (String.◌∷◌ c s) = code c ∷ codes s

-- `char::is_ascii_alphanumeric`
unfoldable pub is_ascii_alphanumeric : ℕ → Bool
is_ascii_alphanumeric c =
    (leb 48 c && leb c 57) || (leb 65 c && leb c 90) || (leb 97 c && leb c 122)

-- `'_' | '.' | '-'`
unfoldable pub is_mark : ℕ → Bool
is_mark c = eqb c 95 || eqb c 46 || eqb c 45

abbrev pub is_name_char : ℕ → Bool
is_name_char c = is_ascii_alphanumeric c || is_mark c

-- The loop of `slug`: what it pushes on `out` from here, given `in_run`.
unfoldable pub slug_chars : Bool → List ℕ → List ℕ
slug_chars in_run [] = []
slug_chars in_run (c ∷ cs) =
    let kept = slug_chars false cs in
    let run = slug_chars true cs in
    if is_name_char c then c ∷ kept else if not in_run then 45 ∷ run else run

-- `trim_matches` at the start and at the end
unfoldable pub trim_start : List ℕ → List ℕ
trim_start [] = []
trim_start (c ∷ cs) = let rest = trim_start cs in if is_mark c then rest else c ∷ cs

unfoldable pub trim_end : List ℕ → List ℕ
trim_end [] = []
trim_end (c ∷ cs) = let rest = trim_end cs in if is_empty rest && is_mark c then [] else c ∷ rest

unfoldable pub slug : List ℕ → List ℕ → List ℕ
slug value fallback =
    let trimmed = trim_end (trim_start (slug_chars false value)) in
    if is_empty trimmed then fallback else trimmed

-- `filter(|s| !s.is_empty())`
abbrev pub non_empty : Option (List ℕ) → Option (List ℕ)
non_empty none = none
non_empty (some s) = if is_empty s then none else some s

abbrev pub or_else : Option (List ℕ) → Option (List ℕ) → Option (List ℕ)
or_else none b = b
or_else (some s) b = some s

abbrev pub unwrap_or : Option (List ℕ) → List ℕ → List ℕ
unwrap_or none d = d
unwrap_or (some s) d = s

unfoldable pub normalize_flow : Option (List ℕ) → Option (List ℕ) → List ℕ
normalize_flow flow skill =
    slug (unwrap_or (or_else (non_empty flow) (non_empty skill)) (codes "run")) (codes "run")

unfoldable pub identifier_valid : List ℕ → Bool
identifier_valid [] = false
identifier_valid (c ∷ cs) = is_ascii_alphanumeric c && all is_name_char cs

unfoldable pub new_run_id : List ℕ → List ℕ → List ℕ
new_run_id stamp token_hex = stamp ++ 45 ∷ token_hex

unfoldable pub checkpoint_file_name : List ℕ → List ℕ
checkpoint_file_name name = slug name (codes "checkpoint") ++ codes ".json"
