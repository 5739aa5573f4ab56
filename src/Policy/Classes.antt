-- ===== src/Policy/Classes.antt =====
-- The effective classes of an action, the first half of `evaluate` of policy.rs.
use nopal.Prelude.{
  ℕ, suc, String, Bool, true, false, ◌||◌, none, some, List, [], ◌∷◌, ◌++◌, ltb, eqb, ◌==◌,
  if◌then◌else◌, contains, any, find, concat, text_lt,
}
use nopal.Policy.Vocabulary.{ActionClass, known_classes, is_known}
use nopal.Policy.Doc.{EnvRef, PolicyDoc, EvalRequest, EnvRefReport}

-- The report of one referenced variable.
unfoldable pub env_report : List EnvRef → String → EnvRefReport
env_report refs name = elim (find (λ (e : EnvRef). e.name == name) refs) [
  | some r ↦ record { name = name; known = true; classes = r.classes }
  | none ↦ record { name = name; known = false; classes = [] }
]

-- The loop over `req.env`; a name that was reported already is passed over.
unfoldable pub env_reports_from : List EnvRef → List EnvRefReport → List String → List EnvRefReport
env_reports_from refs acc [] = acc
env_reports_from refs acc (name ∷ names) =
    env_reports_from refs
      (if any (λ (e : EnvRefReport). e.name == name) acc
        then acc
        else acc ++ env_report refs name ∷ [])
      names

-- `classes` and `class_notes`, which the loops below extend.
pub record Classes : Type 0 where
  pub classes : List ActionClass
  pub notes : List String

-- `if !classes.contains(class) { push both }`
unfoldable pub add_class : String → Classes → ActionClass → Classes
add_class note c class =
    if contains c.classes class
    then c
    else record { classes = c.classes ++ class ∷ []; notes = c.notes ++ note ∷ [] }

unfoldable pub add_declared : Classes → List ActionClass → Classes
add_declared c [] = c
add_declared c (class ∷ rest) =
    add_declared (add_class (concat ("class " ∷ class ∷ ": declared by caller" ∷ [])) c class) rest

unfoldable pub add_from_env : String → Classes → List ActionClass → Classes
add_from_env name c [] = c
add_from_env name c (class ∷ rest) =
    add_from_env name
      (add_class (concat ("class " ∷ class ∷ ": added by env ref " ∷ name ∷ [])) c class) rest

unfoldable pub add_report : Classes → EnvRefReport → Classes
add_report c r = if r.known then add_from_env r.name c r.classes else record c {
  notes = c.notes ++ concat ("env ref " ∷ r.name ∷ ": not classified in policy env refs" ∷ []) ∷ [];
}

unfoldable pub add_reports : Classes → List EnvRefReport → Classes
add_reports c [] = c
add_reports c (r ∷ rest) = add_reports (add_report c r) rest

-- `class_sort_key`: the place among the known classes, and the text of an unknown class.
unfoldable pub position : List String → String → ℕ
position [] x = 0
position (y ∷ ys) x = if y == x then 0 else suc (position ys x)

unfoldable pub class_sort_key : ActionClass → ℕ × String
class_sort_key class = (position known_classes class, if is_known class then "" else class)

-- The order of the pairs: the number first, then the text.
unfoldable pub key_lt : ℕ × String → ℕ × String → Bool
key_lt (i, s) (j, t) = ltb i j || (if eqb i j then text_lt s t else false)

-- `sort_by` is stable: a class goes before the later ones whose key is not smaller.
unfoldable pub insert_class : ActionClass → List ActionClass → List ActionClass
insert_class c [] = c ∷ []
insert_class c (d ∷ ds) =
    if key_lt (class_sort_key d) (class_sort_key c) then d ∷ insert_class c ds else c ∷ d ∷ ds

unfoldable pub sort_classes : List ActionClass → List ActionClass
sort_classes [] = []
sort_classes (c ∷ cs) = insert_class c (sort_classes cs)

-- The classes of an action, in the order of the vocabulary, with the notes on where they came from.
unfoldable pub effective : PolicyDoc → EvalRequest → Classes
effective doc req =
    let c =
      add_reports (add_declared (record { classes = []; notes = [] }) req.classes)
        (env_reports_from doc.env [] req.env) in
    record { classes = sort_classes c.classes; notes = c.notes }
