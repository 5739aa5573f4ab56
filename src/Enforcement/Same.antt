-- ===== src/Enforcement/Same.antt =====
-- Gates with the same semantics (`gate_semantics` of enforcement.rs).
use nopal.Prelude.{
  ◌≡◌, refl, ap, ◌∙◌, arith, eq_iff, String, Bool, true, false, Option, none, some, List, [], ◌∷◌,
}
use nopal.Gates.{stage_text, Run, command, argv}
use nopal.Selection.Types.{SelectedGate}
use nopal.Enforcement.Required.{
  text_option_eq, bool_option_eq, texts_eq, run_eq, gate_semantics, semantics_eq,
}

-- The gates run the same, in the same place and at the same stage.
abbrev pub IsSame : SelectedGate → SelectedGate → Type 0
IsSame a b =
    (a.id ≡ b.id)
    × (stage_text a.stage ≡ stage_text b.stage)
    × (a.run ≡ b.run)
    × (a.cwd ≡ b.cwd)
    × (a.autofix ≡ b.autofix)
    × (a.parallel_safe ≡ b.parallel_safe)
    × (a.mutates ≡ b.mutates)

texts_eq_sound : (xs ys : List String) → texts_eq xs ys ≡ true → xs ≡ ys
unfolding texts_eq
texts_eq_sound [] [] h = refl
texts_eq_sound [] (y ∷ ys) h = cc
texts_eq_sound (x ∷ xs) [] h = cc
texts_eq_sound (x ∷ xs) (y ∷ ys) h =
    ap (λ z. z ∷ xs) ((eq_iff x y).0 (ground (arith, h)))
    ∙ ap (λ zs. y ∷ zs) (texts_eq_sound xs ys (ground (arith, h)))

run_eq_sound : (a b : Run) → run_eq a b ≡ true → a ≡ b
unfolding run_eq
run_eq_sound (command a) (command b) h = ap command ((eq_iff a b).0 h)
run_eq_sound (command a) (argv b) h = cc
run_eq_sound (argv a) (command b) h = cc
run_eq_sound (argv a) (argv b) h = ap argv (texts_eq_sound a b h)

text_option_eq_sound : (a b : Option String) → text_option_eq a b ≡ true → a ≡ b
unfolding text_option_eq
text_option_eq_sound none none h = refl
text_option_eq_sound none (some b) h = cc
text_option_eq_sound (some a) none h = cc
text_option_eq_sound (some a) (some b) h = ap some ((eq_iff a b).0 h)

bool_option_eq_sound : (a b : Option Bool) → bool_option_eq a b ≡ true → a ≡ b
unfolding bool_option_eq
bool_option_eq_sound none none h = refl
bool_option_eq_sound none (some b) h = cc
bool_option_eq_sound (some a) none h = cc
bool_option_eq_sound (some true) (some true) h = refl
bool_option_eq_sound (some true) (some false) h = cc
bool_option_eq_sound (some false) (some true) h = cc
bool_option_eq_sound (some false) (some false) h = refl

pub semantics_eq_sound :
    (a b : SelectedGate) → semantics_eq (gate_semantics a) (gate_semantics b) ≡ true → IsSame a b
unfolding semantics_eq gate_semantics
semantics_eq_sound a b h = (
  (eq_iff a.id b.id).0 (ground (arith, h)),
  (eq_iff (stage_text a.stage) (stage_text b.stage)).0 (ground (arith, h)),
  run_eq_sound a.run b.run (ground (arith, h)),
  text_option_eq_sound a.cwd b.cwd (ground (arith, h)),
  text_option_eq_sound a.autofix b.autofix (ground (arith, h)),
  bool_option_eq_sound a.parallel_safe b.parallel_safe (ground (arith, h)),
  bool_option_eq_sound a.mutates b.mutates (ground (arith, h)),
)
