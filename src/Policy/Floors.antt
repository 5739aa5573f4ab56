-- ===== src/Policy/Floors.antt =====
-- The safety floors of `evaluate` against a description that looks at each class once.
use nopal.Prelude.{
  String, Bool, true, not, ◌||◌, ◌≡◌, refl, List, [], ◌∷◌, arith, ◌==◌, eq_iff, if◌then◌else◌, any,
  contains,
}
use nopal.Policy.Vocabulary.{
  ActionClass, is_known, Decision, allow, ask, deny, Placement, shared_user_runtime,
  dedicated_repo_runtime, dedicated_run_runtime, blocked, decision_lt, placement_lt, max_decision,
  max_placement,
}
use nopal.Policy.Doc.{Source, safety_floor}
use nopal.Policy.Evaluate.{Verdict, raise_decision, raise_placement, class_floor, class_floors}

abbrev pub is_denied : ActionClass → Bool
is_denied c = c == "destructive" || not (is_known c)

abbrev pub is_destructive : ActionClass → Bool
is_destructive c = c == "destructive"

abbrev pub is_isolated : ActionClass → Bool
is_isolated c = c == "secret_bearing" || not (is_known c)

-- The decision that an action and its classes ask for at least.
abbrev pub floor_decision : String → List ActionClass → Decision
floor_decision action classes =
    if action == "git.push_force" || any is_denied classes then deny else allow

abbrev pub floor_placement : String → List ActionClass → Placement
floor_placement action classes =
    if action == "git.push_force" || any is_destructive classes
    then blocked
    else if any is_isolated classes
    then dedicated_run_runtime
    else shared_user_runtime

abbrev pub deny_if : Bool → Decision
deny_if b = if b then deny else allow

-- The placement floor of one class, or of a set of classes, by two tests.
abbrev pub place_if : Bool → Bool → Placement
place_if destructive isolated =
    if destructive then blocked else if isolated then dedicated_run_runtime else shared_user_runtime

pub max_deny_if :
    (d : Decision) (a b : Bool)
    → max_decision (max_decision d (deny_if a)) (deny_if b) ≡ max_decision d (deny_if (a || b))
unfolding max_decision
max_deny_if allow a b = ground arith
max_deny_if ask a b = ground arith
max_deny_if deny a b = ground arith

pub max_place_if :
    (p : Placement) (a b x y : Bool)
    → max_placement (max_placement p (place_if a x)) (place_if b y)
      ≡ max_placement p (place_if (a || b) (x || y))
unfolding max_placement
max_place_if shared_user_runtime a b x y = ground arith
max_place_if dedicated_repo_runtime a b x y = ground arith
max_place_if dedicated_run_runtime a b x y = ground arith
max_place_if blocked a b x y = ground arith

secret-is_known : (c : ActionClass) → (c == "secret_bearing") ≡ true → is_known c ≡ true
unfolding is_known contains
secret-is_known c h = rw ((eq_iff c "secret_bearing").0 h)

pub max_decision-allow : (d : Decision) → max_decision d allow ≡ d
unfolding max_decision
max_decision-allow allow = refl
max_decision-allow _ = refl

pub max_placement-shared : (p : Placement) → max_placement p shared_user_runtime ≡ p
unfolding max_placement
max_placement-shared shared_user_runtime = refl
max_placement-shared _ = refl

module _ (c : ActionClass) (v : Verdict) where
  class_floor-decision :
      (class_floor c v).decision ≡ max_decision v.decision (deny_if (is_denied c))
  unfolding class_floor raise_decision raise_placement
  class_floor-decision = ground (arith, secret-is_known c, max_decision-allow v.decision)

  class_floor-placement :
      (class_floor c v).placement
      ≡ max_placement v.placement (place_if (is_destructive c) (is_isolated c))
  unfolding class_floor raise_decision raise_placement
  class_floor-placement = ground (arith, max_placement-shared v.placement)

pub class_floors-decision :
    (cs : List ActionClass) (v : Verdict)
    → (class_floors cs v).decision ≡ max_decision v.decision (deny_if (any is_denied cs))
unfolding class_floors any
class_floors-decision [] v = rw max_decision-allow
class_floors-decision (c ∷ cs) v =
    rw (class_floors-decision cs (class_floor c v), class_floor-decision c v)
      (max_deny_if v.decision (is_denied c) (any is_denied cs))

pub class_floors-placement :
    (cs : List ActionClass) (v : Verdict)
    → (class_floors cs v).placement
      ≡ max_placement v.placement (place_if (any is_destructive cs) (any is_isolated cs))
unfolding class_floors any
class_floors-placement [] v = rw max_placement-shared
class_floors-placement (c ∷ cs) v =
    rw (class_floors-placement cs (class_floor c v), class_floor-placement c v)
      (max_place_if v.placement (is_destructive c) (any is_destructive cs) (is_isolated c)
        (any is_isolated cs))

-- Where a verdict comes from after a floor has moved it from one value to another.
abbrev pub decision_source_after : Decision → Decision → Source → Source
decision_source_after before after s = if decision_lt before after then safety_floor else s

abbrev pub placement_source_after : Placement → Placement → Source → Source
placement_source_after before after s = if placement_lt before after then safety_floor else s

-- Two floors in a row leave the source that one floor to the higher value leaves.
decision_source-twice :
    (d : Decision) (a b : Bool) (s : Source)
    → decision_source_after
        (max_decision d (deny_if a))
        (max_decision (max_decision d (deny_if a)) (deny_if b))
        (decision_source_after d (max_decision d (deny_if a)) s)
      ≡ decision_source_after d (max_decision d (deny_if (a || b))) s
unfolding max_decision
decision_source-twice allow a b s = ground arith
decision_source-twice ask a b s = ground arith
decision_source-twice deny a b s = ground arith

placement_source-twice :
    (p : Placement) (a b x y : Bool) (s : Source)
    → placement_source_after
        (max_placement p (place_if a x))
        (max_placement (max_placement p (place_if a x)) (place_if b y))
        (placement_source_after p (max_placement p (place_if a x)) s)
      ≡ placement_source_after p (max_placement p (place_if (a || b) (x || y))) s
unfolding max_placement
placement_source-twice shared_user_runtime a b x y s = ground arith
placement_source-twice dedicated_repo_runtime a b x y s = ground arith
placement_source-twice dedicated_run_runtime a b x y s = ground arith
placement_source-twice blocked a b x y s = ground arith

pub decision_source-max :
    (d e : Decision) (s : Source)
    → decision_source_after d (max_decision d e) s ≡ decision_source_after d e s
unfolding max_decision
decision_source-max d e s = ground arith

pub placement_source-max :
    (p q : Placement) (s : Source)
    → placement_source_after p (max_placement p q) s ≡ placement_source_after p q s
unfolding max_placement
placement_source-max p q s = ground arith

module _ (c : ActionClass) (v : Verdict) where
  class_floor-decision_source :
      (class_floor c v).decision_source
      ≡ decision_source_after v.decision
          (max_decision v.decision (deny_if (is_denied c)))
          v.decision_source
  class_floor-decision_source =
      rw decision_source-max
        (unfold class_floor raise_decision raise_placement in ground (arith, secret-is_known c))

  class_floor-placement_source :
      (class_floor c v).placement_source
      ≡ placement_source_after v.placement
          (max_placement v.placement (place_if (is_destructive c) (is_isolated c)))
          v.placement_source
  class_floor-placement_source =
      rw placement_source-max (unfold class_floor raise_decision raise_placement in ground arith)

pub class_floors-decision_source :
    (cs : List ActionClass) (v : Verdict)
    → (class_floors cs v).decision_source
      ≡ decision_source_after v.decision
          (max_decision v.decision (deny_if (any is_denied cs)))
          v.decision_source
unfolding class_floors any
class_floors-decision_source [] v = rw decision_source-max (ground arith)
class_floors-decision_source (c ∷ cs) v =
    rw
      (
        class_floors-decision_source cs (class_floor c v),
        class_floor-decision_source c v,
        class_floor-decision c v,
      )
      (decision_source-twice v.decision (is_denied c) (any is_denied cs) v.decision_source)

pub class_floors-placement_source :
    (cs : List ActionClass) (v : Verdict)
    → (class_floors cs v).placement_source
      ≡ placement_source_after v.placement
          (max_placement v.placement (place_if (any is_destructive cs) (any is_isolated cs)))
          v.placement_source
unfolding class_floors any
class_floors-placement_source [] v = rw placement_source-max (ground arith)
class_floors-placement_source (c ∷ cs) v =
    rw
      (
        class_floors-placement_source cs (class_floor c v),
        class_floor-placement_source c v,
        class_floor-placement c v,
      )
      (placement_source-twice v.placement (is_destructive c) (any is_destructive cs) (is_isolated c)
        (any is_isolated cs) v.placement_source)
