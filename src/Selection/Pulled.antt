-- ===== src/Selection/Pulled.antt =====
-- What the loops of `select` pull: an exact account, for any test of gate ids.
use nopal.Prelude.{
  String, Bool, true, ◌||◌, ◌&&◌, ◌≡◌, ap, ◌∙◌, List, [], ◌∷◌, ◌++◌, ◌==◌, eq_iff, arith, any,
  is_some_and, Bool-cases, Option-cases, inl, inr,
}
use nopal.Gates.{Gate, GateSet, Selector, GatesConfig, get_set}
use nopal.Selection.Types.{Via, default, by_selector}
use nopal.Selection.Pull.{
  Pulled, is_pulled, pull_default, pull_gate, pull_gates, pull_set, pull_sets,
}

module _ (wanted : String → Bool) where
  -- Some pulled gate passes the test.
  abbrev pub has : Pulled → Bool
  has pulled = any (λ (p : String × Via). wanted p.0) pulled

  -- Some gate of some set of the selector passes the test.
  abbrev pub selects : GatesConfig → Selector → Bool
  selects config selector =
      any
        (λ name.
          is_some_and (get_set config.gate_sets name) (λ (set : GateSet). any wanted set.gates))
        selector.gate_sets

  has_of_pulled :
      (pulled : Pulled) (id : String)
      → is_pulled pulled id ≡ true
      → wanted id ≡ true
      → has pulled ≡ true
  unfolding any
  has_of_pulled [] id h w = h
  has_of_pulled ((j, via) ∷ rest) id h w = elim (Bool-cases (j == id)) [
    | inl e ↦ rw (ap wanted ((eq_iff j id).0 e) ∙ w)
    | inr e ↦ ground (arith, has_of_pulled rest id (rw e at h) w)
  ]

  has-snoc :
      (pulled : Pulled) (id : String) (via : Via)
      → has (pulled ++ (id, via) ∷ []) ≡ (has pulled || wanted id)
  unfolding any
  has-snoc [] id via = ground arith
  has-snoc (p ∷ rest) id via = ground (arith, has-snoc rest id via)

  has-pull_gate :
      (via : Via) (pulled : Pulled) (id : String)
      → has (pull_gate via pulled id) ≡ (has pulled || wanted id)
  unfolding pull_gate
  has-pull_gate via pulled id = ground (arith, has_of_pulled pulled id, has-snoc pulled id via)

  has-pull_gates :
      (via : Via) (pulled : Pulled) (ids : List String)
      → has (pull_gates via pulled ids) ≡ (has pulled || any wanted ids)
  unfolding pull_gates any
  has-pull_gates via pulled [] = ground arith
  has-pull_gates via pulled (id ∷ ids) =
      ground (arith, has-pull_gates via (pull_gate via pulled id) ids, has-pull_gate via pulled id)

  pub has-pull_default :
      (chosen : String → Bool) (pulled : Pulled) (gates : List Gate)
      → has (pull_default chosen pulled gates)
        ≡ (has pulled || any (λ (g : Gate). chosen g.id && wanted g.id) gates)
  unfolding pull_default any
  has-pull_default chosen pulled [] = ground arith
  has-pull_default chosen pulled (gate ∷ gates) = elim (Bool-cases (chosen gate.id)) [
    | inl e ↦ rw e (
        ground (
          arith,
          has-pull_default chosen (pulled ++ (gate.id, default) ∷ []) gates,
          has-snoc pulled gate.id default,
        ))
    | inr e ↦ rw e (ground (arith, has-pull_default chosen pulled gates))
  ]

  module _ (config : GatesConfig) where
    has-pull_set :
        (selector : String) (pulled : Pulled) (name : String)
        → has (pull_set config selector pulled name) ≡ (
            has pulled
            || is_some_and
                (get_set config.gate_sets name)
                (λ (set : GateSet). any wanted set.gates))
    has-pull_set selector pulled name = elim (Option-cases (get_set config.gate_sets name)) [
      | inl absent ↦ unfold pull_set in rw (absent, pull_set) (ground arith)
      | inr (set, found) ↦
          unfold pull_set in
          rw (found, pull_set) (has-pull_gates (by_selector selector name) pulled set.gates)
    ]

    pub has-pull_sets :
        (selector : String) (pulled : Pulled) (names : List String)
        → has (pull_sets config selector pulled names) ≡ (
            has pulled
            || any
                (λ name.
                  is_some_and
                    (get_set config.gate_sets name)
                    (λ (set : GateSet). any wanted set.gates))
                names)
    unfolding pull_sets any
    has-pull_sets selector pulled [] = ground arith
    has-pull_sets selector pulled (name ∷ names) = ground (
      arith,
      has-pull_sets selector (pull_set config selector pulled name) names,
      has-pull_set selector pulled name,
    )
