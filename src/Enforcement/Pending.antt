-- ===== src/Enforcement/Pending.antt =====
-- The gates that wait for a receipt (`plan_for_intent` of enforcement.rs).
use nopal.Prelude.{
  ◌≡◌, refl, sym, ap, subst, ◌∙◌, arith, Bool-cases, inl, inr, eq_iff, String, true, false, some,
  List, [], ◌∷◌, map, any, find, contains,
}
use nopal.Parse.Distinct.{is_distinct}
use nopal.Selection.Types.{SelectedGate}
use nopal.Enforcement.Added.{has_id, ids}
use nopal.Enforcement.Required.{Sourced}
use nopal.Enforcement.Plan.{ReceiptStatus, pending}

-- Without a run directory every gate is pending.
pub pending_all :
    (f : SelectedGate → ReceiptStatus)
    → ((gate : SelectedGate) → (f gate).current ≡ false)
    → (gates : List SelectedGate) → pending gates (map f gates) ≡ gates
unfolding pending
pending_all f h [] = refl
pending_all f h (gate ∷ gates) = rw (h gate) (ap (λ rest. gate ∷ rest) (pending_all f h gates))

-- A gate whose receipt is current is not pending, if no other has its id.
pending_none :
    (f : SelectedGate → ReceiptStatus) (id : String) (gates : List SelectedGate)
    → any (has_id id) gates ≡ false
    → any (has_id id) (pending gates (map f gates)) ≡ false
unfolding pending any
pending_none f id [] h = refl
pending_none f id (gate ∷ gates) h = ground (arith, h, pending_none f id gates)

abbrev pub gate_ids : List SelectedGate → List String
gate_ids gates = map (λ (gate : SelectedGate). gate.id) gates

contains-gate_ids :
    (gates : List SelectedGate) (id : String) → contains (gate_ids gates) id ≡ any (has_id id) gates
unfolding contains any
contains-gate_ids [] id = refl
contains-gate_ids (gate ∷ gates) id = ground (arith, contains-gate_ids gates id)

pub pending_current :
    (f : SelectedGate → ReceiptStatus) (id : String) (gates : List SelectedGate)
    {gate : SelectedGate}
    → is_distinct (gate_ids gates) ≡ true
    → find (has_id id) gates ≡ some gate
    → (f gate).current ≡ true
    → any (has_id id) (pending gates (map f gates)) ≡ false
unfolding pending any find
pending_current f id [] d e h = cc
pending_current f id (g ∷ gates) {gate} d e h = elim (Bool-cases (has_id id g)) [
  | inl t ↦
      let found : some g ≡ some gate = rw t at e in
      let same : g ≡ gate = cc in
      let current : (f g).current ≡ true = subst (λ x. (f x).current ≡ true) (sym same) h in
      let others : any (has_id id) gates ≡ false =
        sym (contains-gate_ids gates id)
        ∙ ap (contains (gate_ids gates)) (sym ((eq_iff g.id id).0 t))
        ∙ ground (arith, d) in
      rw current (pending_none f id gates others)
  | inr t ↦ ground (arith, t, pending_current f id gates (ground (arith, d)) (rw t at e) h)
]

pub gate_ids-ids :
    (selected : List Sourced) → gate_ids (map (λ (g : Sourced). g.1) selected) ≡ ids selected
gate_ids-ids [] = refl
gate_ids-ids (g ∷ rest) = ap (λ later. g.1.id ∷ later) (gate_ids-ids rest)
