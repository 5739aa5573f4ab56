-- ===== src/Diagnostics/Said.antt =====
-- A value with the diagnostics that its computation pushes, in order. The validators of
-- crates/nopal-core push them on one list that they are lent.
use nopal.Prelude.{◌+◌, ◌≡◌, arith, Option-cases, inl, inr, Option, none, some, List, [], ◌++◌}
use nopal.Diagnostics.Report.{Diagnostic}
use nopal.Diagnostics.Errors.{errors, errors-append}

pub record Said {ℓ} (A : Type ℓ) : Type ℓ where
  pub value : A
  pub said : List Diagnostic

abbrev pub say {ℓ} : {A : Type ℓ} → A → List Diagnostic → Said A
say a ds = record { value = a; said = ds }

abbrev pub quiet {ℓ} : {A : Type ℓ} → A → Said A
quiet a = say a []

-- Diagnostics that are pushed first.
abbrev pub after {ℓ} : {A : Type ℓ} → List Diagnostic → Said A → Said A
after ds m = say m.value (ds ++ m.said)

module _ {ℓ κ} {A : Type ℓ} {B : Type κ} where
  abbrev pub bind : Said A → (A → Said B) → Said B
  bind m f = say (f m.value).value (m.said ++ (f m.value).said)

  pub errors-bind :
      (m : Said A) (f : A → Said B)
      → errors (bind m f).said ≡ errors m.said + errors (f m.value).said
  errors-bind m f = errors-append m.said (f m.value).said

-- The operator `?` in a function that returns an Option.
module _ {ℓ κ} {A : Type ℓ} {B : Type κ} where
  abbrev pub attempt : Option A → (A → Said (Option B)) → Said (Option B)
  attempt none f = quiet none
  attempt (some a) f = f a

  abbrev pub try : Said (Option A) → (A → Said (Option B)) → Said (Option B)
  try m f = bind m (λ o. attempt o f)

  -- A property of what `try` gives without an error is one of what its second part gives so.
  pub try-holds {μ} :
      (P : Option B → Type μ) (m : Said (Option A)) (f : A → Said (Option B))
      → P none
      → ((a : A) → errors (f a).said ≡ 0 → P (f a).value)
      → errors (try m f).said ≡ 0
      → P (try m f).value
  try-holds P m f p q h = elim (Option-cases m.value) [
    | inl e ↦ rw e p
    | inr (a, e) ↦ rw e (q a (omega (arith, rw e at h, errors-append m.said (f a).said)))
  ]
