-- ===== src/LedgerJson/Settles.antt =====
-- What the parts of the parser leave of a text, and when they are for want of fuel.
use nopal.Prelude.{
  ℕ, ◌≤◌, ◌<◌, ◌≡◌, refl, Bool, true, false, ◌&&◌, ◌||◌, inl, inr, [], ◌∷◌, eqb, leb, if◌then◌else◌,
  length, arith, Option-cases,
}
use nopal.LedgerJson.Value.{Bytes, Value, Items, Fields}
use nopal.LedgerJson.Scan.{
  Outcome, ok, error, out_of_fuel, then_do, starts, bump, eat, eat_sign, starts_digit, strip,
  skip_integer, some_digits, skip_fraction, skip_exponent, skip_number,
}
use nopal.LedgerJson.Lexemes.{Outcome-cases}
use nopal.LedgerJson.Parser.{literal, parse_number, array_at, object_at, more_items, more_fields}
use nopal.LedgerJson.Lengths.{length-bump, length-strip, length-skip_number}

-- The outcome leaves fewer than `n` bytes, and there is no fuel only under the condition.
abbrev pub Settles {ℓ} : {A : Type ℓ} → ℕ → Type 0 → Outcome (A × Bytes) → Type 0
Settles n E (ok (a, rest)) = length rest < n
Settles n E error = Unit
Settles n E out_of_fuel = E

pub if-holds {ℓ κ} :
    {A : Type ℓ} (P : A → Type κ) (b : Bool) (x y : A)
    → (b ≡ true → P x)
    → (b ≡ false → P y)
    → P (if b then x else y)
if-holds P true x y f g = f refl
if-holds P false x y f g = g refl

pub then_do-Settles {ℓ κ} :
    {A : Type ℓ} {B : Type κ} (n k : ℕ) (E F : Type 0) (m : Outcome (A × Bytes))
    (f : A × Bytes → Outcome (B × Bytes))
    → Settles n E m
    → (E → F)
    → ((a : A) (rest : Bytes) → length rest < n → Settles k F (f (a, rest)))
    → Settles k F (then_do m f)
then_do-Settles n k E F (ok (a, rest)) f h e next = next a rest h
then_do-Settles n k E F error f h e next = tt
then_do-Settles n k E F out_of_fuel f h e next = e h

pub literal-Settles :
    (n : ℕ) (E : Type 0) (b : ℕ) (bs : Bytes) (v : Value) (s : Bytes)
    → length s ≤ n
    → Settles n E (literal (b ∷ bs) v s)
unfolding literal
literal-Settles n E b bs v s h = elim (Option-cases (strip (b ∷ bs) s)) [
  | inl e ↦ let same : literal (b ∷ bs) v s ≡ error = rw (literal, e) in rw same tt
  | inr (rest, e) ↦
      let same : literal (b ∷ bs) v s ≡ ok (v, rest) = rw (literal, e) in
      rw same (omega (arith, length-strip (b ∷ bs) s rest e))
]

-- An outcome that is not for want of fuel.
abbrev pub Returns {ℓ} : {A : Type ℓ} → Outcome A → Type 0
Returns (ok a) = Unit
Returns error = Unit
Returns out_of_fuel = ⊥

pub then_do-Returns {ℓ κ} :
    {A : Type ℓ} {B : Type κ} (m : Outcome A) (f : A → Outcome B)
    → Returns m
    → ((a : A) → Returns (f a))
    → Returns (then_do m f)
then_do-Returns (ok a) f h next = next a
then_do-Returns error f h next = tt
then_do-Returns out_of_fuel f h next = h

some_digits-Returns : (s : Bytes) → Returns (some_digits s)
unfolding some_digits
some_digits-Returns s = if-holds Returns (starts_digit s) _ _ (λ e. tt) (λ e. tt)

skip_integer-Returns : (s : Bytes) → Returns (skip_integer s)
unfolding skip_integer
skip_integer-Returns [] = tt
skip_integer-Returns (c ∷ cs) =
    if-holds Returns (eqb c 48) _ _ (λ e. tt)
      (λ e. if-holds Returns (leb 49 c && leb c 57) _ _ (λ e. tt) (λ e. tt))

skip_fraction-Returns : (s : Bytes) → Returns (skip_fraction s)
unfolding skip_fraction
skip_fraction-Returns [] = tt
skip_fraction-Returns (c ∷ cs) =
    if-holds Returns (eqb c 46) _ _ (λ e. some_digits-Returns cs) (λ e. tt)

skip_exponent-Returns : (s : Bytes) → Returns (skip_exponent s)
unfolding skip_exponent
skip_exponent-Returns [] = tt
skip_exponent-Returns (c ∷ cs) =
    if-holds Returns (eqb c 101 || eqb c 69) _ _ (λ e. some_digits-Returns (eat_sign cs)) (λ e. tt)

skip_number-Returns : (s : Bytes) → Returns (skip_number s)
unfolding skip_number
skip_number-Returns s =
    then_do-Returns (then_do (skip_integer (eat 45 s)) skip_fraction) skip_exponent
      (then_do-Returns (skip_integer (eat 45 s)) skip_fraction (skip_integer-Returns (eat 45 s))
        skip_fraction-Returns)
      skip_exponent-Returns

pub parse_number-Settles :
    (n : ℕ) (E : Type 0) (s : Bytes) → length s ≤ n → Settles n E (parse_number s)
unfolding parse_number
parse_number-Settles n E s h = elim (Outcome-cases (skip_number s)) [
  | inl (rest, e) ↦ rw e (omega (arith, length-skip_number s rest e))
  | inr (inl e) ↦ rw e tt
  | inr (inr e) ↦ let returns = skip_number-Returns s in absurd (rw e at returns)
]

pub array_at-Settles :
    (loop : Bytes → Outcome (Items × Bytes)) (n : ℕ) (E F : Type 0) (s : Bytes)
    → length s < n
    → Settles (length s) E (loop s)
    → (E → F)
    → Settles n F (array_at loop s)
unfolding array_at
array_at-Settles loop n E F s small h e =
    if-holds (Settles n F) (starts 93 s) _ _ (λ q. omega (arith, length-bump s))
      (λ q. then_do-Settles (length s) n E F (loop s) _ h e (λ a rest less. omega arith))

pub object_at-Settles :
    (loop : Bytes → Outcome (Fields × Bytes)) (n : ℕ) (E F : Type 0) (s : Bytes)
    → length s < n
    → Settles (length s) E (loop s)
    → (E → F)
    → Settles n F (object_at loop s)
unfolding object_at
object_at-Settles loop n E F s small h e =
    if-holds (Settles n F) (starts 125 s) _ _ (λ q. omega (arith, length-bump s))
      (λ q. then_do-Settles (length s) n E F (loop s) _ h e (λ a rest less. omega arith))

pub more_items-Settles :
    (loop : Bytes → Outcome (Items × Bytes)) (v : Value) (n : ℕ) (E F : Type 0) (s : Bytes)
    → length s < n
    → Settles (length (bump s)) E (loop (bump s))
    → (starts 44 s ≡ true → E → F)
    → Settles n F (more_items loop v s)
unfolding more_items
more_items-Settles loop v n E F s small h e =
    if-holds (Settles n F) (starts 93 s) _ _ (λ q. omega (arith, length-bump s))
      (λ q.
        if-holds (Settles n F) (starts 44 s) _ _
          (λ comma.
            then_do-Settles (length (bump s)) n E F (loop (bump s)) _ h (e comma)
              (λ a rest less. omega (arith, length-bump s)))
          (λ other. tt))

pub more_fields-Settles :
    (loop : Fields → Bytes → Outcome (Fields × Bytes)) (m : Fields) (n : ℕ) (E : Type 0) (s : Bytes)
    → length s < n
    → (starts 44 s ≡ true → Settles n E (loop m (bump s)))
    → Settles n E (more_fields loop m s)
unfolding more_fields
more_fields-Settles loop m n E s small h =
    if-holds (Settles n E) (starts 125 s) _ _ (λ q. omega (arith, length-bump s))
      (λ q. if-holds (Settles n E) (starts 44 s) _ _ h (λ other. tt))
