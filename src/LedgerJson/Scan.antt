-- ===== src/LedgerJson/Scan.antt =====
-- How the parser of crates/nopal-ledger-json/src/lib.rs steps over bytes. The text and the position
-- in it are the bytes that are left.
use nopal.Prelude.{
  ℕ, zero, suc, ◌-◌, Bool, true, false, ◌&&◌, ◌||◌, Option, none, some, [], ◌∷◌, eqb, leb,
  if◌then◌else◌, length,
}
use nopal.LedgerJson.Value.{Bytes}

-- A result, an error, or no fuel.
pub data Outcome {ℓ} (A : Type ℓ) : Type ℓ where
  ok : A → Outcome A
  error : Outcome A
  out_of_fuel : Outcome A

abbrev pub then_do {ℓ κ} : {A : Type ℓ} {B : Type κ} → Outcome A → (A → Outcome B) → Outcome B
then_do (ok a) f = f a
then_do error f = error
then_do out_of_fuel f = out_of_fuel

abbrev pub or_error {ℓ} : {A : Type ℓ} → Option A → Outcome A
or_error none = error
or_error (some a) = ok a

-- `self.peek() == Some(byte)`
abbrev pub starts : ℕ → Bytes → Bool
starts byte [] = false
starts byte (c ∷ cs) = eqb c byte

-- `bump`
abbrev pub bump : Bytes → Bytes
bump [] = []
bump (c ∷ cs) = cs

-- `eat`, of which the test is `starts`
abbrev pub eat : ℕ → Bytes → Bytes
eat byte [] = []
eat byte (c ∷ cs) = if eqb c byte then cs else c ∷ cs

abbrev pub is_space : ℕ → Bool
is_space c = eqb c 32 || eqb c 10 || eqb c 13 || eqb c 9

unfoldable pub ws : Bytes → Bytes
ws [] = []
ws (c ∷ cs) = let rest = ws cs in if is_space c then rest else c ∷ cs

-- `text[start..pos]`: what stands in `s` before its end `rest`.
abbrev pub take : ℕ → Bytes → Bytes
take zero s = []
take (suc n) [] = []
take (suc n) (c ∷ cs) = c ∷ take n cs

abbrev pub slice : Bytes → Bytes → Bytes
slice s rest = take (length s - length rest) s

-- `starts_with` of a literal: what is left after it.
unfoldable pub strip : Bytes → Bytes → Option Bytes
strip [] s = some s
strip (b ∷ bs) [] = none
strip (b ∷ bs) (c ∷ cs) = if eqb b c then strip bs cs else none

abbrev pub is_digit : ℕ → Bool
is_digit c = leb 48 c && leb c 57

abbrev pub starts_digit : Bytes → Bool
starts_digit [] = false
starts_digit (c ∷ cs) = is_digit c

unfoldable pub skip_digits : Bytes → Bytes
skip_digits [] = []
skip_digits (c ∷ cs) = let rest = skip_digits cs in if is_digit c then rest else c ∷ cs

-- The parts of `number`, by what is left after each.
unfoldable pub skip_integer : Bytes → Outcome Bytes
skip_integer [] = error
skip_integer (c ∷ cs) =
    if eqb c 48 then ok cs else if leb 49 c && leb c 57 then ok (skip_digits cs) else error

-- At least one digit.
unfoldable pub some_digits : Bytes → Outcome Bytes
some_digits s = if starts_digit s then ok (skip_digits s) else error

unfoldable pub skip_fraction : Bytes → Outcome Bytes
skip_fraction [] = ok []
skip_fraction (c ∷ cs) = if eqb c 46 then some_digits cs else ok (c ∷ cs)

-- `+` or `-`
abbrev pub eat_sign : Bytes → Bytes
eat_sign [] = []
eat_sign (c ∷ cs) = if eqb c 43 || eqb c 45 then cs else c ∷ cs

unfoldable pub skip_exponent : Bytes → Outcome Bytes
skip_exponent [] = ok []
skip_exponent (c ∷ cs) = if eqb c 101 || eqb c 69 then some_digits (eat_sign cs) else ok (c ∷ cs)

unfoldable pub skip_number : Bytes → Outcome Bytes
skip_number s = then_do (then_do (skip_integer (eat 45 s)) skip_fraction) skip_exponent

-- The loop of `string` after the opening quote; a byte after a backslash is stepped over.
unfoldable pub skip_string : Bool → Bytes → Option Bytes
skip_string escaped [] = none
skip_string true (c ∷ cs) = skip_string false cs
skip_string false (c ∷ cs) =
    let after_backslash = skip_string true cs in
    let further = skip_string false cs in
    if eqb c 92 then after_backslash else if eqb c 34 then some cs else further
