-- ===== src/Enforcement/Constant.antt =====
-- `constant_time_eq` of enforcement.rs is the equality of byte strings.
use Prim.Native.Nat.{bit_or, bit_xor, bit_or-bitwise, bit_xor-bitwise, digits, differ, max}
use nopal.Prelude.{
  ℕ, zero, suc, ◌+◌, ◌*◌, ◌/◌, ◌%◌, ◌≤◌, ◌≡◌, refl, sym, ap, subst, ◌∙◌, ◌↔◌, arith, true, [], ◌∷◌,
  length,
}
use nopal.LedgerJson.Value.{Bytes}
use nopal.Enforcement.Signature.{difference, constant_time_eq, capability_matches}

differ_zero : (x y : ℕ) → differ x y ≡ 0 → x ≡ y
differ_zero zero y e = omega (arith, e)
differ_zero (suc x) zero e = omega (arith, e)
differ_zero (suc x) (suc y) e = ap suc (differ_zero x y e)

differ_self : (x : ℕ) → differ x x ≡ 0
differ_self zero = refl
differ_self (suc x) = differ_self x

-- Two numbers without a differing digit are the same.
xor_digits : (n a b : ℕ) → a ≤ n → digits (λ b. b) differ n a b ≡ 0 → a ≡ b
xor_digits zero zero b p e = omega (arith, e)
xor_digits zero (suc a) b p e = absurd (omega arith)
xor_digits (suc n) zero b p e = omega (arith, e)
xor_digits (suc n) (suc a) b p e =
    let parts : digits (λ b. b) differ n (suc a / 2) (b / 2) * 2 + differ (suc a % 2) (b % 2) ≡ 0 =
      e in
    omega (
      arith,
      xor_digits n (suc a / 2) (b / 2) (omega arith) (omega (arith, parts)),
      differ_zero (suc a % 2) (b % 2) (omega (arith, parts)),
    )

xor_digits_self : (n a : ℕ) → a ≤ n → digits (λ b. b) differ n a a ≡ 0
xor_digits_self zero zero p = refl
xor_digits_self zero (suc a) p = absurd (omega arith)
xor_digits_self (suc n) zero p = refl
xor_digits_self (suc n) (suc a) p =
    omega (arith, xor_digits_self n (suc a / 2) (omega arith), differ_self (suc a % 2))

or_digits : (n a b : ℕ) → a ≤ n → digits (λ b. b) max n a b ≡ 0 → a ≡ 0
or_digits zero zero b p e = refl
or_digits zero (suc a) b p e = absurd (omega arith)
or_digits (suc n) zero b p e = refl
or_digits (suc n) (suc a) b p e =
    let parts : digits (λ b. b) max n (suc a / 2) (b / 2) * 2 + max (suc a % 2) (b % 2) ≡ 0 = e in
    omega (arith, parts, or_digits n (suc a / 2) (b / 2) (omega arith) (omega (arith, parts)))

xor_zero : (a b : ℕ) → bit_xor a b ≡ 0 → a ≡ b
xor_zero a b e = xor_digits a a b (omega arith) (sym (bit_xor-bitwise a b) ∙ e)

xor_self : (a : ℕ) → bit_xor a a ≡ 0
xor_self a = bit_xor-bitwise a a ∙ xor_digits_self a a (omega arith)

or_zero_left : (a b : ℕ) → bit_or a b ≡ 0 → a ≡ 0
or_zero_left a b e = or_digits a a b (omega arith) (sym (bit_or-bitwise a b) ∙ e)

zero_or : (b : ℕ) → bit_or 0 b ≡ b
zero_or b = bit_or-bitwise 0 b

difference_zero_start : (d : ℕ) (xs ys : Bytes) → difference d xs ys ≡ 0 → d ≡ 0
unfolding difference
difference_zero_start d [] ys e = e
difference_zero_start d (x ∷ xs) [] e = e
difference_zero_start d (x ∷ xs) (y ∷ ys) e =
    or_zero_left d (bit_xor x y) (difference_zero_start (bit_or d (bit_xor x y)) xs ys e)

difference_zero : (xs ys : Bytes) → length xs ≡ length ys → difference 0 xs ys ≡ 0 → xs ≡ ys
unfolding difference
difference_zero [] [] h e = refl
difference_zero [] (y ∷ ys) h e = absurd (omega (arith, h))
difference_zero (x ∷ xs) [] h e = absurd (omega (arith, h))
difference_zero (x ∷ xs) (y ∷ ys) h e =
    let rest : difference (bit_xor x y) xs ys ≡ 0 =
      ap (λ d. difference d xs ys) (sym (zero_or (bit_xor x y))) ∙ e in
    let same : bit_xor x y ≡ 0 = difference_zero_start (bit_xor x y) xs ys rest in
    ap (λ z. z ∷ xs) (xor_zero x y same)
    ∙ ap (λ zs. y ∷ zs) (difference_zero xs ys (omega (arith, h)) (rw same at rest))

difference_self : (xs : Bytes) → difference 0 xs xs ≡ 0
unfolding difference
difference_self [] = refl
difference_self (x ∷ xs) = rw (zero_or, xor_self) (difference_self xs)

pub constant_time_eq_refl : (xs : Bytes) → constant_time_eq xs xs ≡ true
unfolding constant_time_eq
constant_time_eq_refl xs = ground (arith, difference_self xs)

-- A capability matches exactly if it is the same bytes.
pub capability_matches_eq :
    (left right : Bytes) → (capability_matches left right ≡ true) ↔ (left ≡ right)
unfolding capability_matches constant_time_eq
capability_matches_eq left right = (
  λ h. difference_zero left right (ground arith) (ground arith),
  λ e. subst (λ other. capability_matches left other ≡ true) e (constant_time_eq_refl left),
)
