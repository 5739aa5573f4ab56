-- ===== src/LedgerJson/Lexemes.antt =====
-- What the parser's scanners do on a text that goes on: a number ends where no byte continues it.
use nopal.Prelude.{
  ℕ, ◌-◌, ◌≡◌, refl, sym, Bool, true, not, ◌&&◌, ◌||◌, ◌⊎◌, inl, inr, [], ◌∷◌, ◌++◌, eqb, leb,
  length, arith, Bool-cases, length-append,
}
use nopal.LedgerJson.Value.{Bytes}
use nopal.LedgerJson.Scan.{
  Outcome, ok, error, out_of_fuel, then_do, eat, eat_sign, take, slice, is_digit, skip_digits,
  some_digits, skip_integer, skip_fraction, skip_exponent, skip_number,
}

-- No byte of the text's start can stand in a number.
abbrev pub is_end : Bytes → Bool
is_end [] = true
is_end (c ∷ cs) = not (is_digit c || eqb c 46 || eqb c 101 || eqb c 69 || eqb c 43 || eqb c 45)

pub Outcome-cases {ℓ} :
    {A : Type ℓ} (m : Outcome A) → ((a : A) × (m ≡ ok a)) ⊎ ((m ≡ error) ⊎ (m ≡ out_of_fuel))
Outcome-cases (ok a) = inl (a, refl)
Outcome-cases error = inr (inl refl)
Outcome-cases out_of_fuel = inr (inr refl)

-- What `then_do` returns, its first part returned.
pub then_do-ok {ℓ κ} :
    {A : Type ℓ} {B : Type κ} (m : Outcome A) (f : A → Outcome B) (b : B)
    → then_do m f ≡ ok b
    → (a : A) × (m ≡ ok a) × (f a ≡ ok b)
then_do-ok (ok a) f b h = (a, refl, h)
then_do-ok error f b h = cc
then_do-ok out_of_fuel f b h = cc

pub ok-injective {ℓ} : {A : Type ℓ} {a b : A} → ok a ≡ ok b → a ≡ b
ok-injective h = cc

module _ (t : Bytes) (h : is_end t ≡ true) where
  skip_digits-end : skip_digits t ≡ t
  unfolding skip_digits
  skip_digits-end =
      elim t as (λ t. is_end t ≡ true → skip_digits t ≡ t) [
        | [] ↦ λ h. refl
        | c ∷ cs ↦ λ h. ground (arith, h)
      ]
        h

  skip_digits-append : (s : Bytes) → skip_digits (s ++ t) ≡ skip_digits s ++ t
  unfolding skip_digits
  skip_digits-append [] = skip_digits-end
  skip_digits-append (c ∷ cs) = elim (Bool-cases (is_digit c)) [
    | inl e ↦ rw e (skip_digits-append cs)
    | inr e ↦ rw e
  ]

  some_digits-append : (s r : Bytes) → some_digits s ≡ ok r → some_digits (s ++ t) ≡ ok (r ++ t)
  unfolding some_digits
  some_digits-append [] r e = cc
  some_digits-append (c ∷ cs) r e = elim (Bool-cases (is_digit c)) [
    | inl d ↦
        let same : skip_digits (c ∷ cs) ≡ r = ok-injective (rw d at e) in
        rw (d, skip_digits-append (c ∷ cs), same)
    | inr d ↦ absurd (cc (rw d at e))
  ]

  eat-append : (s : Bytes) → eat 45 (s ++ t) ≡ eat 45 s ++ t
  eat-append [] =
      elim t as (λ t. is_end t ≡ true → eat 45 t ≡ t) [
        | [] ↦ λ h. refl
        | c ∷ cs ↦ λ h. ground (arith, h)
      ]
        h
  eat-append (c ∷ cs) = elim (Bool-cases (eqb c 45)) [ inl e ↦ rw e | inr e ↦ rw e ]

  eat_sign-append : (c : ℕ) (cs : Bytes) → eat_sign ((c ∷ cs) ++ t) ≡ eat_sign (c ∷ cs) ++ t
  eat_sign-append c cs = elim (Bool-cases (eqb c 43 || eqb c 45)) [ inl e ↦ rw e | inr e ↦ rw e ]

  skip_integer-append : (s r : Bytes) → skip_integer s ≡ ok r → skip_integer (s ++ t) ≡ ok (r ++ t)
  unfolding skip_integer
  skip_integer-append [] r e = cc
  skip_integer-append (c ∷ cs) r e = elim (Bool-cases (eqb c 48)) [
    | inl z ↦ let same : cs ≡ r = ok-injective (rw z at e) in rw (z, same)
    | inr z ↦ elim (Bool-cases (leb 49 c && leb c 57)) [
      | inl d ↦
          let same : skip_digits cs ≡ r = ok-injective (rw (z, d) at e) in
          rw (z, d, skip_digits-append cs, same)
      | inr d ↦ absurd (cc (rw (z, d) at e))
    ]
  ]

  skip_fraction-append :
      (s r : Bytes) → skip_fraction s ≡ ok r → skip_fraction (s ++ t) ≡ ok (r ++ t)
  unfolding skip_fraction
  skip_fraction-append [] r e =
      let same : [] ≡ r = ok-injective e in
      rw (sym same) (
        elim t as (λ t. is_end t ≡ true → skip_fraction t ≡ ok t) [
          | [] ↦ λ h. refl
          | c ∷ cs ↦ λ h. ground (arith, h)
        ]
          h)
  skip_fraction-append (c ∷ cs) r e = elim (Bool-cases (eqb c 46)) [
    | inl z ↦ rw z (some_digits-append cs r (rw z at e))
    | inr z ↦ let same : (c ∷ cs) ≡ r = ok-injective (rw z at e) in rw (z, sym same)
  ]

  skip_exponent-append :
      (s r : Bytes) → skip_exponent s ≡ ok r → skip_exponent (s ++ t) ≡ ok (r ++ t)
  unfolding skip_exponent
  skip_exponent-append [] r e =
      let same : [] ≡ r = ok-injective e in
      rw (sym same) (
        elim t as (λ t. is_end t ≡ true → skip_exponent t ≡ ok t) [
          | [] ↦ λ h. refl
          | c ∷ cs ↦ λ h. ground (arith, h)
        ]
          h)
  skip_exponent-append (c ∷ []) r e = elim (Bool-cases (eqb c 101 || eqb c 69)) [
    | inl z ↦ absurd (unfold some_digits in cc (rw z at e))
    | inr z ↦ let same : (c ∷ []) ≡ r = ok-injective (rw z at e) in rw (z, sym same)
  ]
  skip_exponent-append (c ∷ d ∷ ds) r e = elim (Bool-cases (eqb c 101 || eqb c 69)) [
    | inl z ↦ rw (z, eat_sign-append d ds) (some_digits-append (eat_sign (d ∷ ds)) r (rw z at e))
    | inr z ↦ let same : (c ∷ d ∷ ds) ≡ r = ok-injective (rw z at e) in rw (z, sym same)
  ]

  -- A text that scans as a number does so before any text that does not continue it.
  pub skip_number-append : (s r : Bytes) → skip_number s ≡ ok r → skip_number (s ++ t) ≡ ok (r ++ t)
  unfolding skip_number
  skip_number-append s r e =
      let (b, two, three) =
        then_do-ok (then_do (skip_integer (eat 45 s)) skip_fraction) skip_exponent r e in
      let (a, one, more) = then_do-ok (skip_integer (eat 45 s)) skip_fraction b two in
      rw (
        eat-append s,
        skip_integer-append (eat 45 s) a one,
        skip_fraction-append a b more,
        skip_exponent-append b r three,
      )

pub take-append : (s t : Bytes) → take (length s) (s ++ t) ≡ s
take-append [] t = refl
take-append (c ∷ cs) t = rw (take-append cs t)

pub slice-append : (s t : Bytes) → slice (s ++ t) t ≡ s
slice-append s t =
    let n : length (s ++ t) - length t ≡ length s = omega (arith, length-append s t) in
    rw (n, take-append s t)
