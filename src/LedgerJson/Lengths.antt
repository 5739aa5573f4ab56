-- ===== src/LedgerJson/Lengths.antt =====
-- What the parser's scanners leave is never longer than what they were given.
use nopal.Prelude.{
  ℕ, ◌+◌, ◌≤◌, ◌<◌, ◌≡◌, Bool, true, false, ◌&&◌, ◌||◌, inl, inr, some, [], ◌∷◌, eqb, leb, length,
  arith, Bool-cases,
}
use nopal.LedgerJson.Value.{Bytes}
use nopal.LedgerJson.Scan.{
  ok, then_do, starts, bump, eat, eat_sign, starts_digit, ws, strip, skip_digits, skip_integer,
  some_digits, skip_fraction, skip_exponent, skip_number, skip_string,
}
use nopal.LedgerJson.Lexemes.{then_do-ok, ok-injective}

pub length-ws : (s : Bytes) → length (ws s) ≤ length s
unfolding ws
length-ws [] = omega arith
length-ws (c ∷ cs) = ground (arith, length-ws cs)

pub length-skip_digits : (s : Bytes) → length (skip_digits s) ≤ length s
unfolding skip_digits
length-skip_digits [] = omega arith
length-skip_digits (c ∷ cs) = ground (arith, length-skip_digits cs)

pub length-bump : (s : Bytes) → length (bump s) ≤ length s
length-bump [] = omega arith
length-bump (c ∷ cs) = omega arith

pub length-starts : (b : ℕ) (s : Bytes) → starts b s ≡ true → length (bump s) < length s
length-starts b [] h = cc
length-starts b (c ∷ cs) h = omega arith

pub length-strip : (w s rest : Bytes) → strip w s ≡ some rest → length w + length rest ≡ length s
unfolding strip
length-strip [] s rest h = let e : s ≡ rest = cc h in rw e (omega arith)
length-strip (b ∷ bs) [] rest h = cc
length-strip (b ∷ bs) (c ∷ cs) rest h = elim (Bool-cases (eqb b c)) [
  | inl e ↦ omega (arith, length-strip bs cs rest (rw e at h))
  | inr e ↦ absurd (cc (rw e at h))
]

pub length-skip_string :
    (escaped : Bool) (s rest : Bytes) → skip_string escaped s ≡ some rest → length rest < length s
unfolding skip_string
length-skip_string escaped [] rest h = cc
length-skip_string true (c ∷ cs) rest h = omega (arith, length-skip_string false cs rest h)
length-skip_string false (c ∷ cs) rest h = elim (Bool-cases (eqb c 92)) [
  | inl e ↦ omega (arith, length-skip_string true cs rest (rw e at h))
  | inr e ↦ elim (Bool-cases (eqb c 34)) [
    | inl q ↦ let same : cs ≡ rest = cc (rw (e, q) at h) in rw same (omega arith)
    | inr q ↦ omega (arith, length-skip_string false cs rest (rw (e, q) at h))
  ]
]

-- The parts of a number only step forward.
length-some_digits : (s rest : Bytes) → some_digits s ≡ ok rest → length rest ≤ length s
unfolding some_digits
length-some_digits s rest h = elim (Bool-cases (starts_digit s)) [
  | inl e ↦
      let same : skip_digits s ≡ rest = ok-injective (rw e at h) in
      rw (← same) (length-skip_digits s)
  | inr e ↦ absurd (cc (rw e at h))
]

pub length-skip_integer : (s rest : Bytes) → skip_integer s ≡ ok rest → length rest < length s
unfolding skip_integer
length-skip_integer [] rest h = cc
length-skip_integer (c ∷ cs) rest h = elim (Bool-cases (eqb c 48)) [
  | inl z ↦ let same : cs ≡ rest = ok-injective (rw z at h) in rw (← same) (omega arith)
  | inr z ↦ elim (Bool-cases (leb 49 c && leb c 57)) [
    | inl d ↦
        let same : skip_digits cs ≡ rest = ok-injective (rw (z, d) at h) in
        rw (← same) (omega (arith, length-skip_digits cs))
    | inr d ↦ absurd (cc (rw (z, d) at h))
  ]
]

pub length-skip_fraction : (s rest : Bytes) → skip_fraction s ≡ ok rest → length rest ≤ length s
unfolding skip_fraction
length-skip_fraction [] rest h = let same : [] ≡ rest = ok-injective h in rw (← same) (omega arith)
length-skip_fraction (c ∷ cs) rest h = elim (Bool-cases (eqb c 46)) [
  | inl z ↦ omega (arith, length-some_digits cs rest (rw z at h))
  | inr z ↦ let same : (c ∷ cs) ≡ rest = ok-injective (rw z at h) in rw (← same) (omega arith)
]

pub length-eat_sign : (s : Bytes) → length (eat_sign s) ≤ length s
length-eat_sign [] = omega arith
length-eat_sign (c ∷ cs) = ground arith

length-eat : (b : ℕ) (s : Bytes) → length (eat b s) ≤ length s
length-eat b [] = omega arith
length-eat b (c ∷ cs) = ground arith

pub length-skip_exponent : (s rest : Bytes) → skip_exponent s ≡ ok rest → length rest ≤ length s
unfolding skip_exponent
length-skip_exponent [] rest h = let same : [] ≡ rest = ok-injective h in rw (← same) (omega arith)
length-skip_exponent (c ∷ cs) rest h = elim (Bool-cases (eqb c 101 || eqb c 69)) [
  | inl z ↦ omega (arith, length-some_digits (eat_sign cs) rest (rw z at h), length-eat_sign cs)
  | inr z ↦ let same : (c ∷ cs) ≡ rest = ok-injective (rw z at h) in rw (← same) (omega arith)
]

pub length-skip_number : (s rest : Bytes) → skip_number s ≡ ok rest → length rest < length s
unfolding skip_number
length-skip_number s rest h =
    let (b, two, three) =
      then_do-ok (then_do (skip_integer (eat 45 s)) skip_fraction) skip_exponent rest h in
    let (a, one, more) = then_do-ok (skip_integer (eat 45 s)) skip_fraction b two in
    omega (
      arith,
      length-eat 45 s,
      length-skip_integer (eat 45 s) a one,
      length-skip_fraction a b more,
      length-skip_exponent b rest three,
    )
