-- ===== src/LedgerJson/Cut.antt =====
-- The lexeme of a number, cut out of its text, scans as a number by itself.
use nopal.Prelude.{
  ℕ, ◌≤◌, ◌<◌, ◌≡◌, refl, sym, ap, ◌∙◌, true, ◌&&◌, ◌||◌, inl, inr, [], ◌∷◌, ◌++◌, append_assoc,
  eqb, leb, arith, length, length-append, Bool-cases,
}
use nopal.LedgerJson.Value.{Bytes}
use nopal.LedgerJson.Scan.{
  ok, then_do, eat, eat_sign, slice, is_digit, starts_digit, skip_digits, some_digits, skip_integer,
  skip_fraction, skip_exponent, skip_number,
}
use nopal.LedgerJson.Lexemes.{then_do-ok, ok-injective, slice-append}
use nopal.LedgerJson.Lengths.{
  length-skip_digits, length-eat_sign, length-skip_integer, length-skip_fraction,
  length-skip_exponent, length-skip_number,
}

append-cancel : (a b r : Bytes) → a ++ r ≡ b ++ r → a ≡ b
append-cancel a b r h = sym (slice-append a r) ∙ (ap (λ s. slice s r) h ∙ slice-append b r)

-- Nothing but the empty text is not longer than nothing.
no_longer : (y r s : Bytes) → s ≡ y ++ r → length s ≤ length r → y ≡ []
no_longer [] r s h k = refl
no_longer (c ∷ cs) r s h k = absurd (omega (arith, ap length h, length-append (c ∷ cs) r, k))

-- The rest is an end of the text.
abbrev Ends : Bytes → Bytes → Type 0
Ends r s = (w : Bytes) × (s ≡ w ++ r)

Ends-cons : (c : ℕ) (s r : Bytes) → Ends r s → Ends r (c ∷ s)
Ends-cons c s r (w, e) = (c ∷ w, ap (λ t. c ∷ t) e)

Ends-trans : (r t s : Bytes) → Ends r t → Ends t s → Ends r s
Ends-trans r t s (v, e) (w, f) = (w ++ v, f ∙ (ap (λ x. w ++ x) e ∙ sym (append_assoc w v r)))

skip_digits-Ends : (s : Bytes) → Ends (skip_digits s) s
unfolding skip_digits
skip_digits-Ends [] = ([], refl)
skip_digits-Ends (c ∷ cs) = elim (Bool-cases (is_digit c)) [
  | inl e ↦ rw e (Ends-cons c cs (skip_digits cs) (skip_digits-Ends cs))
  | inr e ↦ rw e ([], refl)
]

some_digits-is :
    (s r : Bytes) → some_digits s ≡ ok r → (starts_digit s ≡ true) × (skip_digits s ≡ r)
unfolding some_digits
some_digits-is s r h = elim (Bool-cases (starts_digit s)) [
  | inl e ↦ (e, ok-injective (rw e at h))
  | inr e ↦ absurd (cc (rw e at h))
]

some_digits-Ends : (s r : Bytes) → some_digits s ≡ ok r → Ends r s
some_digits-Ends s r h = let (e, f) = some_digits-is s r h in rw (← f) (skip_digits-Ends s)

some_digits-less : (s r : Bytes) → some_digits s ≡ ok r → length r < length s
some_digits-less [] r h = let (e, f) = some_digits-is [] r h in absurd (cc e)
some_digits-less (c ∷ cs) r h =
    let (e, f) = some_digits-is (c ∷ cs) r h in
    let one : skip_digits (c ∷ cs) ≡ skip_digits cs = unfold skip_digits in rw e in
    omega (arith, length-skip_digits cs, ap length (sym one ∙ f))

eat_sign-Ends : (s : Bytes) → Ends (eat_sign s) s
eat_sign-Ends [] = ([], refl)
eat_sign-Ends (c ∷ cs) = elim (Bool-cases (eqb c 43 || eqb c 45)) [
  | inl e ↦ rw e (c ∷ [], refl)
  | inr e ↦ rw e ([], refl)
]

eat-Ends : (s : Bytes) → Ends (eat 45 s) s
eat-Ends [] = ([], refl)
eat-Ends (c ∷ cs) = elim (Bool-cases (eqb c 45)) [
  | inl e ↦ rw e (c ∷ [], refl)
  | inr e ↦ rw e ([], refl)
]

skip_integer-Ends : (s r : Bytes) → skip_integer s ≡ ok r → Ends r s
unfolding skip_integer
skip_integer-Ends [] r h = absurd (cc h)
skip_integer-Ends (c ∷ cs) r h = elim (Bool-cases (eqb c 48)) [
  | inl z ↦ (c ∷ [], ap (λ t. c ∷ t) (ok-injective (rw z at h)))
  | inr z ↦ elim (Bool-cases (leb 49 c && leb c 57)) [
    | inl d ↦
        let same : skip_digits cs ≡ r = ok-injective (rw (z, d) at h) in
        rw (← same) (Ends-cons c cs (skip_digits cs) (skip_digits-Ends cs))
    | inr d ↦ absurd (cc (rw (z, d) at h))
  ]
]

skip_fraction-Ends : (s r : Bytes) → skip_fraction s ≡ ok r → Ends r s
unfolding skip_fraction
skip_fraction-Ends [] r h = ([], ok-injective h)
skip_fraction-Ends (c ∷ cs) r h = elim (Bool-cases (eqb c 46)) [
  | inl z ↦ Ends-cons c cs r (some_digits-Ends cs r (rw z at h))
  | inr z ↦ ([], ok-injective (rw z at h))
]

skip_exponent-Ends : (s r : Bytes) → skip_exponent s ≡ ok r → Ends r s
unfolding skip_exponent
skip_exponent-Ends [] r h = ([], ok-injective h)
skip_exponent-Ends (c ∷ cs) r h = elim (Bool-cases (eqb c 101 || eqb c 69)) [
  | inl z ↦ Ends-cons c cs r (
      Ends-trans r (eat_sign cs) cs (some_digits-Ends (eat_sign cs) r (rw z at h))
        (eat_sign-Ends cs))
  | inr z ↦ ([], ok-injective (rw z at h))
]

-- Each scanner does the same on the text without what follows the number.
skip_digits-cut : (x y r : Bytes) → skip_digits (x ++ r) ≡ y ++ r → skip_digits x ≡ y
unfolding skip_digits
skip_digits-cut [] y r h = sym (no_longer y r (skip_digits r) h (length-skip_digits r))
skip_digits-cut (c ∷ cs) y r h = elim (Bool-cases (is_digit c)) [
  | inl e ↦ rw e (skip_digits-cut cs y r (rw e at h))
  | inr e ↦ rw e (append-cancel (c ∷ cs) y r (rw e at h))
]

some_digits-cut : (x y r : Bytes) → some_digits (x ++ r) ≡ ok (y ++ r) → some_digits x ≡ ok y
some_digits-cut [] y r h = absurd (omega (arith, some_digits-less r (y ++ r) h, length-append y r))
some_digits-cut (c ∷ cs) y r h =
    let (e, f) = some_digits-is ((c ∷ cs) ++ r) (y ++ r) h in
    let cut = skip_digits-cut (c ∷ cs) y r f in unfold some_digits in rw (e, cut)

skip_integer-cut : (x y r : Bytes) → skip_integer (x ++ r) ≡ ok (y ++ r) → skip_integer x ≡ ok y
unfolding skip_integer
skip_integer-cut [] y r h =
    absurd (omega (arith, length-skip_integer r (y ++ r) h, length-append y r))
skip_integer-cut (c ∷ cs) y r h = elim (Bool-cases (eqb c 48)) [
  | inl z ↦ rw (z, append-cancel cs y r (ok-injective (rw z at h)))
  | inr z ↦ elim (Bool-cases (leb 49 c && leb c 57)) [
    | inl d ↦ rw (z, d, skip_digits-cut cs y r (ok-injective (rw (z, d) at h)))
    | inr d ↦ absurd (cc (rw (z, d) at h))
  ]
]

skip_fraction-cut : (x y r : Bytes) → skip_fraction (x ++ r) ≡ ok (y ++ r) → skip_fraction x ≡ ok y
unfolding skip_fraction
skip_fraction-cut [] y r h =
    let short = length-skip_fraction r (y ++ r) h in rw (no_longer y r (y ++ r) refl short)
skip_fraction-cut (c ∷ cs) y r h = elim (Bool-cases (eqb c 46)) [
  | inl z ↦ rw z (some_digits-cut cs y r (rw z at h))
  | inr z ↦ rw (z, append-cancel (c ∷ cs) y r (ok-injective (rw z at h)))
]

eat_sign-cut : (c : ℕ) (cs r : Bytes) → eat_sign ((c ∷ cs) ++ r) ≡ eat_sign (c ∷ cs) ++ r
eat_sign-cut c cs r = elim (Bool-cases (eqb c 43 || eqb c 45)) [ inl e ↦ rw e | inr e ↦ rw e ]

skip_exponent-cut : (x y r : Bytes) → skip_exponent (x ++ r) ≡ ok (y ++ r) → skip_exponent x ≡ ok y
unfolding skip_exponent
skip_exponent-cut [] y r h =
    let short = length-skip_exponent r (y ++ r) h in rw (no_longer y r (y ++ r) refl short)
skip_exponent-cut (c ∷ []) y r h = elim (Bool-cases (eqb c 101 || eqb c 69)) [
  | inl z ↦ absurd (
      omega (
        arith,
        some_digits-less (eat_sign r) (y ++ r) (rw z at h),
        length-eat_sign r,
        length-append y r,
      ))
  | inr z ↦ rw (z, append-cancel (c ∷ []) y r (ok-injective (rw z at h)))
]
skip_exponent-cut (c ∷ d ∷ ds) y r h = elim (Bool-cases (eqb c 101 || eqb c 69)) [
  | inl z ↦ rw z (some_digits-cut (eat_sign (d ∷ ds)) y r (rw (z, eat_sign-cut d ds r) at h))
  | inr z ↦ rw (z, append-cancel (c ∷ d ∷ ds) y r (ok-injective (rw z at h)))
]

eat-cut : (c : ℕ) (cs r : Bytes) → eat 45 ((c ∷ cs) ++ r) ≡ eat 45 (c ∷ cs) ++ r
eat-cut c cs r = elim (Bool-cases (eqb c 45)) [ inl e ↦ rw e | inr e ↦ rw e ]

skip_number-cut : (x r : Bytes) → skip_number (x ++ r) ≡ ok r → skip_number x ≡ ok []
skip_number-cut [] r h = absurd (omega (arith, length-skip_number r r h))
skip_number-cut (c ∷ cs) r h =
    let whole = eat 45 ((c ∷ cs) ++ r) in
    let (b, two, three) =
      then_do-ok (then_do (skip_integer whole) skip_fraction) skip_exponent r
        (unfold skip_number in h) in
    let (a, one, more) = then_do-ok (skip_integer whole) skip_fraction b two in
    let (w, e) = skip_exponent-Ends b r three in
    let (v, f) = Ends-trans r b a (w, e) (skip_fraction-Ends a b more) in
    let first = skip_integer-cut (eat 45 (c ∷ cs)) v r (rw (eat-cut c cs r, f) at one) in
    let second = skip_fraction-cut v w r (rw (f, e) at more) in
    let third = skip_exponent-cut w [] r (rw e at three) in
    unfold skip_number in rw (first, second, third)

-- The lexeme of a number that was scanned scans by itself, to its end.
pub skip_number-slice : (s r : Bytes) → skip_number s ≡ ok r → skip_number (slice s r) ≡ ok []
skip_number-slice s r h =
    let (b, two, three) =
      then_do-ok (then_do (skip_integer (eat 45 s)) skip_fraction) skip_exponent r
        (unfold skip_number in h) in
    let (a, one, more) = then_do-ok (skip_integer (eat 45 s)) skip_fraction b two in
    let below = Ends-trans r b a (skip_exponent-Ends b r three) (skip_fraction-Ends a b more) in
    let (x, e) =
      Ends-trans r (eat 45 s) s
        (Ends-trans r a (eat 45 s) below (skip_integer-Ends (eat 45 s) a one)) (eat-Ends s) in
    rw (e, slice-append x r) (skip_number-cut x r (rw e at h))
