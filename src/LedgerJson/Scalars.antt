-- ===== src/LedgerJson/Scalars.antt =====
-- The reader of string literals gives Unicode scalar values.
use nopal.Prelude.{
  ℕ, zero, suc, ◌+◌, ◌-◌, ◌*◌, ◌≡◌, refl, true, ◌&&◌, inl, inr, Option, none, some, [], ◌∷◌, eqb,
  leb, ltb, is_empty, all, arith, Bool-cases, Option-cases,
}
use nopal.LedgerJson.Value.{Bytes, Chars}
use nopal.LedgerJson.Literals.{
  is_scalar, Place, plain, slash, digits, second, second_u, hex_value, short_escape, prepend,
  keep_char, unit_read, digit_read, slash_read, read_body, read_literal,
}

-- The text, if there is one, is one of scalar values.
abbrev HoldsScalars : Option Chars → Type 0
HoldsScalars none = Unit
HoldsScalars (some t) = all is_scalar t ≡ true

prepend-HoldsScalars :
    (c : ℕ) (o : Option Chars) → is_scalar c ≡ true → HoldsScalars o → HoldsScalars (prepend c o)
unfolding all
prepend-HoldsScalars c none h k = tt
prepend-HoldsScalars c (some t) h k = rw h k

keep_char-HoldsScalars : (c : ℕ) (o : Option Chars) → HoldsScalars o → HoldsScalars (keep_char c o)
keep_char-HoldsScalars c o k = elim (Bool-cases (is_scalar c)) [
  | inl e ↦ rw e (prepend-HoldsScalars c o e k)
  | inr e ↦ rw e tt
]

unit_read-HoldsScalars :
    (high : Option ℕ) (u : ℕ) (read : Place → Option Chars)
    → ((place : Place) → HoldsScalars (read place))
    → HoldsScalars (unit_read high u read)
unit_read-HoldsScalars none u read h = elim (Bool-cases (leb 55296 u && leb u 56319)) [
  | inl e ↦ rw e (h (second u))
  | inr e ↦ rw e (keep_char-HoldsScalars u (read plain) (h plain))
]
unit_read-HoldsScalars (some v) u read h = elim (Bool-cases (leb 56320 u && leb u 57343)) [
  | inl e ↦
      rw e
        (keep_char-HoldsScalars (65536 + (v - 55296) * 1024 + (u - 56320)) (read plain) (h plain))
  | inr e ↦ rw e tt
]

digit_read-HoldsScalars :
    (high : Option ℕ) (left value : ℕ) (d : Option ℕ) (read : Place → Option Chars)
    → ((place : Place) → HoldsScalars (read place))
    → HoldsScalars (digit_read high left value d read)
digit_read-HoldsScalars high left value none read h = tt
digit_read-HoldsScalars high zero value (some d) read h = unit_read-HoldsScalars high _ read h
digit_read-HoldsScalars high (suc left) value (some d) read h = h (digits high left _)

short_escape-scalar : (c e : ℕ) → short_escape c ≡ some e → is_scalar e ≡ true
short_escape-scalar c e h = ground arith

slash_read-HoldsScalars :
    (c : ℕ) (read : Place → Option Chars)
    → ((place : Place) → HoldsScalars (read place))
    → HoldsScalars (slash_read c (short_escape c) read)
slash_read-HoldsScalars c read h = elim (Option-cases (short_escape c)) [
  | inl e ↦ elim (Bool-cases (eqb c 117)) [
    | inl f ↦ rw (e, f) (h (digits none 3 0))
    | inr f ↦ rw (e, f) tt
  ]
  | inr (x, e) ↦ rw e (prepend-HoldsScalars x (read plain) (short_escape-scalar c x e) (h plain))
]

read_body-HoldsScalars : (s : Bytes) (place : Place) → HoldsScalars (read_body place s)
unfolding read_body
read_body-HoldsScalars [] place = tt
read_body-HoldsScalars (c ∷ cs) plain = elim (Bool-cases (eqb c 34)) [
  | inl q ↦ elim (Bool-cases (is_empty cs)) [
    | inl e ↦ rw (q, e) (unfold all in refl)
    | inr e ↦ rw (q, e) tt
  ]
  | inr q ↦ elim (Bool-cases (eqb c 92)) [
    | inl b ↦ rw (q, b) (read_body-HoldsScalars cs slash)
    | inr b ↦ elim (Bool-cases (leb 32 c && ltb c 128)) [
      | inl e ↦
          let scalar : is_scalar c ≡ true = ground (arith, e) in
          rw (q, b, e)
            (prepend-HoldsScalars c (read_body plain cs) scalar (read_body-HoldsScalars cs plain))
      | inr e ↦ rw (q, b, e) tt
    ]
  ]
]
read_body-HoldsScalars (c ∷ cs) slash =
    slash_read-HoldsScalars c (λ place. read_body place cs) (λ p. read_body-HoldsScalars cs p)
read_body-HoldsScalars (c ∷ cs) (digits high left value) =
    digit_read-HoldsScalars high left value (hex_value c) (λ place. read_body place cs)
      (λ p. read_body-HoldsScalars cs p)
read_body-HoldsScalars (c ∷ cs) (second u) = elim (Bool-cases (eqb c 92)) [
  | inl e ↦ rw e (read_body-HoldsScalars cs (second_u u))
  | inr e ↦ rw e tt
]
read_body-HoldsScalars (c ∷ cs) (second_u u) = elim (Bool-cases (eqb c 117)) [
  | inl e ↦ rw e (read_body-HoldsScalars cs (digits (some u) 3 0))
  | inr e ↦ rw e tt
]

-- A literal is read as scalar values.
pub read_literal-is_scalar :
    (s : Bytes) (t : Chars) → read_literal s ≡ some t → all is_scalar t ≡ true
unfolding read_literal
read_literal-is_scalar [] t h = absurd (cc h)
read_literal-is_scalar (c ∷ cs) t h = elim (Bool-cases (eqb c 34)) [
  | inl e ↦
      let read : read_body plain cs ≡ some t = rw e at h in
      let holds = read_body-HoldsScalars cs plain in rw read at holds
  | inr e ↦ absurd (cc (rw e at h))
]
