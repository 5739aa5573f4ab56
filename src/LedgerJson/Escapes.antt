-- ===== src/LedgerJson/Escapes.antt =====
-- What the writer escapes, the independent reader of literals reads back.
use nopal.Prelude.{
  ℕ, ◌+◌, ◌-◌, ◌*◌, ◌/◌, ◌%◌, ◌<◌, ◌≡◌, refl, ◌∙◌, true, false, ◌&&◌, ◌||◌, inl, inr, Option, none,
  some, [], ◌∷◌, ◌++◌, eqb, leb, ltb, all, append_assoc, arith, Bool-cases,
}
use nopal.LedgerJson.Value.{Bytes, Chars}
use nopal.LedgerJson.Scan.{skip_string}
use nopal.LedgerJson.Writer.{
  hex_digit, hex4, escape_unit, escape_units, escape_char, escape, write_string,
}
use nopal.LedgerJson.Literals.{
  is_scalar, plain, digits, hex_value, short_escape, prepend, unit_read, read_body, read_literal,
}

hex_value-digit : (d : ℕ) → d < 16 → hex_value (hex_digit d) ≡ some d
hex_value-digit d h = ground arith

four_digits :
    (u : ℕ)
    → u < 65536
    → (((0 * 16 + u / 4096 % 16) * 16 + u / 256 % 16) * 16 + u / 16 % 16) * 16 + u % 16 ≡ u
four_digits u h = omega arith

-- Four digits read as the unit they spell.
read_body-hex4 :
    (high : Option ℕ) (u : ℕ) (t : Bytes)
    → u < 65536
    → read_body (digits high 3 0) (hex4 u ++ t) ≡ unit_read high u (λ place. read_body place t)
unfolding read_body
read_body-hex4 high u t h = rw (
  hex_value-digit (u / 4096 % 16) (omega arith),
  hex_value-digit (u / 256 % 16) (omega arith),
  hex_value-digit (u / 16 % 16) (omega arith),
  hex_value-digit (u % 16) (omega arith),
  four_digits u h,
)

-- The four forms that the writer gives a character.
escape_char-cases :
    (P : Bytes → Type 0) (c : ℕ)
    → ((x : ℕ) → short_escape x ≡ some c → P (92 ∷ x ∷ []))
    → (c < 65536 → P (escape_unit c))
    → (leb 32 c && ltb c 128 ≡ true → eqb c 34 ≡ false → eqb c 92 ≡ false → P (c ∷ []))
    → (ltb c 65536 ≡ false
        → P (escape_unit (55296 + (c - 65536) / 1024) ++ escape_unit (56320 + (c - 65536) % 1024)))
    → P (escape_char c)
unfolding escape_char escape_units
escape_char-cases P c short unit direct pair = elim (Bool-cases (eqb c 34)) [
  | inl e ↦ rw e (short 34 (ground (arith, e)))
  | inr quote ↦ elim (Bool-cases (eqb c 92)) [
    | inl e ↦ rw (quote, e) (short 92 (ground (arith, e)))
    | inr backslash ↦ elim (Bool-cases (eqb c 10)) [
      | inl e ↦ rw (quote, backslash, e) (short 110 (ground (arith, e)))
      | inr n ↦ elim (Bool-cases (eqb c 13)) [
        | inl e ↦ rw (quote, backslash, n, e) (short 114 (ground (arith, e)))
        | inr r ↦ elim (Bool-cases (eqb c 9)) [
          | inl e ↦ rw (quote, backslash, n, r, e) (short 116 (ground (arith, e)))
          | inr t ↦ elim (Bool-cases (eqb c 8)) [
            | inl e ↦ rw (quote, backslash, n, r, t, e) (short 98 (ground (arith, e)))
            | inr b ↦ elim (Bool-cases (eqb c 12)) [
              | inl e ↦ rw (quote, backslash, n, r, t, b, e) (short 102 (ground (arith, e)))
              | inr f ↦ elim (Bool-cases (ltb c 32 || eqb c 127)) [
                | inl e ↦ rw (quote, backslash, n, r, t, b, f, e) (unit (ground (arith, e)))
                | inr control ↦ elim (Bool-cases (ltb c 128)) [
                  | inl e ↦
                      rw (quote, backslash, n, r, t, b, f, control, e)
                        (direct (ground (arith, control, e)) quote backslash)
                  | inr high ↦ elim (Bool-cases (ltb c 65536)) [
                    | inl e ↦
                        rw (quote, backslash, n, r, t, b, f, control, high, e)
                          (unit (ground (arith, e)))
                    | inr e ↦ rw (quote, backslash, n, r, t, b, f, control, high, e) (pair e)
                  ]
                ]
              ]
            ]
          ]
        ]
      ]
    ]
  ]
]

hex_digit-plain : (d : ℕ) → d < 16 → (eqb (hex_digit d) 92 ≡ false) × (eqb (hex_digit d) 34 ≡ false)
hex_digit-plain d h = (ground arith, ground arith)

skip_string-unit :
    (u : ℕ) (t : Bytes) → skip_string false (escape_unit u ++ t) ≡ skip_string false t
unfolding skip_string
skip_string-unit u t = rw (
  (hex_digit-plain (u / 4096 % 16) (omega arith)).0,
  (hex_digit-plain (u / 4096 % 16) (omega arith)).1,
  (hex_digit-plain (u / 256 % 16) (omega arith)).0,
  (hex_digit-plain (u / 256 % 16) (omega arith)).1,
  (hex_digit-plain (u / 16 % 16) (omega arith)).0,
  (hex_digit-plain (u / 16 % 16) (omega arith)).1,
  (hex_digit-plain (u % 16) (omega arith)).0,
  (hex_digit-plain (u % 16) (omega arith)).1,
)

-- The scan for the closing quote runs over what stands for a character, and over all of them.
skip_string-char :
    (c : ℕ) (t : Bytes) → skip_string false (escape_char c ++ t) ≡ skip_string false t
unfolding skip_string
skip_string-char c t =
    escape_char-cases (λ b. skip_string false (b ++ t) ≡ skip_string false t) c (λ x e. refl)
      (λ h. skip_string-unit c t) (λ printable quote backslash. rw (backslash, quote))
      (λ h.
        skip_string-unit (55296 + (c - 65536) / 1024)
          (escape_unit (56320 + (c - 65536) % 1024) ++ t)
        ∙ skip_string-unit (56320 + (c - 65536) % 1024) t)

pub skip_string-escape : (s : Chars) (t : Bytes) → skip_string false (escape s ++ 34 ∷ t) ≡ some t
unfolding skip_string escape
skip_string-escape [] t = refl
skip_string-escape (c ∷ cs) t =
    rw (append_assoc (escape_char c) (escape cs) (34 ∷ t), skip_string-char c (escape cs ++ 34 ∷ t))
      (skip_string-escape cs t)

read_body-unit :
    (c : ℕ) (t : Bytes)
    → is_scalar c ≡ true
    → c < 65536
    → read_body plain (escape_unit c ++ t) ≡ prepend c (read_body plain t)
unfolding read_body
read_body-unit c t h small =
    let low : (leb 55296 c && leb c 56319) ≡ false = ground (arith, h) in
    rw (read_body-hex4 none c t small, low, h)

-- A pair is read back: the halves are in their ranges and give the character.
read_body-pair :
    (c : ℕ) (t : Bytes)
    → is_scalar c ≡ true
    → ltb c 65536 ≡ false
    → read_body plain (
        (escape_unit (55296 + (c - 65536) / 1024) ++ escape_unit (56320 + (c - 65536) % 1024)) ++ t)
      ≡ prepend c (read_body plain t)
unfolding read_body
read_body-pair c t h big =
    let u = 55296 + (c - 65536) / 1024 in
    let v = 56320 + (c - 65536) % 1024 in
    let bounds : (65535 < c) × (c < 1114112) = (ground (arith, big), ground (arith, h, big)) in
    let first : (leb 55296 u && leb u 56319) ≡ true = ground (arith, bounds.0, bounds.1) in
    let next : (leb 56320 v && leb v 57343) ≡ true = ground (arith, bounds.0) in
    let whole : 65536 + (u - 55296) * 1024 + (v - 56320) ≡ c = omega (arith, bounds.0) in
    rw (
      read_body-hex4 none u (escape_unit v ++ t) (omega (arith, bounds.1)),
      first,
      read_body-hex4 (some u) v t (omega arith),
      next,
      whole,
      h,
    )

read_body-char :
    (c : ℕ) (t : Bytes)
    → is_scalar c ≡ true
    → read_body plain (escape_char c ++ t) ≡ prepend c (read_body plain t)
unfolding read_body
read_body-char c t h =
    escape_char-cases (λ b. read_body plain (b ++ t) ≡ prepend c (read_body plain t)) c
      (λ x e. rw e) (read_body-unit c t h)
      (λ printable quote backslash. rw (quote, backslash, printable)) (read_body-pair c t h)

read_body-escape :
    (s : Chars) → all is_scalar s ≡ true → read_body plain (escape s ++ 34 ∷ []) ≡ some s
unfolding all escape
read_body-escape [] h = unfold read_body in refl
read_body-escape (c ∷ cs) h =
    let one : is_scalar c ≡ true = ground (arith, h) in
    let rest : all is_scalar cs ≡ true = ground (arith, h) in
    rw (
      append_assoc (escape_char c) (escape cs) (34 ∷ []),
      read_body-char c (escape cs ++ 34 ∷ []) one,
      read_body-escape cs rest,
    )

-- The literal that the writer gives for a text reads as that text.
pub read_literal-write_string :
    (s : Chars) → all is_scalar s ≡ true → read_literal (write_string s) ≡ some s
unfolding read_literal write_string
read_literal-write_string s h = read_body-escape s h
