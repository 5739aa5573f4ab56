-- ===== src/Ledger/Slugs.antt =====
-- What `slug` makes of a text is a valid identifier, and a slug is left as it is.
use nopal.Prelude.{
  ℕ, Bool, true, false, not, ◌&&◌, ◌≡◌, refl, ap, Option, List, [], ◌∷◌, arith, is_empty, all,
  Bool-cases, inl, inr,
}
use nopal.Ledger.Names.{
  codes, is_ascii_alphanumeric, is_mark, is_name_char, slug_chars, trim_start, trim_end, slug,
  normalize_flow, identifier_valid, unwrap_or, or_else, non_empty,
}

dash_name : is_name_char 45 ≡ true
unfolding is_ascii_alphanumeric is_mark
dash_name = refl

slug_chars-names : (in_run : Bool) (cs : List ℕ) → all is_name_char (slug_chars in_run cs) ≡ true
unfolding all slug_chars
slug_chars-names in_run [] = refl
slug_chars-names in_run (c ∷ cs) =
    ground (arith, slug_chars-names false cs, slug_chars-names true cs, dash_name)

trim_start-names :
    (cs : List ℕ) → all is_name_char cs ≡ true → all is_name_char (trim_start cs) ≡ true
unfolding all trim_start
trim_start-names [] h = h
trim_start-names (c ∷ cs) h = ground (arith, h, trim_start-names cs)

trim_end-names : (cs : List ℕ) → all is_name_char cs ≡ true → all is_name_char (trim_end cs) ≡ true
unfolding all trim_end
trim_end-names [] h = h
trim_end-names (c ∷ cs) h = ground (arith, h, trim_end-names cs)

-- The first character is no mark.
abbrev starts_well : List ℕ → Bool
starts_well [] = true
starts_well (c ∷ cs) = not (is_mark c)

trim_start-starts_well : (cs : List ℕ) → starts_well (trim_start cs) ≡ true
unfolding trim_start
trim_start-starts_well [] = refl
trim_start-starts_well (c ∷ cs) = elim (Bool-cases (is_mark c)) [
  | inl e ↦ rw e (trim_start-starts_well cs)
  | inr e ↦ rw (e, trim_start) (ap not e)
]

trim_end-starts_well : (cs : List ℕ) → starts_well cs ≡ true → starts_well (trim_end cs) ≡ true
unfolding trim_end
trim_end-starts_well [] h = h
trim_end-starts_well (c ∷ cs) h = elim (Bool-cases (is_empty (trim_end cs) && is_mark c)) [
  | inl e ↦ rw e refl
  | inr e ↦ rw e h
]

valid_of_names :
    (cs : List ℕ)
    → is_empty cs ≡ false
    → all is_name_char cs ≡ true
    → starts_well cs ≡ true
    → identifier_valid cs ≡ true
unfolding identifier_valid all
valid_of_names [] e names start = cc
valid_of_names (c ∷ cs) e names start = ground (arith, names, start)

-- If the fallback is a valid identifier, then so is every slug.
pub slug-identifier_valid :
    (value fallback : List ℕ)
    → identifier_valid fallback ≡ true
    → identifier_valid (slug value fallback) ≡ true
unfolding slug
slug-identifier_valid value fallback h =
    let out = slug_chars false value in
    let trimmed = trim_end (trim_start out) in
    elim (Bool-cases (is_empty trimmed)) [
      | inl e ↦ rw e h
      | inr e ↦ rw e (
          valid_of_names trimmed e
            (trim_end-names (trim_start out) (trim_start-names out (slug_chars-names false value)))
            (trim_end-starts_well (trim_start out) (trim_start-starts_well out)))
    ]

run_valid : identifier_valid (codes "run") ≡ true
unfolding identifier_valid all is_ascii_alphanumeric is_mark
run_valid = refl

-- Every flow name is a valid identifier, whatever the flow and the skill are.
pub normalize_flow-identifier_valid :
    (flow skill : Option (List ℕ)) → identifier_valid (normalize_flow flow skill) ≡ true
unfolding normalize_flow
normalize_flow-identifier_valid flow skill =
    slug-identifier_valid (unwrap_or (or_else (non_empty flow) (non_empty skill)) (codes "run"))
      (codes "run") run_valid

-- The last character is no mark.
abbrev ends_well : List ℕ → Bool
ends_well [] = true
ends_well (c ∷ []) = not (is_mark c)
ends_well (c ∷ d ∷ cs) = ends_well (d ∷ cs)

trim_end-fixed : (cs : List ℕ) → ends_well cs ≡ true → trim_end cs ≡ cs
unfolding trim_end
trim_end-fixed [] h = refl
trim_end-fixed (c ∷ []) h = ground (arith, h)
trim_end-fixed (c ∷ d ∷ cs) h = rw (trim_end-fixed (d ∷ cs) h) refl

slug_chars-fixed :
    (in_run : Bool) (cs : List ℕ) → all is_name_char cs ≡ true → slug_chars in_run cs ≡ cs
unfolding slug_chars all
slug_chars-fixed in_run [] h = refl
slug_chars-fixed in_run (c ∷ cs) h = ground (arith, h, slug_chars-fixed false cs)

ends_well-cons :
    (c : ℕ) (cs : List ℕ)
    → (is_empty cs && is_mark c) ≡ false
    → ends_well cs ≡ true
    → ends_well (c ∷ cs) ≡ true
ends_well-cons c [] e h = ground (arith, e)
ends_well-cons c (d ∷ cs) e h = h

trim_end-ends_well : (cs : List ℕ) → ends_well (trim_end cs) ≡ true
unfolding trim_end
trim_end-ends_well [] = refl
trim_end-ends_well (c ∷ cs) = elim (Bool-cases (is_empty (trim_end cs) && is_mark c)) [
  | inl e ↦ rw e refl
  | inr e ↦ rw e (ends_well-cons c (trim_end cs) e (trim_end-ends_well cs))
]

trim_start-fixed : (cs : List ℕ) → starts_well cs ≡ true → trim_start cs ≡ cs
unfolding trim_start
trim_start-fixed [] h = refl
trim_start-fixed (c ∷ cs) h = ground (arith, h)

-- A text that is all name characters, and neither starts nor ends with a mark, is its own slug.
slug-fixed :
    (value fallback : List ℕ)
    → is_empty value ≡ false
    → all is_name_char value ≡ true
    → starts_well value ≡ true
    → ends_well value ≡ true
    → slug value fallback ≡ value
unfolding slug
slug-fixed value fallback e names start end =
    rw
      (
        slug_chars-fixed false value names,
        trim_start-fixed value start,
        trim_end-fixed value end,
        e,
      )
      refl

slug-empty :
    (value fallback : List ℕ)
    → is_empty (trim_end (trim_start (slug_chars false value))) ≡ true
    → slug value fallback ≡ fallback
unfolding slug
slug-empty value fallback e = rw e refl

slug-trimmed :
    (value fallback : List ℕ)
    → is_empty (trim_end (trim_start (slug_chars false value))) ≡ false
    → slug value fallback ≡ trim_end (trim_start (slug_chars false value))
unfolding slug
slug-trimmed value fallback e = rw e refl

-- To slug a text again changes nothing, if the fallback is its own slug.
pub slug_idem :
    (value fallback : List ℕ)
    → slug fallback fallback ≡ fallback
    → slug (slug value fallback) fallback ≡ slug value fallback
slug_idem value fallback h =
    let out = slug_chars false value in
    let trimmed = trim_end (trim_start out) in
    elim (Bool-cases (is_empty trimmed)) [
      | inl e ↦ rw (slug-empty value fallback e) h
      | inr e ↦ rw (slug-trimmed value fallback e) (
          slug-fixed trimmed fallback e
            (trim_end-names (trim_start out) (trim_start-names out (slug_chars-names false value)))
            (trim_end-starts_well (trim_start out) (trim_start-starts_well out))
            (trim_end-ends_well (trim_start out)))
    ]
