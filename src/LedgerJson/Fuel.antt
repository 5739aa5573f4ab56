-- ===== src/LedgerJson/Fuel.antt =====
-- The parser consumes what it reads, and its fuel is enough for any text.
use nopal.Prelude.{
  ℕ, zero, suc, ◌+◌, ◌*◌, ◌≤◌, ◌<◌, ◌≡◌, ◌≢◌, true, false, inl, inr, Option, [], ◌∷◌, length, arith,
  Option-cases,
}
use nopal.LedgerJson.Value.{Bytes, Chars, Value, Fields, null, bool, no_field, insert_field}
use nopal.LedgerJson.Scan.{Outcome, ok, error, out_of_fuel, starts, bump, ws, slice, skip_string}
use nopal.LedgerJson.Parser.{
  starts_number, parse_string, value_at, parse_value, parse_items, parse_fields, finish, from_str,
}
use nopal.LedgerJson.Lengths.{length-ws, length-bump, length-starts, length-skip_string}
use nopal.LedgerJson.Settles.{
  Settles, if-holds, then_do-Settles, literal-Settles, Returns, then_do-Returns,
  parse_number-Settles, array_at-Settles, object_at-Settles, more_items-Settles,
  more_fields-Settles,
}

module _ (decode : Bytes → Option Chars) where
  parse_string-Settles :
      (n : ℕ) (E : Type 0) (s : Bytes) → length s ≤ n → Settles n E (parse_string decode s)
  unfolding parse_string
  parse_string-Settles n E s h = elim (Option-cases (skip_string false (bump s))) [
    | inl e ↦ let same : parse_string decode s ≡ error = rw (parse_string, e) in rw same tt
    | inr (rest, e) ↦ elim (Option-cases (decode (slice s rest))) [
      | inl d ↦ let same : parse_string decode s ≡ error = rw (parse_string, e, d) in rw same tt
      | inr (t, d) ↦
          let same : parse_string decode s ≡ ok (t, rest) = rw (parse_string, e, d) in
          rw same (omega (arith, length-skip_string false (bump s) rest e, length-bump s))
    ]
  ]

  -- With this fuel a value, the items and the entries of a text are read or refused.
  abbrev SettlesAt : ℕ → Type 0
  SettlesAt fuel =
      ((s : Bytes) → Settles (length s) (fuel < 2 * length s + 1) (parse_value decode fuel s))
      × ((s : Bytes) → Settles (length s) (fuel < 2 * length s + 2) (parse_items decode fuel s))
      × ((m : Fields) (s : Bytes)
          → Settles (length s) (fuel < 2 * length s + 2) (parse_fields decode fuel m s))

  parse_value-step :
      (fuel : ℕ)
      → SettlesAt fuel
      → (s : Bytes)
      → Settles (length s) (suc fuel < 2 * length s + 1) (parse_value decode (suc fuel) s)
  unfolding parse_value
  parse_value-step fuel h s =
      let n = length s in
      let E = suc fuel < 2 * length s + 1 in
      let here = ws s in
      let P = Settles {A = Value} n E in
      if-holds P (starts 110 here) _ _ (λ e. literal-Settles n E 110 _ null here (length-ws s))
        (λ e.
          if-holds P (starts 116 here) _ _
            (λ e. literal-Settles n E 116 _ (bool true) here (length-ws s))
            (λ e.
              if-holds P (starts 102 here) _ _
                (λ e. literal-Settles n E 102 _ (bool false) here (length-ws s))
                (λ e.
                  if-holds P (starts 34 here) _ _
                    (λ e.
                      then_do-Settles n n E E (parse_string decode here) _
                        (parse_string-Settles n E here (length-ws s)) (λ x. x)
                        (λ a rest less. less))
                    (λ e.
                      if-holds P (starts 91 here) _ _
                        (λ e.
                          array_at-Settles (λ r. parse_items decode fuel r) n
                            (fuel < 2 * length (ws (bump here)) + 2) E (ws (bump here))
                            (omega
                              (arith, length-ws s, length-ws (bump here), length-starts 91 here e))
                            (h.1 (ws (bump here)))
                            (λ x.
                              omega (
                                arith,
                                length-ws s,
                                length-ws (bump here),
                                length-starts 91 here e,
                              )))
                        (λ e.
                          if-holds P (starts 123 here) _ _
                            (λ e.
                              object_at-Settles (λ r. parse_fields decode fuel no_field r) n
                                (fuel < 2 * length (ws (bump here)) + 2) E (ws (bump here))
                                (omega (
                                  arith,
                                  length-ws s,
                                  length-ws (bump here),
                                  length-starts 123 here e,
                                ))
                                (h.2 no_field (ws (bump here)))
                                (λ x. omega (
                                  arith,
                                  length-ws s,
                                  length-ws (bump here),
                                  length-starts 123 here e,
                                )))
                            (λ e.
                              if-holds P (starts_number here) _ _
                                (λ e. parse_number-Settles n E here (length-ws s)) (λ e. tt)))))))

  parse_items-step :
      (fuel : ℕ)
      → SettlesAt fuel
      → (s : Bytes)
      → Settles (length s) (suc fuel < 2 * length s + 2) (parse_items decode (suc fuel) s)
  unfolding parse_items
  parse_items-step fuel h s =
      let n = length s in
      then_do-Settles n n (fuel < 2 * n + 1) (suc fuel < 2 * n + 2) (parse_value decode fuel s) _
        (h.0 s) (λ x. omega arith)
        (λ v rest less.
          more_items-Settles (λ r. parse_items decode fuel r) v n
            (fuel < 2 * length (bump (ws rest)) + 2) (suc fuel < 2 * n + 2) (ws rest)
            (omega (arith, length-ws rest)) (h.1 (bump (ws rest)))
            (λ comma x. omega (arith, length-ws rest, length-starts 44 (ws rest) comma)))

  -- More bytes and a weaker condition.
  weaken {ℓ} :
      {A : Type ℓ} (n k : ℕ) (E F : Type 0) (m : Outcome (A × Bytes))
      → Settles n E m
      → n ≤ k
      → (E → F)
      → Settles k F m
  weaken n k E F (ok (a, rest)) h small e = omega arith
  weaken n k E F error h small e = tt
  weaken n k E F out_of_fuel h small e = e h

  value_at-Settles :
      (fuel : ℕ)
      → SettlesAt fuel
      → (n : ℕ) (m : Fields) (key : Chars) (after : Bytes) → length after < n
      → Settles n (suc fuel < 2 * n + 2) (
          value_at
            (λ r. parse_value decode fuel r)
            (λ k r. parse_fields decode fuel k r)
            m
            (key, after))
  unfolding value_at
  value_at-Settles fuel h n m key after small =
      let colon = ws after in
      let F = suc fuel < 2 * n + 2 in
      if-holds (Settles {A = Fields} n F) (starts 58 colon) _ _
        (λ e.
          then_do-Settles (length (bump colon)) n (fuel < 2 * length (bump colon) + 1) F
            (parse_value decode fuel (bump colon)) _ (h.0 (bump colon))
            (λ x. omega (arith, length-ws after, length-starts 58 colon e))
            (λ v rest less.
              more_fields-Settles (λ k r. parse_fields decode fuel k r) (insert_field key v m) n F
                (ws rest) (omega (arith, length-ws rest, length-ws after, length-starts 58 colon e))
                (λ comma.
                  weaken (length (bump (ws rest))) n (fuel < 2 * length (bump (ws rest)) + 2) F
                    (parse_fields decode fuel (insert_field key v m) (bump (ws rest)))
                    (h.2 (insert_field key v m) (bump (ws rest)))
                    (omega (
                      arith,
                      length-ws rest,
                      length-ws after,
                      length-starts 58 colon e,
                      length-starts 44 (ws rest) comma,
                    ))
                    (λ x. omega (
                      arith,
                      length-ws rest,
                      length-ws after,
                      length-starts 58 colon e,
                      length-starts 44 (ws rest) comma,
                    )))))
        (λ e. tt)

  parse_fields-step :
      (fuel : ℕ)
      → SettlesAt fuel
      → (m : Fields) (s : Bytes)
      → Settles (length s) (suc fuel < 2 * length s + 2) (parse_fields decode (suc fuel) m s)
  unfolding parse_fields
  parse_fields-step fuel h m s =
      let n = length s in
      let F = suc fuel < 2 * n + 2 in
      if-holds (Settles {A = Fields} n F) (starts 34 (ws s)) _ _
        (λ e.
          then_do-Settles n n F F (parse_string decode (ws s)) _
            (parse_string-Settles n F (ws s) (length-ws s)) (λ x. x)
            (λ key after less. value_at-Settles fuel h n m key after less))
        (λ e. tt)

  parser-SettlesAt : (fuel : ℕ) → SettlesAt fuel
  unfolding parse_value parse_items parse_fields
  parser-SettlesAt zero = ((λ s. omega arith), (λ s. omega arith), (λ m s. omega arith))
  parser-SettlesAt (suc fuel) =
      let h = parser-SettlesAt fuel in
      (
        (λ s. parse_value-step fuel h s),
        (λ s. parse_items-step fuel h s),
        (λ m s. parse_fields-step fuel h m s),
      )

  finish-Returns : (p : Value × Bytes) → Returns (finish p)
  unfolding finish
  finish-Returns (v, rest) =
      elim (ws rest) as (λ r. Returns {A = Value} (elim r [ [] ↦ ok v | c ∷ cs ↦ error ])) [
        | [] ↦ tt
        | c ∷ cs ↦ tt
      ]

  settled-Returns : (n : ℕ) (m : Outcome (Value × Bytes)) → Settles n ⊥ m → Returns m
  settled-Returns n (ok (a, rest)) h = tt
  settled-Returns n error h = tt
  settled-Returns n out_of_fuel h = h

  from_str-Returns : (s : Bytes) → Returns (from_str decode s)
  unfolding from_str
  from_str-Returns s =
      let fuel = 2 * length s + 2 in
      let settled = (parser-SettlesAt fuel).0 s in
      then_do-Returns (parse_value decode fuel s) finish
        (settled-Returns (length s) (parse_value decode fuel s) (
          weaken (length s) (length s) (fuel < 2 * length s + 1) ⊥ (parse_value decode fuel s)
            settled (omega arith) (λ x. absurd (omega arith))))
        finish-Returns

  -- Whatever the bytes are and whatever string literals decode to, the fuel that `from_str` gives is
  -- enough: the text is read or refused.
  pub from_str_total : (s : Bytes) → from_str decode s ≢ out_of_fuel
  from_str_total s e = let returns = from_str-Returns s in rw e at returns
