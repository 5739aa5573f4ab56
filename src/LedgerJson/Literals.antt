-- ===== src/LedgerJson/Literals.antt =====
-- String literals of ASCII characters, as RFC 8259 reads them: an independent reader.
use nopal.Prelude.{
  ℕ, zero, suc, ◌+◌, ◌-◌, ◌*◌, Bool, ◌&&◌, ◌||◌, Option, none, some, [], ◌∷◌, eqb, leb, ltb,
  if◌then◌else◌, is_empty,
}
use nopal.LedgerJson.Value.{Bytes, Chars}

-- A Unicode scalar value, which is what a `char` is.
abbrev pub is_scalar : ℕ → Bool
is_scalar c = ltb c 55296 || (ltb 57343 c && ltb c 1114112)

-- Where the reader is: between characters, after a backslash, at a digit of a unit (with the unit
-- before it if that is the first half of a pair, the number of digits left after this one, and the
-- value so far), or where the second half must follow.
pub data Place : Type 0 where
  plain : Place
  slash : Place
  digits : Option ℕ → ℕ → ℕ → Place
  second : ℕ → Place
  second_u : ℕ → Place

abbrev pub hex_value : ℕ → Option ℕ
hex_value c =
    if leb 48 c && leb c 57
    then some (c - 48)
    else if leb 97 c && leb c 102
    then some (c - 87)
    else if leb 65 c && leb c 70
    then some (c - 55)
    else none

-- The character that a short escape stands for.
abbrev pub short_escape : ℕ → Option ℕ
short_escape c =
    if eqb c 34 || eqb c 92 || eqb c 47
    then some c
    else if eqb c 98
    then some 8
    else if eqb c 102
    then some 12
    else if eqb c 110
    then some 10
    else if eqb c 114
    then some 13
    else if eqb c 116
    then some 9
    else none

abbrev pub prepend : ℕ → Option Chars → Option Chars
prepend c none = none
prepend c (some cs) = some (c ∷ cs)

-- What a whole unit means, if `read` reads the rest at a place: half of a pair alone is no character.
abbrev pub keep_char : ℕ → Option Chars → Option Chars
keep_char c rest = if is_scalar c then prepend c rest else none

abbrev pub unit_read : Option ℕ → ℕ → (Place → Option Chars) → Option Chars
unit_read none u read =
    if leb 55296 u && leb u 56319 then read (second u) else keep_char u (read plain)
unit_read (some high) u read =
    if leb 56320 u && leb u 57343
    then keep_char (65536 + (high - 55296) * 1024 + (u - 56320)) (read plain)
    else none

abbrev pub digit_read : Option ℕ → ℕ → ℕ → Option ℕ → (Place → Option Chars) → Option Chars
digit_read high left value none read = none
digit_read high zero value (some d) read = unit_read high (value * 16 + d) read
digit_read high (suc left) value (some d) read = read (digits high left (value * 16 + d))

abbrev pub slash_read : ℕ → Option ℕ → (Place → Option Chars) → Option Chars
slash_read c none read = if eqb c 117 then read (digits none 3 0) else none
slash_read c (some e) read = prepend e (read plain)

-- The characters of a literal after its opening quote.
unfoldable pub read_body : Place → Bytes → Option Chars
read_body place [] = none
read_body plain (c ∷ cs) =
    let end = if is_empty cs then some [] else none in
    let escaped = read_body slash cs in
    let further = prepend c (read_body plain cs) in
    if eqb c 34
    then end
    else if eqb c 92
    then escaped
    else if leb 32 c && ltb c 128
    then further
    else none
read_body slash (c ∷ cs) = slash_read c (short_escape c) (λ place. read_body place cs)
read_body (digits high left value) (c ∷ cs) =
    digit_read high left value (hex_value c) (λ place. read_body place cs)
read_body (second u) (c ∷ cs) =
    let rest = read_body (second_u u) cs in if eqb c 92 then rest else none
read_body (second_u u) (c ∷ cs) =
    let rest = read_body (digits (some u) 3 0) cs in if eqb c 117 then rest else none

unfoldable pub read_literal : Bytes → Option Chars
read_literal [] = none
read_literal (c ∷ cs) = let body = read_body plain cs in if eqb c 34 then body else none
