-- ===== src/LedgerJson/Writer.antt =====
-- The writer of ledger documents in crates/nopal-core/src/run_ledger.rs (`json_line`,
-- `json_pretty`). Its output is ASCII, so that its characters are its bytes.
use nopal.Prelude.{
  ℕ, zero, suc, ◌+◌, ◌-◌, ◌*◌, ◌/◌, ◌%◌, Bool, true, false, ◌||◌, Option, none, some, List, [], ◌∷◌,
  ◌++◌, map, eqb, ltb, if◌then◌else◌,
}
use nopal.LedgerJson.Value.{
  Bytes, Chars, Value, Items, Fields, null, bool, number, string, array, object, no_item, item,
  no_field, field, chars_lt,
}

-- A lower-case hexadecimal digit, and the four of `{:04x}`.
abbrev pub hex_digit : ℕ → ℕ
hex_digit d = if ltb d 10 then 48 + d else 87 + d

abbrev pub hex4 : ℕ → Bytes
hex4 u =
    hex_digit (u / 4096 % 16)
    ∷ hex_digit (u / 256 % 16)
    ∷ hex_digit (u / 16 % 16)
    ∷ hex_digit (u % 16)
    ∷ []

-- `\u` and the digits of a unit
abbrev pub escape_unit : ℕ → Bytes
escape_unit u = 92 ∷ 117 ∷ hex4 u

-- `char::encode_utf16`, each unit escaped
unfoldable pub escape_units : ℕ → Bytes
escape_units c =
    if ltb c 65536
    then escape_unit c
    else escape_unit (55296 + (c - 65536) / 1024) ++ escape_unit (56320 + (c - 65536) % 1024)

unfoldable pub escape_char : ℕ → Bytes
escape_char c =
    if eqb c 34
    then 92 ∷ 34 ∷ []
    else if eqb c 92
    then 92 ∷ 92 ∷ []
    else if eqb c 10
    then 92 ∷ 110 ∷ []
    else if eqb c 13
    then 92 ∷ 114 ∷ []
    else if eqb c 9
    then 92 ∷ 116 ∷ []
    else if eqb c 8
    then 92 ∷ 98 ∷ []
    else if eqb c 12
    then 92 ∷ 102 ∷ []
    else if ltb c 32 || eqb c 127
    then escape_unit c
    else if ltb c 128
    then c ∷ []
    else escape_units c

unfoldable pub escape : Chars → Bytes
escape [] = []
escape (c ∷ cs) = escape_char c ++ escape cs

unfoldable pub write_string : Chars → Bytes
write_string s = 34 ∷ (escape s ++ 34 ∷ [])

-- `" ".repeat(n)`
abbrev pub spaces : ℕ → Bytes
spaces zero = []
spaces (suc n) = 32 ∷ spaces n

-- What stands before an item, between two items and after the last one.
unfoldable pub lead : Option ℕ → ℕ → Bool → Bytes
lead (some width) level first = 10 ∷ spaces (width * (level + 1))
lead none level true = []
lead none level false = 32 ∷ []

abbrev pub separator : List Bytes → Bytes
separator [] = []
separator (x ∷ xs) = 44 ∷ []

unfoldable pub trail : Option ℕ → ℕ → Bytes
trail (some width) level = 10 ∷ spaces (width * level)
trail none level = []

-- The loop of `write_seq`, over the written items.
unfoldable pub write_rest : Option ℕ → ℕ → Bool → List Bytes → Bytes
write_rest indent level first [] = trail indent level
write_rest indent level first (x ∷ xs) =
    lead indent level first ++ (x ++ (separator xs ++ write_rest indent level false xs))

unfoldable pub write_seq : Option ℕ → ℕ → ℕ → ℕ → List Bytes → Bytes
write_seq indent level left right [] = left ∷ right ∷ []
write_seq indent level left right (x ∷ xs) =
    left ∷ (write_rest indent level true (x ∷ xs) ++ right ∷ [])

-- `entries.sort_by_key`, a stable insertion sort
unfoldable pub insert_entry : Chars × Bytes → List (Chars × Bytes) → List (Chars × Bytes)
insert_entry e [] = e ∷ []
insert_entry (k, b) ((j, c) ∷ rest) =
    let later = insert_entry (k, b) rest in
    if chars_lt j k then (j, c) ∷ later else (k, b) ∷ (j, c) ∷ rest

unfoldable pub sort_entries : List (Chars × Bytes) → List (Chars × Bytes)
sort_entries [] = []
sort_entries (e ∷ rest) = insert_entry e (sort_entries rest)

-- A key with its written value.
unfoldable pub write_entry : Chars × Bytes → Bytes
write_entry (key, written) = write_string key ++ 58 ∷ 32 ∷ written

unfoldable mutual
  pub write_value : Option ℕ → ℕ → Value → Bytes
  write_value indent level null = 110 ∷ 117 ∷ 108 ∷ 108 ∷ []
  write_value indent level (bool true) = 116 ∷ 114 ∷ 117 ∷ 101 ∷ []
  write_value indent level (bool false) = 102 ∷ 97 ∷ 108 ∷ 115 ∷ 101 ∷ []
  write_value indent level (number n) = n
  write_value indent level (string s) = write_string s
  write_value indent level (array items) =
      write_seq indent level 91 93 (write_items indent (suc level) items)
  write_value indent level (object fields) =
      write_seq indent level 123 125
        (map write_entry (sort_entries (write_fields indent (suc level) fields)))

  pub write_items : Option ℕ → ℕ → Items → List Bytes
  write_items indent level no_item = []
  write_items indent level (item v rest) =
      write_value indent level v ∷ write_items indent level rest

  pub write_fields : Option ℕ → ℕ → Fields → List (Chars × Bytes)
  write_fields indent level no_field = []
  write_fields indent level (field k v rest) =
      (k, write_value indent level v) ∷ write_fields indent level rest

unfoldable pub json_line : Value → Bytes
json_line value = write_value none 0 value

unfoldable pub json_pretty : Value → Bytes
json_pretty value = write_value (some 2) 0 value
