-- ===== src/LedgerJson/Samples.antt =====
-- Runs of the ledger's JSON reader and writer, and the theorems on them.
use nopal.Prelude.{◌≡◌, ◌≢◌, refl, none, some, [], ◌∷◌, all}
use nopal.LedgerJson.Value.{
  Bytes, Value, null, number, string, array, object, no_item, item, no_field, field, chars_lt,
  chars_eq, insert_field,
}
use nopal.LedgerJson.Scan.{
  ok, error, out_of_fuel, ws, strip, skip_digits, some_digits, skip_integer, skip_fraction,
  skip_exponent, skip_number, skip_string,
}
use nopal.LedgerJson.Parser.{
  literal, parse_number, parse_string, array_at, object_at, more_items, more_fields, value_at,
  parse_value, parse_items, parse_fields, finish, from_str,
}
use nopal.LedgerJson.Literals.{read_body, read_literal}
use nopal.LedgerJson.Order.{is_above, ascends}
use nopal.LedgerJson.Layout.{IsWritable, AreWritable, HasWritable}
use nopal.LedgerJson.Writer.{
  escape_units, escape_char, escape, write_string, lead, trail, write_rest, write_seq, insert_entry,
  sort_entries, write_entry, write_value, write_items, write_fields, json_line, json_pretty,
}
use nopal.LedgerJson.RoundTrip.{from_str-write_value}
use nopal.LedgerJson.Fuel.{from_str_total}
use nopal.LedgerJson.Scalars.{read_literal-is_scalar}
use nopal.LedgerJson.Stable.{from_str_stable}

-- {"a": [null, -1.5e3, "\n\u00e9\ud83d\ude00"], "ab": {}}
abbrev sample : Value
sample = object (
    field (97 ∷ [])
      (array (
        item null (
          item (number (45 ∷ 49 ∷ 46 ∷ 53 ∷ 101 ∷ 51 ∷ []))
            (item (string (10 ∷ 233 ∷ 128512 ∷ [])) no_item))))
      (field (97 ∷ 98 ∷ []) (object no_field) no_field))

program : Unit {0}
unfolding chars_lt chars_eq insert_field ws strip skip_digits some_digits skip_integer skip_fraction
    skip_exponent skip_number skip_string literal parse_number parse_string array_at object_at
    more_items more_fields value_at parse_value parse_items parse_fields finish from_str read_body
    read_literal is_above ascends IsWritable AreWritable HasWritable escape_units escape_char escape
    write_string lead trail write_rest write_seq insert_entry sort_entries write_entry write_value
    write_items write_fields json_line json_pretty all
program = tt

sample-IsWritable : IsWritable sample
unfolding program
sample-IsWritable = (refl, ((refl, (tt, (refl, (refl, tt))), (refl, (refl, tt), tt))))

-- {"b": 1, "a": 2, "b": 3} keeps the last value of a key, in the order of the keys.
abbrev repeated : Bytes
repeated =
    123 ∷ 34 ∷ 98 ∷ 34 ∷ 58 ∷ 32 ∷ 49 ∷ 44 ∷ 34 ∷ 97 ∷ 34 ∷ 58 ∷ 50 ∷ 44 ∷ 34 ∷ 98 ∷ 34 ∷ 58 ∷ 51
    ∷ 125 ∷ 10 ∷ []

from_str-repeated :
    from_str read_literal repeated
    ≡ ok (object (field (97 ∷ []) (number (50 ∷ [])) (field (98 ∷ []) (number (51 ∷ [])) no_field)))
unfolding program
from_str-repeated = refl

-- Trailing commas and leading zeros are refused.
from_str-comma : from_str read_literal (91 ∷ 49 ∷ 44 ∷ 93 ∷ []) ≡ error
unfolding program
from_str-comma = refl

from_str-zero : from_str read_literal (48 ∷ 49 ∷ []) ≡ error
unfolding program
from_str-zero = refl

json_line-escape :
    json_line (string (10 ∷ 233 ∷ [])) ≡ 34 ∷ 92 ∷ 110 ∷ 92 ∷ 117 ∷ 48 ∷ 48 ∷ 101 ∷ 57 ∷ 34 ∷ []
unfolding program
json_line-escape = refl

from_str-write_value_example : from_str read_literal (write_value (some 2) 0 sample) ≡ ok sample
from_str-write_value_example =
    from_str-write_value read_literal (λ s t e. e) (some 2) sample 0 sample-IsWritable

from_str_total_example : from_str read_literal (91 ∷ 123 ∷ 91 ∷ []) ≢ out_of_fuel
from_str_total_example = from_str_total read_literal (91 ∷ 123 ∷ 91 ∷ [])

from_str_stable_example :
    from_str read_literal (
      write_value none 0
        (object (field (97 ∷ []) (number (50 ∷ [])) (field (98 ∷ []) (number (51 ∷ [])) no_field))))
    ≡ ok (object (field (97 ∷ []) (number (50 ∷ [])) (field (98 ∷ []) (number (51 ∷ [])) no_field)))
from_str_stable_example =
    from_str_stable read_literal read_literal-is_scalar (λ s t e. e) none 0 repeated
      (object (field (97 ∷ []) (number (50 ∷ [])) (field (98 ∷ []) (number (51 ∷ [])) no_field)))
      from_str-repeated
