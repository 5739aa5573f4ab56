-- ===== src/Json.antt =====
-- The serde_json crate and the formatting of Rust, as the validators of crates/nopal-core use them.
use nopal.Prelude.{ℕ, String, Bool, Option, none, some, List, is_some}
pub mod Tree

-- The types `Value` and `Map` with the methods of these names, and how `{value}`, `{text:?}` and
-- `{index}` are printed; `{value:?}` is `debug_value`.
pub record Json : Type 1 where
  pub Value : Type 0
  pub Object : Type 0
  pub as_bool : Value → Option Bool
  pub as_str : Value → Option String
  pub as_object : Value → Option Object
  pub as_array : Value → Option (List Value)
  pub get : Object → String → Option Value
  pub keys : Object → List String
  pub entries : Object → List (String × Value)
  pub display : Value → String
  pub debug : String → String
  pub debug_value : Value → String
  pub decimal : ℕ → String

-- `Map::contains_key`
abbrev pub contains_key : (json : Json) → json.Object → String → Bool
contains_key json object key = is_some (json.get object key)

-- `Option::and_then`
abbrev pub and_then {ℓ κ} : {A : Type ℓ} {B : Type κ} → Option A → (A → Option B) → Option B
and_then none f = none
and_then (some a) f = f a

-- `Value::get`: no value but an object has fields.
abbrev pub get_field : (json : Json) → json.Value → String → Option json.Value
get_field json value key = and_then (json.as_object value) (λ object. json.get object key)
