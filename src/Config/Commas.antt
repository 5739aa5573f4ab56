-- ===== src/Config/Commas.antt =====
-- `strict_comma_violation` of config.rs: the check that siblings are separated by commas, over the
-- tokens that the jsonc_parser crate collects.
use nopal.Prelude.{ℕ, String, Bool, true, false, Option, none, some, List, [], ◌∷◌, if◌then◌else◌}

-- The kinds of tokens; what a token carries is not looked at.
pub data Token : Type 0 where
  open_brace close_brace open_bracket close_bracket comma colon : Token
  string word boolean number null : Token
  comment_line comment_block : Token

pub data Frame : Type 0 where
  obj_await_key obj_await_colon obj_await_value obj_await_comma : Frame
  arr_await_value arr_await_comma : Frame

unfoldable pub is_scalar : Token → Bool
is_scalar string = true
is_scalar word = true
is_scalar boolean = true
is_scalar number = true
is_scalar null = true
is_scalar _ = false

-- What one token does: the new stack, its last frame first, or a message.
pub data Step : Type 0 where
  next : List Frame → Step
  violation : String → Step

abbrev pub missing_property : String
missing_property = "missing comma between object properties"

abbrev pub missing_element : String
missing_element = "missing comma between array elements"

unfoldable pub await_any : Token → List Frame
await_any open_brace = obj_await_key ∷ []
await_any open_bracket = arr_await_value ∷ []
await_any _ = []

unfoldable pub await_key : List Frame → Token → List Frame
await_key outer close_brace = outer
await_key outer token = if is_scalar token then obj_await_colon ∷ outer else obj_await_key ∷ outer

unfoldable pub await_colon : List Frame → Token → List Frame
await_colon outer colon = obj_await_value ∷ outer
await_colon outer token = obj_await_colon ∷ outer

unfoldable pub await_value : List Frame → Token → List Frame
await_value outer open_brace = obj_await_key ∷ obj_await_comma ∷ outer
await_value outer open_bracket = arr_await_value ∷ obj_await_comma ∷ outer
await_value outer token =
    if is_scalar token then obj_await_comma ∷ outer else obj_await_value ∷ outer

unfoldable pub await_comma : List Frame → Token → Step
await_comma outer comma = next (obj_await_key ∷ outer)
await_comma outer close_brace = next outer
await_comma outer token = violation missing_property

unfoldable pub await_element : List Frame → Token → List Frame
await_element outer close_bracket = outer
await_element outer open_brace = obj_await_key ∷ arr_await_comma ∷ outer
await_element outer open_bracket = arr_await_value ∷ arr_await_comma ∷ outer
await_element outer token =
    if is_scalar token then arr_await_comma ∷ outer else arr_await_value ∷ outer

unfoldable pub await_separator : List Frame → Token → Step
await_separator outer comma = next (arr_await_value ∷ outer)
await_separator outer close_bracket = next outer
await_separator outer token = violation missing_element

unfoldable pub step : List Frame → Token → Step
step [] token = next (await_any token)
step (obj_await_key ∷ outer) token = next (await_key outer token)
step (obj_await_colon ∷ outer) token = next (await_colon outer token)
step (obj_await_value ∷ outer) token = next (await_value outer token)
step (obj_await_comma ∷ outer) token = await_comma outer token
step (arr_await_value ∷ outer) token = next (await_element outer token)
step (arr_await_comma ∷ outer) token = await_separator outer token

-- The loop, over the tokens with the offsets where they start.
unfoldable pub scan : List Frame → List (Token × ℕ) → Option (ℕ × String)
scan stack [] = none
scan stack ((token, start) ∷ rest) = elim (step stack token) [
  | next stack_after ↦ scan stack_after rest
  | violation message ↦ some (start, message)
]

unfoldable pub strict_comma_violation : List (Token × ℕ) → Option (ℕ × String)
strict_comma_violation tokens = scan [] tokens
