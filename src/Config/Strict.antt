-- ===== src/Config/Strict.antt =====
-- The check for commas refuses exactly the documents that lack one.
use nopal.Prelude.{
  ℕ, String, Bool, true, false, not, ◌||◌, ◌≡◌, refl, ◌∙◌, some, List, [], ◌∷◌, map, is_some, arith,
}
use nopal.Config.Commas.{
  Token, close_brace, close_bracket, comma, colon, Frame, obj_await_key, obj_await_colon,
  obj_await_value, obj_await_comma, arr_await_value, arr_await_comma, is_scalar, next, violation,
  await_any, await_key, await_colon, await_value, await_comma, await_element, await_separator, step,
  scan, strict_comma_violation,
}
use nopal.Config.Trees.{
  Scalar, a_string, Document, Properties, Elements, scalar, object, array, no_property, property,
  no_element, element, scalar_token, separator, tokens, property_tokens, element_tokens, has_commas,
  property_commas, element_commas,
}

-- The loop finds a violation, by the tokens alone.
unfoldable pub fails : List Frame → List Token → Bool
fails stack [] = false
fails stack (token ∷ rest) = elim (step stack token) [
  | next stack_after ↦ fails stack_after rest
  | violation message ↦ true
]

scan-fails :
    (stack : List Frame) (entries : List (Token × ℕ))
    → is_some (scan stack entries) ≡ fails stack (map (λ e. e.0) entries)
unfolding scan fails
scan-fails stack [] = refl
scan-fails stack ((token, start) ∷ rest) =
    elim (step stack token)
      as (λ s.
        is_some {A = ℕ × String}
          (elim s [ next after ↦ scan after rest | violation message ↦ some (start, message) ])
        ≡ (elim s [ next after ↦ fails after (map (λ e. e.0) rest) | violation message ↦ true ])) [
          | next after ↦ scan-fails after rest
          | violation message ↦ refl
        ]

-- Where a document may stand, with the stack after it.
pub data Awaits : List Frame → List Frame → Type 0 where
  in_object : (outer : List Frame) → Awaits (obj_await_value ∷ outer) (obj_await_comma ∷ outer)
  in_array : (outer : List Frame) → Awaits (arr_await_value ∷ outer) (arr_await_comma ∷ outer)
  at_top : Awaits [] []

abbrev Checks : Document → Type 0
Checks d =
    (before after : List Frame) (rest : List Token)
    → Awaits before after
    → fails before (tokens d rest) ≡ (not (has_commas d) || fails after rest)

abbrev ChecksProperties : Properties → Type 0
ChecksProperties ps =
    (outer : List Frame) (rest : List Token)
    → fails (obj_await_key ∷ outer) (property_tokens ps (close_brace ∷ rest))
      ≡ (not (property_commas ps) || fails outer rest)

abbrev ChecksElements : Elements → Type 0
ChecksElements es =
    (outer : List Frame) (rest : List Token)
    → fails (arr_await_value ∷ outer) (element_tokens es (close_bracket ∷ rest))
      ≡ (not (element_commas es) || fails outer rest)

scalar-Checks : (s : Scalar) → Checks (scalar s)
unfolding fails tokens scalar_token has_commas step await_any await_value await_element is_scalar
scalar-Checks s before after rest (in_object outer) =
    elim s
      as (λ s.
        fails (obj_await_value ∷ outer) (scalar_token s ∷ rest)
        ≡ fails (obj_await_comma ∷ outer) rest) [ a_string ↦ refl | _ ↦ refl ]
scalar-Checks s before after rest (in_array outer) =
    elim s
      as (λ s.
        fails (arr_await_value ∷ outer) (scalar_token s ∷ rest)
        ≡ fails (arr_await_comma ∷ outer) rest) [ a_string ↦ refl | _ ↦ refl ]
scalar-Checks s before after rest at_top =
    elim s as (λ s. fails [] (scalar_token s ∷ rest) ≡ fails [] rest) [ a_string ↦ refl | _ ↦ refl ]

object-Checks : (ps : Properties) → ChecksProperties ps → Checks (object ps)
unfolding fails tokens has_commas step await_any await_value await_element
object-Checks ps h before after rest (in_object outer) = h (obj_await_comma ∷ outer) rest
object-Checks ps h before after rest (in_array outer) = h (arr_await_comma ∷ outer) rest
object-Checks ps h before after rest at_top = h [] rest

array-Checks : (es : Elements) → ChecksElements es → Checks (array es)
unfolding fails tokens has_commas step await_any await_value await_element
array-Checks es h before after rest (in_object outer) = h (obj_await_comma ∷ outer) rest
array-Checks es h before after rest (in_array outer) = h (arr_await_comma ∷ outer) rest
array-Checks es h before after rest at_top = h [] rest

-- No document starts with a comma or a closing bracket.
fails-document :
    (d : Document) (outer : List Frame) (rest : List Token)
    → fails (arr_await_comma ∷ outer) (tokens d rest) ≡ true
unfolding fails tokens scalar_token step await_separator
fails-document (scalar s) outer rest =
    elim s as (λ s. fails (arr_await_comma ∷ outer) (scalar_token s ∷ rest) ≡ true) [
      | a_string ↦ refl
      | _ ↦ refl
    ]
fails-document (object ps) outer rest = refl
fails-document (array es) outer rest = refl

fails-key :
    (s : Scalar) (outer : List Frame) (rest : List Token)
    → fails (obj_await_comma ∷ outer) (scalar_token s ∷ rest) ≡ true
unfolding fails scalar_token step await_comma
fails-key s outer rest =
    elim s as (λ s. fails (obj_await_comma ∷ outer) (scalar_token s ∷ rest) ≡ true) [
      | a_string ↦ refl
      | _ ↦ refl
    ]

-- A key takes the stack to its colon.
fails-await_key :
    (s : Scalar) (outer : List Frame) (rest : List Token)
    → fails (obj_await_key ∷ outer) (scalar_token s ∷ rest) ≡ fails (obj_await_colon ∷ outer) rest
unfolding fails scalar_token step await_key is_scalar
fails-await_key s outer rest =
    elim s
      as (λ s.
        fails (obj_await_key ∷ outer) (scalar_token s ∷ rest)
        ≡ fails (obj_await_colon ∷ outer) rest) [ a_string ↦ refl | _ ↦ refl ]

element-Checks :
    (d : Document) (sep : Bool) (more : Elements)
    → Checks d
    → ChecksElements more
    → ChecksElements (element d sep more)
unfolding element_tokens element_commas fails step await_separator
element-Checks d true more one h outer rest =
    one _ _ (comma ∷ element_tokens more (close_bracket ∷ rest)) (in_array outer)
    ∙ ground (arith, h outer rest)
element-Checks d false no_element one h outer rest =
    one _ _ (close_bracket ∷ rest) (in_array outer) ∙ ground arith
element-Checks d false (element e sep more) one h outer rest =
    one _ _ (tokens e (separator sep (element_tokens more (close_bracket ∷ rest)))) (in_array outer)
    ∙ rw (fails-document e outer (separator sep (element_tokens more (close_bracket ∷ rest))))
        (ground arith)

property-Checks :
    (key : Scalar) (d : Document) (sep : Bool) (more : Properties)
    → Checks d
    → ChecksProperties more
    → ChecksProperties (property key d sep more)
unfolding property_tokens property_commas fails step await_comma await_colon
property-Checks key d true more one h outer rest =
    fails-await_key key outer
      (colon ∷ tokens d (separator true (property_tokens more (close_brace ∷ rest))))
    ∙ (one _ _ (comma ∷ property_tokens more (close_brace ∷ rest)) (in_object outer)
        ∙ ground (arith, h outer rest))
property-Checks key d false no_property one h outer rest =
    fails-await_key key outer (colon ∷ tokens d (close_brace ∷ rest))
    ∙ (one _ _ (close_brace ∷ rest) (in_object outer) ∙ ground arith)
property-Checks key d false (property k e sep more) one h outer rest =
    let later = colon ∷ tokens e (separator sep (property_tokens more (close_brace ∷ rest))) in
    fails-await_key key outer (colon ∷ tokens d (scalar_token k ∷ later))
    ∙ (one _ _ (scalar_token k ∷ later) (in_object outer)
        ∙ rw (fails-key k outer later) (ground arith))

document-Checks : (d : Document) → Checks d
unfolding property_tokens property_commas element_tokens element_commas fails step await_key
    await_element
document-Checks d = elim d as Checks ChecksProperties ChecksElements [
  | scalar s ↦ scalar-Checks s
  | object (ps → h) ↦ object-Checks ps h
  | array (es → h) ↦ array-Checks es h
  | no_property ↦ λ outer rest. refl
  | property k (d → one) sep (more → h) ↦ property-Checks k d sep more one h
  | no_element ↦ λ outer rest. refl
  | element (d → one) sep (more → h) ↦ element-Checks d sep more one h
]

-- On the tokens of a document that the lenient parser accepts, wherever they start, the check finds
-- a violation exactly if some property or element that is not the last has no comma after it.
pub strict_comma_violation-has_commas :
    (d : Document) (entries : List (Token × ℕ))
    → map (λ e. e.0) entries ≡ tokens d []
    → is_some (strict_comma_violation entries) ≡ not (has_commas d)
unfolding strict_comma_violation fails
strict_comma_violation-has_commas d entries h =
    scan-fails [] entries ∙ rw (h, document-Checks d [] [] [] at_top) (ground arith)
