-- ===== src/Config/Trees.antt =====
-- Documents as the lenient parser accepts them: after each property and each element a comma may
-- stand or not.
use nopal.Prelude.{Bool, true, false, ◌&&◌, ◌||◌, List, ◌∷◌}
use nopal.Config.Commas.{
  Token, open_brace, close_brace, open_bracket, close_bracket, comma, colon, string, word, boolean,
  number, null,
}

pub data Scalar : Type 0 where
  a_string a_word a_boolean a_number a_null : Scalar

mutual
  pub data Document : Type 0 where
    scalar : Scalar → Document
    object : Properties → Document
    array : Elements → Document

  pub data Properties : Type 0 where
    no_property : Properties
    property : Scalar → Document → Bool → Properties → Properties

  pub data Elements : Type 0 where
    no_element : Elements
    element : Document → Bool → Elements → Elements

unfoldable pub scalar_token : Scalar → Token
scalar_token a_string = string
scalar_token a_word = word
scalar_token a_boolean = boolean
scalar_token a_number = number
scalar_token a_null = null

abbrev pub separator : Bool → List Token → List Token
separator true rest = comma ∷ rest
separator false rest = rest

-- The tokens of a document before others.
unfoldable mutual
  pub tokens : Document → List Token → List Token
  tokens (scalar s) rest = scalar_token s ∷ rest
  tokens (object ps) rest = open_brace ∷ property_tokens ps (close_brace ∷ rest)
  tokens (array es) rest = open_bracket ∷ element_tokens es (close_bracket ∷ rest)

  pub property_tokens : Properties → List Token → List Token
  property_tokens no_property rest = rest
  property_tokens (property key value sep more) rest =
      scalar_token key ∷ colon ∷ tokens value (separator sep (property_tokens more rest))

  pub element_tokens : Elements → List Token → List Token
  element_tokens no_element rest = rest
  element_tokens (element value sep more) rest =
      tokens value (separator sep (element_tokens more rest))

abbrev pub is_last_property : Properties → Bool
is_last_property no_property = true
is_last_property _ = false

abbrev pub is_last_element : Elements → Bool
is_last_element no_element = true
is_last_element _ = false

-- A comma follows every property and element but a last one, which may do without.
unfoldable mutual
  pub has_commas : Document → Bool
  has_commas (scalar s) = true
  has_commas (object ps) = property_commas ps
  has_commas (array es) = element_commas es

  pub property_commas : Properties → Bool
  property_commas no_property = true
  property_commas (property key value sep more) =
      has_commas value && ((sep || is_last_property more) && property_commas more)

  pub element_commas : Elements → Bool
  element_commas no_element = true
  element_commas (element value sep more) =
      has_commas value && ((sep || is_last_element more) && element_commas more)
