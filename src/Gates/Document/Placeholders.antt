-- ===== src/Gates/Document/Placeholders.antt =====
-- `check_placeholders` of gates.rs. The text is walked by its characters; what stands between an
-- open brace and the current character is passed along instead of the offset of the brace.
use Prim.Native.Char.{Char, code}
use Prim.Native.String.{◌++◌ as append_text}
use nopal.Prelude.{
  leb, eqb, not, ◌&&◌, ◌||◌, String, Bool, true, Option, none, some, List, [], ◌∷◌, ◌++◌,
  if◌then◌else◌, contains, concat,
}
use nopal.Json.{Json}
use nopal.Diagnostics.Codes.{placeholder_invalid, placeholder_unknown}
use nopal.Diagnostics.Report.{Diagnostic, error_diagnostic, warning_diagnostic}
use nopal.Gates.Document.Fields.{enum_names, is_non_empty}

abbrev pub known_placeholders : List String
known_placeholders = "changed_files" ∷ []

-- `b.is_ascii_lowercase() || b == b'_'`: no byte of a character beyond ASCII passes.
abbrev pub is_placeholder_char : Char → Bool
is_placeholder_char c = (leb 97 (code c) && leb (code c) 122) || eqb (code c) 95

unfoldable pub all_placeholder_chars : String → Bool
all_placeholder_chars String.[] = true
all_placeholder_chars (String.◌∷◌ c s) = is_placeholder_char c && all_placeholder_chars s

unfoldable pub is_placeholder_name : String → Bool
is_placeholder_name name = is_non_empty name && all_placeholder_chars name

abbrev pub is_open : Char → Bool
is_open c = eqb (code c) 123

abbrev pub is_close : Char → Bool
is_close c = eqb (code c) 125

module _ (json : Json) (text at path : String) where
  abbrev pub placeholder_error : List String → List Diagnostic
  placeholder_error message = error_diagnostic placeholder_invalid path (concat message) ∷ []

  -- What a closed pair of braces says about the name between them.
  unfoldable pub check_name : String → List Diagnostic
  check_name name =
      if not (is_placeholder_name name)
      then placeholder_error
          (at ∷ ": malformed placeholder {" ∷ name ∷ "} in " ∷ json.debug text ∷ [])
      else if not (contains known_placeholders name)
      then warning_diagnostic placeholder_unknown path (
          concat (
            at
            ∷ ": unknown placeholder {"
            ∷ name
            ∷ "}; expected one of "
            ∷ enum_names json known_placeholders
            ∷ []))
        ∷ []
      else []

  -- The loop, by the text between the open brace and here, if a brace is open.
  unfoldable pub scan_placeholders : Option String → String → List Diagnostic
  scan_placeholders none String.[] = []
  scan_placeholders (some name) String.[] =
      placeholder_error (at ∷ ": unmatched \"{\" in " ∷ json.debug text ∷ [])
  scan_placeholders none (String.◌∷◌ c rest) =
      let opened = scan_placeholders (some "") rest in
      let plain = scan_placeholders none rest in
      if is_open c
      then opened
      else if is_close c
      then placeholder_error (at ∷ ": unmatched \"}\" in " ∷ json.debug text ∷ [])
      else plain
  scan_placeholders (some name) (String.◌∷◌ c rest) =
      let closed = scan_placeholders none rest in
      let longer = scan_placeholders (some (append_text name (String.◌∷◌ c String.[]))) rest in
      if is_open c
      then placeholder_error
          (at ∷ ": nested \"{\" in " ∷ json.debug text ∷ "; placeholders are flat" ∷ [])
      else if is_close c
      then check_name name ++ closed
      else longer

unfoldable pub check_placeholders : Json → String → String → String → List Diagnostic
check_placeholders json path text at = scan_placeholders json text at path none text
