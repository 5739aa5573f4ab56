-- ===== src/Enforcement/Receipts.antt =====
-- Receipts and approvals: their paths, their signatures, and whether one that is read is current
-- (enforcement.rs). A JSON text is the list of its characters.
use Prim.Native.Char.{Char, code}
use Prim.Native.Nat.{◌^◌}
use nopal.Prelude.{
  suc, ◌+◌, ◌-◌, ◌*◌, ◌/◌, ◌%◌, leb, ltb, not, ℕ, String, Bool, true, false, ◌&&◌, ◌||◌, Option,
  none, some, List, [], ◌∷◌, ◌++◌, eqb, if◌then◌else◌, is_some_and, concat,
}
use nopal.Json.{and_then}
use nopal.Ledger.Names.{codes, is_ascii_alphanumeric}
use nopal.LedgerJson.Value.{
  Bytes, Value, bool, number, Fields, no_field, insert_field, chars_eq, get_value, value_str,
}
use nopal.Selection.Types.{SelectedGate}
use nopal.Enforcement.Required.{gate_semantics}
use nopal.Enforcement.World.{Hashing, World, encode, as_bytes, digest_bytes, join_path}
use nopal.Enforcement.Signature.{ReceiptSignatureSubject, receipt_signature, constant_time_eq}

-- A document that is written: `json!` of an object.
abbrev pub json_object : List (String × Value) → Fields
json_object [] = no_field
json_object ((key, value) ∷ rest) = insert_field (codes key) value (json_object rest)

-- `as_i64`: an optional sign and digits, within the range of an `i64`, as a sign and a magnitude.
unfoldable pub digits_value : ℕ → Bytes → Option ℕ
digits_value n [] = some n
digits_value n (c ∷ cs) =
    let rest = digits_value (n * 10 + (c - 48)) cs in if leb 48 c && leb c 57 then rest else none

abbrev pub magnitude : Bytes → Option ℕ
magnitude [] = none
magnitude (c ∷ cs) = digits_value 0 (c ∷ cs)

abbrev pub signed : Bool → Option ℕ → Option (Bool × ℕ)
signed negative none = none
signed negative (some n) =
    if leb n (if negative then 2 ^ 63 else 2 ^ 63 - 1)
    then some (negative && not (eqb n 0), n)
    else none

unfoldable pub parse_i64 : Bytes → Option (Bool × ℕ)
parse_i64 [] = none
parse_i64 (c ∷ cs) =
    if eqb c 45
    then signed true (magnitude cs)
    else if eqb c 43
    then signed false (magnitude cs)
    else signed false (magnitude (c ∷ cs))

unfoldable pub as_i64 : Value → Option (Bool × ℕ)
as_i64 (number n) = parse_i64 n
as_i64 _ = none

-- `i32::to_string` of a bit pattern.
unfoldable pub decimal : ℕ → ℕ → Bytes
decimal ℕ.zero n = []
decimal (suc width) n =
    let rest = decimal width (n / 10) in
    if ltb n 10 then (48 + n) ∷ [] else rest ++ (48 + n % 10) ∷ []

unfoldable pub exit_code_text : ℕ → Bytes
exit_code_text code = if ltb code (2 ^ 31) then decimal 10 code else 45 ∷ decimal 10 (2 ^ 32 - code)

-- The tests of a field that `receipt.get(..)` gives.
unfoldable pub field_is_text : Value → String → String → Bool
field_is_text receipt key text =
    is_some_and (and_then (get_value receipt (codes key)) value_str) (λ s. chars_eq s (codes text))

unfoldable pub field_is_true : Value → String → Bool
field_is_true receipt key =
    is_some_and (get_value receipt (codes key)) (λ v. elim v [ bool b ↦ b | _ ↦ false ])

unfoldable pub field_is_zero : Value → String → Bool
field_is_zero receipt key =
    is_some_and (and_then (get_value receipt (codes key)) as_i64) (λ n. not n.0 && eqb n.1 0)

unfoldable pub field_is_signed : Value → String → Bool
field_is_signed receipt expected =
    is_some_and (and_then (get_value receipt (codes "signature")) value_str)
      (λ actual. constant_time_eq (encode actual) (as_bytes expected))

abbrev pub enforcement_path : String → String → String
enforcement_path folder name =
    concat ("artifacts/enforcement/" ∷ folder ∷ "/" ∷ name ∷ ".json" ∷ [])

unfoldable pub approval_relative_path : String → String
approval_relative_path binding = enforcement_path "approvals" binding

abbrev pub safe_char : Char → Char
safe_char c =
    if is_ascii_alphanumeric (code c) || eqb (code c) 45 || eqb (code c) 95 then c else "-"

unfoldable pub safe_id : String → String
safe_id String.[] = ""
safe_id (String.◌∷◌ c s) = String.◌∷◌ (safe_char c) (safe_id s)

unfoldable pub strip_prefix : String → String → Option String
strip_prefix String.[] text = some text
strip_prefix (String.◌∷◌ c prefix) String.[] = none
strip_prefix (String.◌∷◌ c prefix) (String.◌∷◌ d text) =
    let rest = strip_prefix prefix text in if eqb (code c) (code d) then rest else none

-- `Option::unwrap_or`
abbrev pub unwrap_text : Option String → String → String
unwrap_text none other = other
unwrap_text (some text) other = text

module _ (hashing : Hashing) where
  unfoldable pub receipt_relative_path : String → String → String
  receipt_relative_path gate_id binding =
      let identity = digest_bytes hashing (as_bytes gate_id ++ 0 ∷ as_bytes binding) in
      enforcement_path "receipts" (
        concat
          (safe_id gate_id ∷ "/" ∷ unwrap_text (strip_prefix "sha256:" identity) identity ∷ []))

  unfoldable pub gate_digest : SelectedGate → String
  gate_digest gate = digest_bytes hashing (hashing.semantics_json (gate_semantics gate))

  unfoldable pub approval_signature : Bytes → String → String → Bool → String
  approval_signature key action binding approved = receipt_signature hashing key (record {
    action = action;
    contract_digest = "approval";
    workspace_fingerprint = if approved then "approved" else "denied";
    authorization_binding = binding;
    gate_id = "human-approval";
    gate_definition_digest = binding;
    exit_code = if approved then 1 else 0;
  })

  unfoldable pub release_signature : Bytes → String → String → String → String
  release_signature key action binding tool_call_id = receipt_signature hashing key (record {
    action = action;
    contract_digest = "authorization-release";
    workspace_fingerprint = tool_call_id;
    authorization_binding = binding;
    gate_id = "tool-release";
    gate_definition_digest = binding;
    exit_code = 0;
  })

  -- The tests of a receipt, and of an approval, that has been read.
  unfoldable pub receipt_holds : Bytes → ReceiptSignatureSubject → Value → Bool
  receipt_holds key subject receipt =
      field_is_text receipt "action" subject.action
      && field_is_zero receipt "exit_code"
      && field_is_text receipt "contract_digest" subject.contract_digest
      && field_is_text receipt "workspace_fingerprint" subject.workspace_fingerprint
      && field_is_text receipt "gate_definition_digest" subject.gate_definition_digest
      && field_is_text receipt "authorization_binding" subject.authorization_binding
      && field_is_signed receipt (receipt_signature hashing key subject)

  unfoldable pub approval_holds : Bytes → String → String → Value → Bool
  approval_holds key action binding receipt =
      field_is_text receipt "action" action
      && field_is_true receipt "approved"
      && field_is_text receipt "authorization_binding" binding
      && field_is_signed receipt (approval_signature key action binding true)

  module _ (world : World) (run_dir action : String) where
    unfoldable pub receipt_is_current : SelectedGate → String → String → String → Bytes → Bool
    receipt_is_current gate contract_digest fingerprint binding key =
        is_some_and (world.read_json (join_path run_dir (receipt_relative_path gate.id binding))) (
          receipt_holds key (record {
            action = action;
            contract_digest = contract_digest;
            workspace_fingerprint = fingerprint;
            authorization_binding = binding;
            gate_id = gate.id;
            gate_definition_digest = gate_digest gate;
            exit_code = 0;
          }))

    unfoldable pub approval_is_current : String → Bytes → Bool
    approval_is_current binding key =
        is_some_and (world.read_json (join_path run_dir (approval_relative_path binding)))
          (approval_holds key action binding)
