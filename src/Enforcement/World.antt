-- ===== src/Enforcement/World.antt =====
-- What enforcement.rs takes from outside: the sha2 and serde_json crates, and the files. Reading is
-- given by its outcomes.
use nopal.Prelude.{
  ℕ, String, Option, List, [], ◌∷◌, ◌++◌, ◌+◌, ◌/◌, ◌%◌, ltb, if◌then◌else◌, concat,
}
use nopal.Ledger.Names.{codes}
use nopal.LedgerJson.Value.{Bytes, Value}
use nopal.Policy.Vocabulary.{Mode, ActionClass, Decision, Placement}
use nopal.PolicyReport.Run.{IoResult}
use nopal.Enforcement.Intent.{EnforcementIntent}
use nopal.Enforcement.Required.{GateSemantics}

-- The object that `authorization_binding` builds, without its constant schema.
pub record BindingSubject : Type 0 where
  pub action : String
  pub classes : List ActionClass
  pub mode : Mode
  pub intent : EnforcementIntent
  pub decision : Decision
  pub placement : Placement
  pub contract_digest : String
  pub workspace_fingerprint : String
  pub gates : List String

-- `Sha256::digest`, `{:x}` of a digest, and `serde_json::to_vec` of the two objects; `{:?}` of a text.
pub record Hashing : Type 0 where
  pub sha256 : Bytes → Bytes
  pub lower_hex : Bytes → String
  pub semantics_json : GateSemantics → Bytes
  pub binding_json : BindingSubject → Bytes
  pub debug : String → String

-- `read_json` of a path, `confined_read::read_bytes` of a directory and a relative path, and the
-- fingerprint of the content of a directory.
pub record World : Type 0 where
  pub read_json : String → Option Value
  pub read_bytes : String → String → IoResult (Option Bytes)
  pub workspace_fingerprint : String → IoResult String

-- `Path::join`
unfoldable pub join_path : String → String → String
join_path directory relative = concat (directory ∷ "/" ∷ relative ∷ [])

-- A character's bytes in UTF-8.
unfoldable pub utf8 : ℕ → Bytes
utf8 c =
    if ltb c 0x80
    then c ∷ []
    else if ltb c 0x800
    then (0xc0 + c / 0x40) ∷ (0x80 + c % 0x40) ∷ []
    else if ltb c 0x10000
    then (0xe0 + c / 0x1000) ∷ (0x80 + c / 0x40 % 0x40) ∷ (0x80 + c % 0x40) ∷ []
    else (0xf0 + c / 0x40000)
      ∷ (0x80 + c / 0x1000 % 0x40)
      ∷ (0x80 + c / 0x40 % 0x40)
      ∷ (0x80 + c % 0x40)
      ∷ []

unfoldable pub encode : List ℕ → Bytes
encode [] = []
encode (c ∷ cs) = utf8 c ++ encode cs

-- `str::as_bytes`
abbrev pub as_bytes : String → Bytes
as_bytes text = encode (codes text)

module _ (hashing : Hashing) where
  -- `digest_bytes`
  unfoldable pub digest_bytes : Bytes → String
  digest_bytes bytes = hashing.lower_hex (hashing.sha256 bytes)
