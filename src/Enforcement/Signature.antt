-- ===== src/Enforcement/Signature.antt =====
-- Receipt signatures (HMAC over SHA-256) and the comparison of capabilities (enforcement.rs).
use Prim.Native.Nat.{bit_or, bit_xor}
use nopal.Prelude.{
  ℕ, suc, ◌/◌, ◌%◌, ltb, eqb, String, Bool, false, not, [], ◌∷◌, ◌++◌, map, if◌then◌else◌, length,
}
use nopal.LedgerJson.Value.{Bytes}
use nopal.Enforcement.World.{Hashing, as_bytes, digest_bytes}

-- The exit code is an `i32` as its bit pattern.
pub record ReceiptSignatureSubject : Type 0 where
  pub action : String
  pub contract_digest : String
  pub workspace_fingerprint : String
  pub authorization_binding : String
  pub gate_id : String
  pub gate_definition_digest : String
  pub exit_code : ℕ

-- `to_be_bytes` of an integer of so many bytes, which wraps around.
unfoldable pub to_be_bytes : ℕ → ℕ → Bytes
to_be_bytes ℕ.zero n = []
to_be_bytes (suc width) n = to_be_bytes width (n / 256) ++ (n % 256) ∷ []

-- The length of the bytes as a `u64`, then the bytes.
unfoldable pub framed : Bytes → Bytes
framed bytes = to_be_bytes 8 (length bytes) ++ bytes

-- The array of 64 zeros with the bytes copied to its start.
unfoldable pub padded : ℕ → Bytes → Bytes
padded ℕ.zero bytes = []
padded (suc width) [] = 0 ∷ padded width []
padded (suc width) (b ∷ bytes) = b ∷ padded width bytes

-- The components that are hashed after the pad.
unfoldable pub subject_bytes : ReceiptSignatureSubject → Bytes
subject_bytes s =
    framed (as_bytes s.action)
    ++ framed (as_bytes s.contract_digest)
    ++ framed (as_bytes s.workspace_fingerprint)
    ++ framed (as_bytes s.authorization_binding)
    ++ framed (as_bytes s.gate_id)
    ++ framed (as_bytes s.gate_definition_digest)
    ++ to_be_bytes 4 s.exit_code

-- `constant_time_eq`: the differences of all pairs of bytes, joined.
unfoldable pub difference : ℕ → Bytes → Bytes → ℕ
difference d (a ∷ left) (b ∷ right) = difference (bit_or d (bit_xor a b)) left right
difference d _ _ = d

unfoldable pub constant_time_eq : Bytes → Bytes → Bool
constant_time_eq left right =
    if not (eqb (length left) (length right)) then false else eqb (difference 0 left right) 0

unfoldable pub capability_matches : Bytes → Bytes → Bool
capability_matches expected provided = constant_time_eq expected provided

module _ (hashing : Hashing) where
  unfoldable pub normalized_key : Bytes → Bytes
  normalized_key key = if ltb 64 (length key) then padded 64 (hashing.sha256 key) else padded 64 key

  unfoldable pub receipt_signature : Bytes → ReceiptSignatureSubject → String
  receipt_signature key subject =
      let normalized = normalized_key key in
      let inner = hashing.sha256 (map (bit_xor 0x36) normalized ++ subject_bytes subject) in
      digest_bytes hashing (map (bit_xor 0x5c) normalized ++ inner)
