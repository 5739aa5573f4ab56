-- ===== src/Enforcement/Frames.antt =====
-- The bytes that enforcement.rs signs say which fields were signed: the frames of the fields can be
-- told apart, and UTF-8 loses nothing.
use nopal.Prelude.{
  ℕ, zero, suc, ◌/◌, ◌%◌, ◌<◌, ◌≡◌, refl, sym, ap, ◌∙◌, arith, String, List, [], ◌∷◌, ◌++◌, length,
  length-append, append_assoc,
}
use Prim.Native.Nat.{◌^◌}
use Prim.Native.Char.{code}
use text.Mathlib.TextEquality.{Char-path}
use nopal.Ledger.Names.{codes}
use nopal.LedgerJson.Value.{Bytes}
use nopal.Enforcement.World.{utf8, encode, as_bytes}
use nopal.Enforcement.Signature.{to_be_bytes, framed, ReceiptSignatureSubject, subject_bytes}

append_cancel :
    (xs ys : Bytes) {us vs : Bytes}
    → length xs ≡ length ys
    → xs ++ us ≡ ys ++ vs
    → (xs ≡ ys) × (us ≡ vs)
append_cancel [] [] h e = (refl, e)
append_cancel [] (y ∷ ys) h e = absurd (omega (arith, h))
append_cancel (x ∷ xs) [] h e = absurd (omega (arith, h))
append_cancel (x ∷ xs) (y ∷ ys) {us} {vs} h e =
    let tails : xs ++ us ≡ ys ++ vs = cc in
    let heads : x ≡ y = cc in
    let (same, rest) = append_cancel xs ys (omega (arith, h)) tails in
    (ap (λ z. z ∷ xs) heads ∙ ap (λ zs. y ∷ zs) same, rest)

length-to_be_bytes : (width n : ℕ) → length (to_be_bytes width n) ≡ width
unfolding to_be_bytes
length-to_be_bytes zero n = refl
length-to_be_bytes (suc width) n = omega (
  arith,
  length-append (to_be_bytes width (n / 256)) ((n % 256) ∷ []),
  length-to_be_bytes width (n / 256),
)

to_be_bytes-injective :
    (width n m : ℕ)
    → n < 256 ^ width
    → m < 256 ^ width
    → to_be_bytes width n ≡ to_be_bytes width m
    → n ≡ m
unfolding to_be_bytes
to_be_bytes-injective zero n m h k e = omega arith
to_be_bytes-injective (suc width) n m h k e =
    let (front, last) =
      append_cancel (to_be_bytes width (n / 256)) (to_be_bytes width (m / 256))
        (length-to_be_bytes width (n / 256) ∙ sym (length-to_be_bytes width (m / 256))) e in
    let low : n % 256 ≡ m % 256 = cc in
    let high : n / 256 ≡ m / 256 =
      to_be_bytes-injective width (n / 256) (m / 256) (omega arith) (omega arith) front in
    omega (arith, low, high)

-- A text shorter than this has its length written in eight bytes.
abbrev pub IsFrameable : Bytes → Type 0
IsFrameable bytes = length bytes < 256 ^ 8

pub framed_cancel :
    (xs ys : Bytes) {us vs : Bytes}
    → IsFrameable xs
    → IsFrameable ys
    → framed xs ++ us ≡ framed ys ++ vs
    → (xs ≡ ys) × (us ≡ vs)
unfolding framed
framed_cancel xs ys {us} {vs} h k e =
    let (lengths, rest) =
      append_cancel (to_be_bytes 8 (length xs)) (to_be_bytes 8 (length ys))
        (length-to_be_bytes 8 (length xs) ∙ sym (length-to_be_bytes 8 (length ys)))
        (sym (append_assoc _ xs us) ∙ e ∙ append_assoc _ ys vs) in
    append_cancel xs ys (to_be_bytes-injective 8 _ _ h k lengths) rest

utf8_cancel : (c d : ℕ) {us vs : Bytes} → utf8 c ++ us ≡ utf8 d ++ vs → (c ≡ d) × (us ≡ vs)
unfolding utf8
utf8_cancel c d e = ground arith

encode-injective : (cs ds : List ℕ) → encode cs ≡ encode ds → cs ≡ ds
unfolding encode utf8
encode-injective [] [] e = refl
encode-injective [] (d ∷ ds) e = ground arith
encode-injective (c ∷ cs) [] e = ground arith
encode-injective (c ∷ cs) (d ∷ ds) e =
    let (same, rest) = utf8_cancel c d e in
    ap (λ z. z ∷ cs) same ∙ ap (λ zs. d ∷ zs) (encode-injective cs ds rest)

codes-injective : (s t : String) → codes s ≡ codes t → s ≡ t
codes-injective String.[] String.[] e = refl
codes-injective String.[] (String.◌∷◌ d t) e = cc
codes-injective (String.◌∷◌ c s) String.[] e = cc
codes-injective (String.◌∷◌ c s) (String.◌∷◌ d t) e =
    let heads : code c ≡ code d = cc in
    let tails : codes s ≡ codes t = cc in
    ap (λ z. String.◌∷◌ z s) (Char-path c d heads)
    ∙ ap (λ z. String.◌∷◌ d z) (codes-injective s t tails)

pub as_bytes_injective : (s t : String) → as_bytes s ≡ as_bytes t → s ≡ t
as_bytes_injective s t e = codes-injective s t (encode-injective (codes s) (codes t) e)

abbrev pub IsShort : String → Type 0
IsShort text = IsFrameable (as_bytes text)

pub framed_text :
    (s t : String) {us vs : Bytes}
    → IsShort s
    → IsShort t
    → framed (as_bytes s) ++ us ≡ framed (as_bytes t) ++ vs
    → (s ≡ t) × (us ≡ vs)
framed_text s t h k e =
    let (same, rest) = framed_cancel (as_bytes s) (as_bytes t) h k e in
    (as_bytes_injective s t same, rest)

-- The fields are shorter than 2 ^ 64 bytes, and the exit code is a word of 32 bits.
abbrev pub IsSignable : ReceiptSignatureSubject → Type 0
IsSignable s =
    IsShort s.action
    × IsShort s.contract_digest
    × IsShort s.workspace_fingerprint
    × IsShort s.authorization_binding
    × IsShort s.gate_id
    × IsShort s.gate_definition_digest
    × (s.exit_code < 256 ^ 4)

-- The same bytes, associated to the right.
abbrev right_bytes : ReceiptSignatureSubject → Bytes
right_bytes s =
    framed (as_bytes s.action)
    ++ (framed (as_bytes s.contract_digest)
        ++ (framed (as_bytes s.workspace_fingerprint)
            ++ (framed (as_bytes s.authorization_binding)
                ++ (framed (as_bytes s.gate_id)
                    ++ (framed (as_bytes s.gate_definition_digest) ++ to_be_bytes 4 s.exit_code)))))

right_bytes_lem : (s : ReceiptSignatureSubject) → subject_bytes s ≡ right_bytes s
unfolding subject_bytes
right_bytes_lem s = simp append_assoc

-- If no field has 2 ^ 64 bytes and the exit codes are words of 32 bits, then two subjects with the
-- same signed bytes are the same.
pub subject_bytes_injective :
    (s t : ReceiptSignatureSubject)
    → IsSignable s
    → IsSignable t
    → subject_bytes s ≡ subject_bytes t
    → s ≡ t
subject_bytes_injective s t (h0, h1, h2, h3, h4, h5, h6) (k0, k1, k2, k3, k4, k5, k6) e =
    let right : right_bytes s ≡ right_bytes t = sym (right_bytes_lem s) ∙ e ∙ right_bytes_lem t in
    let (e0, r0) = framed_text s.action t.action h0 k0 right in
    let (e1, r1) = framed_text s.contract_digest t.contract_digest h1 k1 r0 in
    let (e2, r2) = framed_text s.workspace_fingerprint t.workspace_fingerprint h2 k2 r1 in
    let (e3, r3) = framed_text s.authorization_binding t.authorization_binding h3 k3 r2 in
    let (e4, r4) = framed_text s.gate_id t.gate_id h4 k4 r3 in
    let (e5, r5) = framed_text s.gate_definition_digest t.gate_definition_digest h5 k5 r4 in
    let e6 : s.exit_code ≡ t.exit_code = to_be_bytes-injective 4 _ _ h6 k6 r5 in cc
