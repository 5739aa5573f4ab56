-- ===== src/Enforcement/Sources.antt =====
-- The sources that `load_contract` of enforcement.rs reads, and the bytes that it hashes of them.
use nopal.Prelude.{
  ◌≡◌, refl, sym, ap, ◌∙◌, arith, String, Option, none, some, List, [], ◌∷◌, ◌++◌, append_assoc,
  All,
}
use nopal.LedgerJson.Value.{Bytes}
use nopal.PolicyReport.Run.{IoResult, done, io_error}
use nopal.Enforcement.World.{World, as_bytes}
use nopal.Enforcement.Signature.{to_be_bytes, framed}
use nopal.Enforcement.Frames.{IsFrameable, IsShort, framed_cancel, framed_text}
use nopal.Enforcement.Contract.{record_source, workflow_path}

-- A source that was read: its label, and its bytes if it is there.
abbrev pub Source : Type 0
Source = String × Option Bytes

abbrev pub record_all : List Source → Bytes
record_all [] = []
record_all (s ∷ rest) = record_source s.0 s.1 ++ record_all rest

abbrev FitsOption : Option Bytes → Type 0
FitsOption none = Unit
FitsOption (some bytes) = IsFrameable bytes

-- Labels and files are shorter than 2 ^ 64 bytes.
abbrev pub IsRecordable : List Source → Type 0
IsRecordable = All (λ (s : Source). IsShort s.0 × FitsOption s.1)

record_source_cancel :
    (label other : String) (a b : Option Bytes) {us vs : Bytes}
    → IsShort label
    → IsShort other
    → FitsOption a
    → FitsOption b
    → record_source label a ++ us ≡ record_source other b ++ vs
    → (label ≡ other) × (a ≡ b) × (us ≡ vs)
unfolding record_source
record_source_cancel label other none none {us} {vs} h k p q e =
    let (same, rest) = framed_text label other h k (
      sym (append_assoc (framed (as_bytes label)) (0 ∷ []) us)
      ∙ e
      ∙ append_assoc (framed (as_bytes other)) (0 ∷ []) vs) in
    (same, refl, cc)
record_source_cancel label other none (some b) {us} {vs} h k p q e =
    let (same, rest) = framed_text label other h k (
      sym (append_assoc (framed (as_bytes label)) (0 ∷ []) us)
      ∙ e
      ∙ append_assoc (framed (as_bytes other)) (1 ∷ framed b) vs) in
    absurd (ground (arith, rest))
record_source_cancel label other (some a) none {us} {vs} h k p q e =
    let (same, rest) = framed_text label other h k (
      sym (append_assoc (framed (as_bytes label)) (1 ∷ framed a) us)
      ∙ e
      ∙ append_assoc (framed (as_bytes other)) (0 ∷ []) vs) in
    absurd (ground (arith, rest))
record_source_cancel label other (some a) (some b) {us} {vs} h k p q e =
    let (same, rest) = framed_text label other h k (
      sym (append_assoc (framed (as_bytes label)) (1 ∷ framed a) us)
      ∙ e
      ∙ append_assoc (framed (as_bytes other)) (1 ∷ framed b) vs) in
    let tails : framed a ++ us ≡ framed b ++ vs = cc in
    let (bytes, after) = framed_cancel a b p q tails in (same, ap some bytes, after)

pub record_all_injective :
    (xs ys : List Source)
    → IsRecordable xs
    → IsRecordable ys
    → record_all xs ≡ record_all ys
    → xs ≡ ys
unfolding record_source framed to_be_bytes
record_all_injective [] [] h k e = refl
record_all_injective [] ((label, none) ∷ ys) h k e = cc
record_all_injective [] ((label, some b) ∷ ys) h k e = cc
record_all_injective ((label, none) ∷ xs) [] h k e = cc
record_all_injective ((label, some a) ∷ xs) [] h k e = cc
record_all_injective ((label, a) ∷ xs) ((other, b) ∷ ys) h k e =
    let (labels, bytes, rest) = record_source_cancel label other a b h.0.0 k.0.0 h.0.1 k.0.1 e in
    ap (λ l. (l, a) ∷ xs) labels
    ∙ ap (λ o. (other, o) ∷ xs) bytes
    ∙ ap (λ zs. (other, b) ∷ zs) (record_all_injective xs ys h.1 k.1 rest)

pub record_all-append :
    (xs ys : List Source) → record_all (xs ++ ys) ≡ record_all xs ++ record_all ys
record_all-append [] ys = refl
record_all-append (s ∷ xs) ys =
    ap (λ rest. record_source s.0 s.1 ++ rest) (record_all-append xs ys)
    ∙ sym (append_assoc (record_source s.0 s.1) (record_all xs) (record_all ys))

-- What reading a source adds: nothing, if the reading fails.
abbrev pub of_read : String → IoResult (Option Bytes) → List Source
of_read label io_error = []
of_read label (done bytes) = (label, bytes) ∷ []

-- The user's policy, which is not there without a directory for it.
abbrev pub user_source : World → Option String → List Source
user_source world none = ("user policy", none) ∷ []
user_source world (some directory) =
    of_read "user policy" (world.read_bytes directory "policy.jsonc")

-- The files of the repository, in the order in which they are read.
abbrev pub repository_sources : World → String → List Source
repository_sources world root =
    ((((of_read "repository policy" (world.read_bytes root ".nopal/policy.jsonc")
            ++ of_read "repository gates" (world.read_bytes root ".nopal/gates.jsonc"))
          ++ of_read "project manifest" (world.read_bytes root ".nopal/nopal.jsonc"))
        ++ of_read "distribution bundle" (world.read_bytes root ".nopal/bundle.jsonc"))
      ++ of_read "distribution lock" (world.read_bytes root ".nopal/nopal.lock"))
    ++ of_read "workflow" (world.read_bytes root workflow_path)

-- All that a contract is loaded from.
abbrev pub authority : World → String → Option String → List Source
authority world root config_dir = user_source world config_dir ++ repository_sources world root
