-- ===== src/Lib.antt =====
-- A verification library for nopal, which decides what an agent's action may do (policy), which
-- checks a change needs (gates), how risky a change is (review policy), what a run has done (run
-- ledger) and whether a tool call is authorized (enforcement, which composes policies and gates and
-- signs receipts). All of it stands in crates/nopal-core and crates/nopal-ledger-json.
--
-- The parts and their files:
--   Prelude    Boolean tests, lists, texts and sets of texts that the parts share.
--   Policy     crates/nopal-core/src/policy.rs. Vocabulary has modes, classes and the two ordered
--              vocabularies, decisions and placements; Doc the document, the request and the
--              evaluation; Classes the effective classes; Evaluate rules, defaults, floors and
--              `evaluate`. `evaluate` is cut where its sections are: `effective`, `match_rules`,
--              `base_decision`, `base_placement`, `action_floor`, `class_floors`. The map of modes
--              is the list of its entries, and modes and classes, which the source interns, are
--              their texts.
--   Gates      crates/nopal-core/src/gates.rs: stages, gates, sets, selectors, the configuration.
--              Provenance is the record of gate_scaffold.rs that a generated configuration keeps.
--   Selection  crates/nopal-core/src/selection.rs. Globs sorts the changed files and matches them;
--              Pull is the first half of `select`, up to the list of pulled gates; Select is the
--              second half, from explicit authority on. The list `pulled` and the lists that
--              the source extends in loops are passed along. The globset crate is the parameter
--              `Globset`: any type of patterns and sets, with their builders and their test.
--   Review     crates/nopal-core/src/review_policy.rs. Types has the configuration and the verdicts,
--              Evaluate the risk class, the fast path and `evaluate`, which calls `select`.
--   Ledger     crates/nopal-core/src/run_ledger.rs and run_ledger_store.rs. Lifecycle has the statuses,
--              the commands and `transition`, one helper for each current status; Replay the
--              command object that the store writes and `validate_replayed_command`, whose
--              errors are data; Names slugs and identifiers, over lists of code points; Dates the
--              clock from 1970 on. The JSON object of a command is the record of the fields
--              that the code reads.
--   Diagnostics  crates/nopal-core/src/diagnostics.rs: Codes has the vocabulary, Report the records
--              and the order of a report, with `sort_by` as a stable insertion sort.
--   Json, Parse  The validator of policy documents in crates/nopal-core/src/policy.rs: Lists has
--              `parse_class_list` and `parse_action_list`, Rules `parse_rule` and the loop over a
--              mode's rules, Modes the modes, the environment references and the whole, under the
--              name `validate_policy`. The serde_json crate and the printing of values are the
--              parameter `Json`.
--   Gates/Document  `validate_document` of gates.rs: Fields reads one field, Placeholders has
--              `check_placeholders`, Entries preflights and gates, Sets gate sets and selectors,
--              Scaffold the provenance, Validate the whole. The list of diagnostics that the
--              source pushes on is the second part of a `Said` (Diagnostics/Said), and `seen_ids`
--              is passed along.
--   LedgerJson  crates/nopal-ledger-json/src/lib.rs and the writer in crates/nopal-core/src/run_ledger.rs.
--              Scan steps over bytes, Parser descends; Writer prints. The text and the position in
--              it are the bytes that are left, and texts in values are code points. Each call of
--              the parser costs a unit of fuel; `from_str` gives twice the length and two.
--              Literals is an independent reader of string literals (RFC 8259); the map of
--              an object is the list of its entries in the order of their keys.
--   Config     crates/nopal-core/src/config.rs and profile.rs. Commas has the check for commas over
--              tokens, one helper for each frame; Trees the documents that it is compared with;
--              Modules and Manifest the manifest. The jsonc_parser crate gives the tokens and the
--              value.
--   PolicyReport  `load` and `run` of policy.rs: the outcome of reading the file is an argument, the
--              JSONC reader a parameter, and the report is a record.
--   Enforcement  crates/nopal-core/src/enforcement.rs and isolation.rs. Intent has the request, the
--              exact intent and the tables of actions; Isolation and Profiles are the validator of
--              isolation.rs; Required is `select_required_gates`; World has what is taken from
--              outside, as the records Hashing (sha2, serde_json) and World (the outcomes of
--              reading); Signature and Receipts are signatures and the tests of receipts; Plan is
--              `plan_for_intent` after the loading, cut where its sections are, with the variables
--              of the loop over the policies as the record `Judged`; Evidence gives the effects
--              that the adapter applies; Contract is `load_contract`, whose accumulators are the
--              record `Loading`; Sources lists the sources that it reads; Executors is
--              `gate_executor_requirements`. Paths are texts, bytes are numbers, and the compiler
--              of workflow documents is a parameter.
--
-- Loops over lists are structural recursion; only the parser of LedgerJson runs on fuel.
--
-- Not modelled: reading files and JSONC, the validators of documents other than manifests, gates,
-- policies and isolation, file locks and journals of the run ledger's store, dates before 1970,
-- scaffolding and drift detection, distribution, the compiler of workflow documents, rendering,
-- the command line in crates/nopal-cli, and the editor extension. Dates before 1970 need negative
-- numbers, the other validators are of the kind of those modelled, and the rest does I/O or
-- renders text.
pub mod Prelude
pub mod Policy
pub mod Gates
pub mod Selection
pub mod Review
pub mod Ledger
pub mod Diagnostics
pub mod Json
pub mod Parse
pub mod LedgerJson
pub mod Config
pub mod PolicyReport
pub mod Enforcement
