-- ===== src/Tests/Firewall.antt =====
-- Witnesses of the theorems on the receipts and the stop gate of the orchestrator firewall.
use mihver.Json.{less, units, str, canonicalize_json, object}
use mihver.Prelude.{
  ap, ◌==◌, false, String, Bool, Option, ◌≢◌, ◌≡◌, refl, true, none, some, List, [], ◌∷◌, arith,
  any, keep, ℕ, ◌%◌, length, eqb, if◌then◌else◌,
}
use mihver.Tests.Fixtures.{zeros, head, fixed_sha}
use mihver.Firewall.Chain.{
  last_hash, verify_chain, write_record, next_entry, append_record, Entry, chain_from, head_matches,
  write_head, hash_unsigned, Store,
}
use mihver.Firewall.Chain.Evidence.{Appends, append_record-Appends}
use mihver.Firewall.Receipts.{
  completed, DelegationRecord, delegation_json, StartInput, EndInput, Ledger, started_record,
  ended_record, append_completion, append_started, last_started, ends_use,
}
use mihver.Firewall.Receipts.Once.{starts, ends, empty_ledger, perform}
use mihver.Firewall.Threads.{
  Binding, given, undefined, append_thread_binding, ThreadRecord, binding_json,
  append_thread_record, store_as_read, as_read, sandbox_as_read,
}
use mihver.Firewall.Threads.Sole.{unknown, no_bindings, Answers, find_thread_binding-Answers, has}
use mihver.Firewall.StopGate.{
  allow, decide_stop, decide_implementer, latest, is_bound, decide_verifier, later_verifier,
  completed_text, latest_from, is_current,
}
use mihver.Firewall.StopGate.Released.{Release, decide_stop-Release}

abbrev start : StartInput
start = record {
  session_id = "s";
  prompt_id = "p";
  tool_use_id = "u";
  tool_name = "codex";
  task_id = "t";
  role = "IMPLEMENTER";
  scope_hash = zeros;
  base_sha = str head;
  audit = ("model", "m") ∷ [];
  thread_id = none;
}

abbrev end : EndInput
end = record {
  tool_use_id = "u";
  succeeded = true;
  hashed_text = "{}";
  workspace_fingerprint = none;
}

abbrev first : Ledger
first = perform fixed_sha empty_ledger (starts start "1")

abbrev entry : DelegationRecord
entry = started_record fixed_sha start "1"

verifies : verify_chain fixed_sha delegation_json first ≡ true
unfolding verify_chain chain_from perform append_started append_record head_matches write_head
    write_record next_entry last_hash hash_unsigned
verifies = refl

append_record-Appends_example : Appends fixed_sha delegation_json first entry
append_record-Appends_example = append_record-Appends fixed_sha delegation_json first entry verifies

abbrev ended : Ledger
ended = perform fixed_sha first (ends end "2")

abbrev end_entry : Entry DelegationRecord
end_entry =
    next_entry fixed_sha delegation_json first.records (ended_record fixed_sha entry end "2")

completes : append_completion fixed_sha first end "2" ≡ some (ended, end_entry)
unfolding append_completion verify_chain chain_from perform append_started append_record
    head_matches write_head write_record next_entry last_hash hash_unsigned last_started
    started_record any ends_use
completes = refl

abbrev receipt : String → String → Option String → DelegationRecord
receipt role at fingerprint = record (started_record fixed_sha start "1") {
  role = role;
  completed_at = some at;
  status = completed;
  workspace_fingerprint = fingerprint;
}

abbrev old : String
old = "old"

abbrev new : String
new = "new"

abbrev receipts : List DelegationRecord
receipts = receipt "IMPLEMENTER" "1" none ∷ receipt "VERIFIER" "2" (some new) ∷ []

abbrev always : String → String → Bool
always a b = true

allowed : decide_stop always old new receipts "s" "p" ≡ allow
unfolding decide_stop decide_implementer latest keep is_bound started_record decide_verifier
    later_verifier less units completed_text latest_from is_current
allowed = refl

changed : old ≢ new
changed e = let q : true ≡ false = ap (λ x. x == old) e in absurd (ground arith)

decide_stop-Release_example : Release new receipts "s" "p"
decide_stop-Release_example = decide_stop-Release always old new receipts "s" "p" changed allowed

abbrev binding : String → Binding
binding role = record {
  thread_id = some "shared";
  role = role;
  task_id = "t";
  scope_hash = zeros;
  base_sha = str head;
  sandbox = given "read-only";
  session_id = "s";
  prompt_id = "p";
  started_at = "1";
}

find_thread_binding-Answers_example :
    Answers fixed_sha no_bindings (binding "IMPLEMENTER" ∷ binding "VERIFIER" ∷ []) "shared" unknown
find_thread_binding-Answers_example =
    find_thread_binding-Answers fixed_sha (binding "IMPLEMENTER" ∷ binding "VERIFIER" ∷ []) "shared"
      (has "read-only" refl, (has "read-only" refl, tt))

-- A digest that tells texts apart by their length.
abbrev by_length : List ℕ → String
by_length units = let n = length units % 3 in if eqb n 0 then "a" else if eqb n 1 then "b" else "c"

-- A binding without a sandbox: the store it was written to does not verify any more.
abbrev unsandboxed : Binding
unsandboxed = record (binding "VERIFIER") { sandbox = undefined }

-- What is read of a store after the binding.
abbrev found_after : Option (Store ThreadRecord × Entry ThreadRecord) → Bool
found_after none = false
found_after (some (s, e)) = verify_chain by_length binding_json s

breaks : found_after (append_thread_binding by_length no_bindings unsandboxed) ≡ false
unfolding append_thread_binding verify_chain chain_from head_matches any append_thread_record
    store_as_read append_record as_read next_entry last_hash hash_unsigned canonicalize_json object
    binding_json sandbox_as_read
breaks = refl

keeps : found_after (append_thread_binding by_length no_bindings (binding "VERIFIER")) ≡ true
unfolding append_thread_binding verify_chain chain_from head_matches any append_thread_record
    store_as_read append_record as_read next_entry last_hash hash_unsigned canonicalize_json object
    binding_json sandbox_as_read write_head
keeps = refl
