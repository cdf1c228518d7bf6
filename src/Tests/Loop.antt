-- ===== src/Tests/Loop.antt =====
-- Witnesses of the theorems on the loop, its executor and the lock: one iteration in which the
-- ledger allows the envelope and the stop check passes.
use mihver.Authorization.Rederive.{context_current, envelope_of, envelope_body}
use mihver.Council.Proof.Recount.{expected_outcome}
use mihver.Council.Quorum.{vote_by_seat}
use mihver.Council.Sessions.{proposer_seat, record_vote}
use mihver.Council.Validity.{valid_request, valid_vote}
use mihver.Council.Proof.{
  valid_proof, compute_proof_hash, compute_council_config_hash, lookup_trusted_config_hash,
  request_matches_record,
}
use mihver.Authorization.Binder.{
  evaluate_authorization, evaluate_context, evaluate_records, council_gate, bind_task,
  authorization_envelope, authorization_body,
}
use mihver.Council.Hashes.{digest, compute_decision_record_hash}
use mihver.Prelude.{
  ℕ, ◌≡◌, refl, true, some, [], ◌∷◌, arith, ◌+◌, nonempty, includes, codes, is_hash64, set_size,
  any, is_hex40, all, find, keep, same_codes,
}
use mihver.Json.{null, quote, canonicalize_json}
use mihver.Council.Types.{exact}
use mihver.Council.Proof.Verify.{
  shaped, verify_council_quorum_proof, is_text, conclude, eligible, submitted_checks, checks_of,
  config_trusted, bindings, vote_bound, same, quorum_matches, recount, outcome_matches,
}
use mihver.Authorization.Records.{
  supported_policy, terminal_pair, council_consistent, valid_task_record, compute_task_record_hash,
  valid_context, valid_stop_epoch, compute_authorization_id,
}
use mihver.Authorization.Lock.{arrives, leaves, read, write, fresh, turns}
use mihver.Authorization.Lock.Exclusion.{Valid, turns-fresh-Valid}
use mihver.Authorization.Executor.{
  Receipt, execute_fake_action, verify_fake_execution_receipt, execute_on,
  compute_fake_deterministic_result, receipt_body, compute_fake_receipt_hash,
  compute_fake_input_hash, would_perform_of, unless, is_id, content_errors, result_errors,
  stringify_result,
}
use mihver.Authorization.Executor.Verified.{
  request_of, verify-execute_fake_action, Faithful, verify-Faithful,
}
use mihver.Authorization.Loop.{
  Fixture, Callbacks, allowed_once, LoopRecord, run_authorization_loop, completed, no_details,
  LogEntry, created, observed, decision_ready, authorization_evaluated, ledger_gate_evaluated,
  fake_executed, verified, next_iteration, ended_with, LoopState, run_from, normalized_maximum,
  authorize, on_evaluation, evaluate_fixture, log, start, ledger_gate, on_ledger_answer,
  allows_envelope, stop_gate, on_stop_answer, dispatch, on_receipt, on_verification, canonical_id,
  finish,
}
use mihver.Authorization.Loop.Bounds.{Runs, run_authorization_loop-Executed}
use mihver.Authorization.Loop.Backing.{AllBacked, run_authorization_loop-Backed}
use mihver.Tests.Fixtures.{fixed_sha, hash}
use mihver.Tests.Proofs.{decision, proof, registry}
use mihver.Tests.Binding.{ext, task, context}

turns-fresh-Valid_example : Valid (
    turns fresh (
      arrives (record { access = read; task = 1 })
      ∷ arrives (record { access = write; task = 2 })
      ∷ arrives (record { access = read; task = 3 })
      ∷ leaves (record { access = read; task = 1 })
      ∷ []))
turns-fresh-Valid_example = turns-fresh-Valid (
    arrives (record { access = read; task = 1 })
    ∷ arrives (record { access = write; task = 2 })
    ∷ arrives (record { access = read; task = 3 })
    ∷ leaves (record { access = read; task = 1 })
    ∷ [])

abbrev receipt : Receipt
receipt = record {
  body = record {
    protocol_version = "1.0.0";
    kind = "FakeExecutionReceipt";
    loop_run_id = "run";
    iteration = 1;
    authorization_id = hash;
    action = "FAKE_NOOP";
    input_hash = hash;
    deterministic_result = record {
      simulation = "FAKE_NOOP";
      would_perform = "NO_OPERATION";
      result_hash = hash;
    };
  };
  receipt_hash = hash;
}

executes : execute_fake_action fixed_sha "run" 1 hash "FAKE_NOOP" (some null) ≡ some receipt
unfolding execute_fake_action nonempty includes execute_on compute_fake_deterministic_result
    receipt_body compute_fake_receipt_hash compute_fake_input_hash would_perform_of digest
executes = refl

verify-execute_fake_action_example :
    verify_fake_execution_receipt fixed_sha
      (some receipt)
      (request_of "run" 1 hash "FAKE_NOOP" (some null))
    ≡ []
verify-execute_fake_action_example =
    verify-execute_fake_action fixed_sha "run" 1 hash "FAKE_NOOP" (some null) receipt executes

verifies :
    verify_fake_execution_receipt fixed_sha
      (some receipt)
      (request_of "run" 1 hash "FAKE_NOOP" (some null))
    ≡ []
unfolding verify_fake_execution_receipt unless is_id includes content_errors compute_fake_input_hash
    digest result_errors compute_fake_deterministic_result same_codes stringify_result codes quote
    would_perform_of compute_fake_receipt_hash
verifies = refl

verify-Faithful_example :
    Faithful fixed_sha receipt (request_of "run" 1 hash "FAKE_NOOP" (some null)) null
verify-Faithful_example =
    verify-Faithful fixed_sha receipt (request_of "run" 1 hash "FAKE_NOOP" (some null)) null refl
      verifies

-- The world counts the calls.
abbrev calls : Callbacks ℕ
calls = record {
  ledger_check = λ w c. (w + 1, some (allowed_once (some hash)));
  is_stop_still_valid = λ w c a. (w + 1, some true);
}

abbrev fixture : Fixture
fixture = record {
  decision_record = exact decision;
  task_record = exact task;
  current_context = exact context;
  current_stop_epoch = some 7;
  policy_version = supported_policy;
  proof = shaped proof;
  trusted_registry = registry;
  action = "FAKE_NOOP";
  input = some null;
}

abbrev entry : LoopState → LogEntry
entry state = record { state = state; iteration = 1 }

abbrev loop_record : LoopRecord ℕ
loop_record = record {
  progress = record {
    world = 2;
    receipts = receipt ∷ [];
    authorization_ids = hash ∷ [];
    transition_log =
        (record { state = created; iteration = 0 })
        ∷ entry observed
        ∷ entry decision_ready
        ∷ entry authorization_evaluated
        ∷ entry ledger_gate_evaluated
        ∷ entry fake_executed
        ∷ entry verified
        ∷ entry next_iteration
        ∷ entry (ended_with completed)
        ∷ [];
  };
  iteration_count = 1;
  outcome = completed;
  details = no_details;
}

runs : run_authorization_loop ext calls "run" (some fixture ∷ []) 2 0 ≡ some loop_record
unfolding run_authorization_loop nonempty run_from normalized_maximum authorize on_evaluation
    evaluate_fixture evaluate_authorization mihver.Authorization.Records.valid_decision_record
    terminal_pair council_consistent is_hash64 set_size any compute_decision_record_hash
    valid_task_record compute_task_record_hash evaluate_context valid_context is_hex40
    valid_stop_epoch evaluate_records council_gate verify_council_quorum_proof
    mihver.Council.Proof.valid_decision_record all is_text conclude eligible submitted_checks
    checks_of valid_proof valid_request valid_vote compute_proof_hash config_trusted
    compute_council_config_hash lookup_trusted_config_hash bindings request_matches_record
    vote_bound proposer_seat same canonicalize_json record_vote vote_by_seat find quorum_matches
    recount outcome_matches expected_outcome keep bind_task context_current log start ledger_gate
    on_ledger_answer allows_envelope envelope_of envelope_body compute_authorization_id stop_gate
    on_stop_answer dispatch on_receipt execute_fake_action on_verification
    verify_fake_execution_receipt unless receipt_body canonical_id content_errors
    compute_fake_input_hash result_errors stringify_result would_perform_of
    compute_fake_receipt_hash finish execute_on compute_fake_deterministic_result
    authorization_envelope authorization_body
runs = refl

run_authorization_loop-Executed_example :
    Runs ext calls 2 (run_authorization_loop ext calls "run" (some fixture ∷ []) 2 0)
run_authorization_loop-Executed_example =
    run_authorization_loop-Executed ext calls "run" (some fixture ∷ []) 2 0
      (unfold nonempty in refl) (omega arith)

run_authorization_loop-Backed_example : AllBacked ext calls "run" loop_record
run_authorization_loop-Backed_example =
    run_authorization_loop-Backed ext calls "run" (some fixture ∷ []) 2 0 loop_record runs
