-- ===== src/Tests/Binding.antt =====
-- Witnesses of the theorems on authorization envelopes.
use mihver.Council.Proof.Recount.{expected_outcome}
use mihver.Council.Quorum.{vote_by_seat}
use mihver.Json.{canonicalize_json}
use mihver.Council.Sessions.{proposer_seat, record_vote}
use mihver.Council.Validity.{valid_request, valid_vote}
use mihver.Council.Proof.{
  valid_proof, compute_proof_hash, compute_council_config_hash, lookup_trusted_config_hash,
  request_matches_record,
}
use mihver.Council.Hashes.{compute_decision_record_hash}
use mihver.Prelude.{
  ◌≡◌, refl, true, none, some, [], ◌∷◌, ◌==◌, if◌then◌else◌, is_hash64, nonempty, set_size, any,
  is_hex40, all, find, keep,
}
use mihver.Council.Types.{exact}
use mihver.Council.Proof.Verify.{
  shaped, verify_council_quorum_proof, is_text, conclude, eligible, submitted_checks, checks_of,
  config_trusted, bindings, vote_bound, same, quorum_matches, recount, outcome_matches,
}
use mihver.Authorization.Records.{
  External, TaskRecord, TaskBody, in_progress, Context, Envelope, supported_policy, or_empty,
  derive_scope, terminal_pair, council_consistent, valid_task_record, compute_task_record_hash,
  valid_context, valid_stop_epoch, compute_authorization_envelope_hash, compute_authorization_id,
}
use mihver.Authorization.Rederive.{
  envelope_of, derived, rederive_envelope, context_current, envelope_body,
  derive_canonical_authorization_id, canonical_scope, canonical_tokens,
  compute_canonical_envelope_hash,
}
use mihver.Authorization.Binder.{
  envelope, evaluate_authorization, evaluate_context, evaluate_records, council_gate, bind_task,
  authorization_envelope, authorization_body,
}
use mihver.Authorization.Binder.Gate.{
  Admits, evaluate_authorization-Admits, rederive_envelope-eq-evaluate_authorization,
}
use mihver.Tests.Fixtures.{fixed_sha, hash, head}
use mihver.Tests.Proofs.{decision, proof, registry}

-- Every record has its shape; two texts are dates, at 10 and 20.
abbrev pub ext : External
ext = record {
  sha256 = fixed_sha;
  validate_decision_record_shape = λ r. true;
  validate_task_record_shape = λ t. true;
  date_parse = λ s. if s == "now" then some 10 else if s == "later" then some 20 else none;
}

abbrev task_body : TaskBody
task_body = record {
  task_id = "t";
  objective = "o";
  branch = "b";
  base_commit = head;
  allowed_scope = "docs" ∷ "src" ∷ "docs" ∷ "ops" ∷ [];
  forbidden_scope = some ("ops" ∷ []);
  disposition = in_progress;
  unresolved_risks = [];
  human_action_requested = "none";
}

abbrev pub task : TaskRecord
task = record { body = task_body; task_record_hash = hash }

abbrev pub context : Context
context = record { context_hash = hash; repository_head = head }

abbrev pub env : Envelope
env = envelope_of fixed_sha decision task 7 supported_policy

evaluates :
    evaluate_authorization ext
      (shaped proof)
      registry
      (exact decision)
      (exact task)
      (exact context)
      (some 7)
      supported_policy
    ≡ envelope env
unfolding evaluate_authorization mihver.Authorization.Records.valid_decision_record terminal_pair
    council_consistent is_hash64 nonempty set_size any compute_decision_record_hash
    valid_task_record compute_task_record_hash evaluate_context valid_context is_hex40
    valid_stop_epoch evaluate_records council_gate verify_council_quorum_proof
    mihver.Council.Proof.valid_decision_record all is_text conclude eligible submitted_checks
    checks_of valid_proof valid_request valid_vote compute_proof_hash config_trusted
    compute_council_config_hash lookup_trusted_config_hash bindings request_matches_record
    vote_bound proposer_seat same canonicalize_json record_vote vote_by_seat find quorum_matches
    recount outcome_matches expected_outcome keep bind_task context_current envelope_of
    authorization_envelope envelope_body compute_authorization_envelope_hash
    derive_canonical_authorization_id compute_authorization_id canonical_scope derive_scope
    canonical_tokens authorization_body compute_canonical_envelope_hash
evaluates = refl

evaluate_authorization-Admits_example :
    Admits ext (shaped proof) registry decision task context 7 supported_policy env
evaluate_authorization-Admits_example =
    evaluate_authorization-Admits ext (shaped proof) registry decision task context 7
      supported_policy env evaluates

rederive_envelope-eq-evaluate_authorization_example :
    rederive_envelope fixed_sha decision task (exact context) (some 7) supported_policy
    ≡ derived env
rederive_envelope-eq-evaluate_authorization_example =
    rederive_envelope-eq-evaluate_authorization ext (shaped proof) registry decision task context 7
      supported_policy env evaluates
