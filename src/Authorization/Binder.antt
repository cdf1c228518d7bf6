-- ===== src/Authorization/Binder.antt =====
-- `evaluateAuthorization` of scripts/dev/authorization-binder.mjs.
pub mod Scope
pub mod Gate
use mihver.Council.Hashes.{Sha}
use mihver.Prelude.{ℕ, String, Bool, true, false, not, Option, none, some, ◌==◌, if◌then◌else◌}
use mihver.Council.Types.{Shaped, exact, malformed, DecisionRecord}
use mihver.Council.Proof.{Registry}
use mihver.Council.Proof.Verify.{
  Submitted, Verification, needs_council, verify_council_quorum_proof,
}
use mihver.Authorization.Records.{
  External, TaskRecord, Context, Envelope, supported_policy, risk_disposition, same_disposition,
  valid_decision_record, valid_task_record, valid_context, valid_stop_epoch, EnvelopeBody,
  pending_human_approval, policy_satisfied, prohibited, compute_authorization_envelope_hash,
  compute_authorization_id, derive_scope,
}
use mihver.Authorization.Rederive.{
  Reason, invalid_decision_record, invalid_task_record, invalid_current_context, invalid_stop_epoch,
  unsupported_policy_version, r4_hard_deny, council_gate_not_met, risk_disposition_mismatch,
  proof_refused, council_proof_ineligible, task_identity_mismatch, task_record_blocked,
  context_already_stale, is_denied, is_no_quorum, is_blocked, envelope_of, context_current,
  is_human,
}

pub data Evaluated : Type 0 where
  no_envelope : Reason → Evaluated
  envelope : Envelope → Evaluated

-- The body that the binder derives.
unfoldable pub authorization_body : Sha → DecisionRecord → TaskRecord → ℕ → String → EnvelopeBody
authorization_body sha256 r t epoch policy = record {
  protocol_version = "1.0.0";
  authorization_id = compute_authorization_id sha256 r.body.decision_request_id r.record_hash;
  decision_request_id = r.body.decision_request_id;
  record_hash = r.record_hash;
  candidate_hash = r.body.candidate_hash;
  task_id = r.body.task_id;
  risk_class = r.body.risk_class;
  context_hash = r.body.context_hash;
  repository_head = r.body.repository_head;
  council_epoch_id = r.body.council_epoch_id;
  stop_epoch = epoch;
  policy_version = policy;
  action_type = "UNDEFINED_PENDING_EXECUTION_GATEWAY";
  allowed_scope = derive_scope t.body;
  prohibited_effects = prohibited;
  human_approval_required = is_human r.body.disposition;
  single_use = true;
  disposition = if is_human r.body.disposition then pending_human_approval else policy_satisfied;
}

unfoldable pub authorization_envelope : Sha → DecisionRecord → TaskRecord → ℕ → String → Envelope
authorization_envelope sha256 r t epoch policy =
    let body = authorization_body sha256 r t epoch policy in
    record { body = body; envelope_hash = compute_authorization_envelope_hash sha256 body }

-- The tests behind the council's proof.
unfoldable pub bind_task : External → DecisionRecord → TaskRecord → Context → ℕ → String → Evaluated
bind_task ext r t c epoch policy =
    if not (r.body.task_id == t.body.task_id)
    then no_envelope task_identity_mismatch
    else if is_blocked t.body.disposition
    then no_envelope task_record_blocked
    else if not (context_current r c)
    then no_envelope context_already_stale
    else envelope (authorization_envelope ext.sha256 r t epoch policy)

-- `noEnvelope(proofResult.errorCode ?? "COUNCIL_PROOF_INELIGIBLE")`
unfoldable pub proof_reason : Verification → Reason
proof_reason v = elim v.error_code [ none ↦ council_proof_ineligible | some e ↦ proof_refused e ]

module _ (ext : External) (proof : Submitted) (registry : Registry) where
  -- R1, R2 and R3 want an eligible proof.
  unfoldable pub council_gate : DecisionRecord → Evaluated → Evaluated
  council_gate r next =
      let v = verify_council_quorum_proof ext.sha256 proof r registry in
      if not (needs_council r.body.risk_class)
      then next
      else if not v.authorization_evidence_eligible
      then no_envelope (proof_reason v)
      else next

  -- The tests on records that are valid, in the order of the code.
  unfoldable pub evaluate_records : DecisionRecord → TaskRecord → Context → ℕ → String → Evaluated
  evaluate_records r t c epoch policy =
      if not (policy == supported_policy)
      then no_envelope unsupported_policy_version
      else if is_denied r.body.disposition r.body.risk_class
      then no_envelope r4_hard_deny
      else if is_no_quorum r.body.disposition
      then no_envelope council_gate_not_met
      else if not (same_disposition (risk_disposition r.body.risk_class) r.body.disposition)
      then no_envelope risk_disposition_mismatch
      else council_gate r (bind_task ext r t c epoch policy)

  unfoldable pub evaluate_context :
      DecisionRecord → TaskRecord → Shaped Context → Option ℕ → String → Evaluated
  evaluate_context r t malformed epoch policy = no_envelope invalid_current_context
  evaluate_context r t (exact c) epoch policy =
      if not (valid_context c)
      then no_envelope invalid_current_context
      else if not (valid_stop_epoch epoch)
      then no_envelope invalid_stop_epoch
      else elim epoch [
        | none ↦ no_envelope invalid_stop_epoch
        | some n ↦ evaluate_records r t c n policy
      ]

  unfoldable pub evaluate_authorization :
      Shaped DecisionRecord → Shaped TaskRecord → Shaped Context → Option ℕ → String → Evaluated
  evaluate_authorization malformed t c epoch policy = no_envelope invalid_decision_record
  evaluate_authorization (exact r) malformed c epoch policy =
      if not (valid_decision_record ext r)
      then no_envelope invalid_decision_record
      else no_envelope invalid_task_record
  evaluate_authorization (exact r) (exact t) c epoch policy =
      if not (valid_decision_record ext r)
      then no_envelope invalid_decision_record
      else if not (valid_task_record ext t)
      then no_envelope invalid_task_record
      else evaluate_context r t c epoch policy
