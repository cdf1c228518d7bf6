-- ===== src/Authorization/Rederive.antt =====
-- `rederiveEnvelope` of scripts/dev/authorization-ledger-simulator.mjs, with the ledger's own scope,
-- digests and body of an envelope, and the reasons and tests that it has in common with
-- scripts/dev/authorization-binder.mjs.
use mihver.Json.{units}
use Prim.Native.String
use mihver.Prelude.{
  ℕ, String, Bool, true, false, not, ◌&&◌, Option, none, some, ◌==◌, if◌then◌else◌, List, [], ◌∷◌,
  ◌++◌, includes,
}
use mihver.Council.Types.{
  Shaped, exact, malformed, RiskClass, r4, Disposition, human_approval_required, without_quorum,
  hard_denied, DecisionRecord,
}
use mihver.Council.Hashes.{Sha, digest}
use mihver.Council.Proof.{ProofError}
use mihver.Authorization.Records.{
  TaskDisposition, blocked, TaskRecord, Context, pending_human_approval, policy_satisfied,
  EnvelopeBody, Envelope, supported_policy, risk_disposition, same_disposition, valid_context,
  valid_stop_epoch, TaskBody, envelope_json,
}

-- Why there is no envelope, or why the ledger denies.
pub data Reason : Type 0 where
  invalid_decision_record invalid_task_record invalid_current_context invalid_stop_epoch : Reason
  unsupported_policy_version r4_hard_deny council_gate_not_met risk_disposition_mismatch : Reason
  proof_refused : ProofError → Reason
  council_proof_ineligible task_identity_mismatch task_record_blocked context_already_stale : Reason
  invalid_envelope_shape decision_record_not_found record_hash_mismatch : Reason
  task_record_lookup_ambiguous task_record_hash_mismatch expired_by_drift : Reason
  revoked_by_stop_epoch envelope_recomputation_mismatch replay_rejected no_valid_grant : Reason
  grant_revoked_by_stop_epoch invalid_now grant_expired policy_is_satisfied : Reason
  duplicate_authorization_id : Reason

abbrev pub is_human : Disposition → Bool
is_human human_approval_required = true
is_human _ = false

abbrev pub is_denied : Disposition → RiskClass → Bool
is_denied hard_denied risk = true
is_denied d r4 = true
is_denied _ _ = false

abbrev pub is_no_quorum : Disposition → Bool
is_no_quorum without_quorum = true
is_no_quorum _ = false

abbrev pub is_blocked : TaskDisposition → Bool
is_blocked blocked = true
is_blocked _ = false

-- `PROHIBITED_EFFECTS` of the ledger
abbrev pub prohibited_effects : List String
prohibited_effects =
    "GIT_PUSH" ∷ "GIT_FORCE_PUSH" ∷ "PR_CREATE" ∷ "PR_MERGE" ∷ "MAIN_BRANCH_MUTATION"
    ∷ "PUBLICATION_BROKER_INVOCATION" ∷ "CREDENTIAL_ACCESS" ∷ "TOOL_EXECUTION"
    ∷ "COUNCIL_SCOPE_SELF_EXPANSION" ∷ "EXECUTION_GATEWAY_BYPASS" ∷ []

unfoldable pub derive_canonical_authorization_id : Sha → String → String → String
derive_canonical_authorization_id sha256 request_id record_hash = String.◌++◌ "sha256:" (
    sha256 (
      units "MIHVER:AuthorizationEnvelope:AuthorizationId:v1\0"
      ++ units (String.◌++◌ request_id (String.◌++◌ "\0" record_hash))))

unfoldable pub compute_canonical_envelope_hash : Sha → EnvelopeBody → String
compute_canonical_envelope_hash sha256 e =
    digest sha256 "MIHVER:AuthorizationEnvelope:v1\0" (envelope_json e)

-- The loop of `canonicalScope`: what was seen, and the scope so far.
unfoldable pub canonical_tokens :
    List String → List String → List String → List String → List String
canonical_tokens forbidden seen scope [] = scope
canonical_tokens forbidden seen scope (token ∷ tokens) =
    let kept = canonical_tokens forbidden (token ∷ seen) (scope ++ token ∷ []) tokens in
    let skipped = canonical_tokens forbidden seen scope tokens in
    if not (includes forbidden token) && not (includes seen token) then kept else skipped

abbrev pub tokens_or_none : Option (List String) → List String
tokens_or_none none = []
tokens_or_none (some tokens) = tokens

unfoldable pub canonical_scope : TaskBody → List String
canonical_scope t = canonical_tokens (tokens_or_none t.forbidden_scope) [] [] t.allowed_scope

-- The body that the ledger derives.
unfoldable pub envelope_body : Sha → DecisionRecord → TaskRecord → ℕ → String → EnvelopeBody
envelope_body sha256 r t epoch policy = record {
  protocol_version = "1.0.0";
  authorization_id =
      derive_canonical_authorization_id sha256 r.body.decision_request_id r.record_hash;
  decision_request_id = r.body.decision_request_id;
  record_hash = r.record_hash;
  candidate_hash = r.body.candidate_hash;
  task_id = r.body.task_id;
  risk_class = r.body.risk_class;
  context_hash = r.body.context_hash;
  repository_head = r.body.repository_head;
  council_epoch_id = r.body.council_epoch_id;
  stop_epoch = epoch;
  policy_version = policy;
  action_type = "UNDEFINED_PENDING_EXECUTION_GATEWAY";
  allowed_scope = canonical_scope t.body;
  prohibited_effects = prohibited_effects;
  human_approval_required = is_human r.body.disposition;
  single_use = true;
  disposition = if is_human r.body.disposition then pending_human_approval else policy_satisfied;
}

unfoldable pub envelope_of : Sha → DecisionRecord → TaskRecord → ℕ → String → Envelope
envelope_of sha256 r t epoch policy =
    let body = envelope_body sha256 r t epoch policy in
    record { body = body; envelope_hash = compute_canonical_envelope_hash sha256 body }

pub data Derived : Type 0 where
  blocked_by : Reason → Derived
  derived : Envelope → Derived

unfoldable pub context_current : DecisionRecord → Context → Bool
context_current r c =
    r.body.context_hash == c.context_hash && r.body.repository_head == c.repository_head

unfoldable pub rederive_checked : Sha → DecisionRecord → TaskRecord → Context → ℕ → String → Derived
rederive_checked sha256 r t c epoch policy =
    if is_denied r.body.disposition r.body.risk_class
    then blocked_by r4_hard_deny
    else if is_no_quorum r.body.disposition
    then blocked_by council_gate_not_met
    else if not (same_disposition (risk_disposition r.body.risk_class) r.body.disposition)
    then blocked_by risk_disposition_mismatch
    else if is_blocked t.body.disposition
    then blocked_by task_record_blocked
    else if not (context_current r c)
    then blocked_by context_already_stale
    else derived (envelope_of sha256 r t epoch policy)

unfoldable pub rederive_envelope :
    Sha → DecisionRecord → TaskRecord → Shaped Context → Option ℕ → String → Derived
rederive_envelope sha256 r t malformed epoch policy =
    if not (policy == supported_policy)
    then blocked_by unsupported_policy_version
    else blocked_by invalid_current_context
rederive_envelope sha256 r t (exact c) epoch policy =
    if not (policy == supported_policy)
    then blocked_by unsupported_policy_version
    else if not (valid_context c)
    then blocked_by invalid_current_context
    else if not (valid_stop_epoch epoch)
    then blocked_by invalid_stop_epoch
    else elim epoch [
      | none ↦ blocked_by invalid_stop_epoch
      | some n ↦ rederive_checked sha256 r t c n policy
    ]
