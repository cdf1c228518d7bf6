-- ===== src/Authorization/Ledger.antt =====
-- `LedgerSimulation` of scripts/dev/authorization-ledger-simulator.mjs: its state and the checks
-- that its methods share. The methods stand in the modules below.
-- The constructor's context is taken to be an object with two texts, and its stop epoch a
-- non-negative integer.
pub mod Construct
pub mod Consume
pub mod Grants
pub mod Decide
pub mod Once
pub mod Sound
pub mod Fencing
use mihver.Prelude.{
  ℕ, ◌≤◌, String, Bool, true, false, not, ◌&&◌, ◌||◌, Option, none, some, List, [], ◌∷◌, ◌++◌, ◌==◌,
  find, any, keep, length, leb, nonempty, is_hash64, if◌then◌else◌,
}
use Prim.Native.String
use mihver.Json.{units}
use mihver.Council.Types.{Shaped, exact, malformed, DecisionRecord}
use mihver.Council.Proof.{ProofError, proof_missing, Registry}
use mihver.Council.Proof.Verify.{Submitted, Verification, verify_council_quorum_proof}
use mihver.Authorization.Records.{
  External, TaskRecord, Context, Envelope, supported_policy, compute_authorization_id,
  valid_decision_record, valid_task_record, valid_stop_epoch,
}
use mihver.Authorization.Rederive.{
  Reason, task_record_lookup_ambiguous, task_record_hash_mismatch, expired_by_drift,
  context_current, Derived, blocked_by, derived, rederive_envelope,
  derive_canonical_authorization_id,
}

pub data GrantState : Type 0 where
  authorized consumed revoked expired : GrantState

pub record Grant : Type 0 where
  pub grant_id : String
  pub envelope_hash : String
  pub approver_identity : String
  pub bound_stop_epoch : ℕ
  pub state : GrantState
  pub expires_at : String
  pub authorized_at : String
  pub state_changed_at : String

pub record Simulation : Type 0 where
  pub decision_records : List DecisionRecord
  pub council_quorum_proofs : List (String × Submitted)
  pub task_records : List TaskRecord
  pub grants : List Grant
  -- the identities whose ledger state is CONSUMED
  pub ledger : List String
  pub current_context : Context
  pub current_stop_epoch : ℕ
  pub policy_version : String
  pub privileged_approver_identity : String
  pub trusted_registry : Registry

-- A submitted envelope: an own object with an own `decisionRecordRef`. A claim that is absent or of
-- another type is `none`; the counts are those of the objects' keys.
pub record SubmittedEnvelope : Type 0 where
  pub decision_request_id : String
  pub stop_epoch : Option ℕ
  pub context_hash : Option String
  pub repository_head : Option String
  pub envelope_hash : Option String
  pub keys : ℕ
  pub ref_keys : ℕ

unfoldable pub structurally_bounded_envelope : SubmittedEnvelope → Bool
structurally_bounded_envelope e =
    nonempty e.decision_request_id
    && leb (length (units e.decision_request_id)) 4096
    && leb e.keys 64
    && leb e.ref_keys 16

-- `this.#decisionRecords.get(id)`
unfoldable pub record_by_id : List DecisionRecord → String → Option DecisionRecord
record_by_id records id = find (λ r. r.body.decision_request_id == id) records

-- `this.#grantsByHash.get(hash)`
unfoldable pub grant_by_hash : List Grant → String → Option Grant
grant_by_hash grants hash = find (λ g. g.envelope_hash == hash) grants

-- Sets a grant's state in place.
unfoldable pub set_grant_state : List Grant → String → GrantState → List Grant
set_grant_state [] hash state = []
set_grant_state (g ∷ grants) hash state =
    if g.envelope_hash == hash
    then (record g { state = state }) ∷ grants
    else g ∷ set_grant_state grants hash state

unfoldable pub proof_by_identity : List (String × Submitted) → String → Option Submitted
proof_by_identity [] identity = none
proof_by_identity ((i, p) ∷ rest) identity =
    if i == identity then some p else proof_by_identity rest identity

-- `${decisionRequestId}\0${recordHash}`
unfoldable pub decision_record_identity : DecisionRecord → String
decision_record_identity r = String.◌++◌ r.body.decision_request_id (String.◌++◌ "\0" r.record_hash)

-- Whether the stored proof of a record is eligible, and the error code if it is not.
pub record ProofResult : Type 0 where
  pub is_eligible : Bool
  pub error_code : Option ProofError

unfoldable pub verify_canonical_council_proof : External → Simulation → DecisionRecord → ProofResult
verify_canonical_council_proof ext s r =
    elim (proof_by_identity s.council_quorum_proofs (decision_record_identity r)) [
      | none ↦ record { is_eligible = false; error_code = some proof_missing }
      | some p ↦
          let v = verify_council_quorum_proof ext.sha256 p r s.trusted_registry in
          record { is_eligible = v.authorization_evidence_eligible; error_code = v.error_code }
    ]

abbrev pub authorization_id_of : External → DecisionRecord → String
authorization_id_of ext r =
    derive_canonical_authorization_id ext.sha256 r.body.decision_request_id r.record_hash

-- The task records of the decision's task.
unfoldable pub matching_tasks : Simulation → DecisionRecord → List TaskRecord
matching_tasks s r = keep (λ t. t.body.task_id == r.body.task_id) s.task_records

-- The envelope that the state gives for a record, from its only task record.
unfoldable pub rederive_for : External → Simulation → DecisionRecord → TaskRecord → Derived
rederive_for ext s r t =
    rederive_envelope ext.sha256 r t (exact s.current_context) (some s.current_stop_epoch)
      s.policy_version

-- `ledgerState` and `grantState`
unfoldable pub is_consumed : Simulation → String → Bool
is_consumed s id = any (λ consumed_id. consumed_id == id) s.ledger

unfoldable pub grant_state : Simulation → String → Option GrantState
grant_state s hash = elim (grant_by_hash s.grants hash) [ none ↦ none | some g ↦ some g.state ]
