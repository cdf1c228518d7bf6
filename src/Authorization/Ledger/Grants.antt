-- ===== src/Authorization/Ledger/Grants.antt =====
-- `issueGrant`, `revokeGrant`, `setCurrentContext` and `bumpStopEpoch`. The critical section of each
-- awaits nothing, so it is one step; the test of `bumpStopEpoch` stands before its lock.
use mihver.Prelude.{
  ℕ, String, Bool, true, false, not, ◌&&◌, Option, none, some, List, [], ◌∷◌, ◌++◌, ◌==◌, ltb, eqb,
  nonempty, is_hash64, if◌then◌else◌,
}
use mihver.Council.Types.{Shaped, exact, malformed, DecisionRecord}
use mihver.Council.Proof.{ProofError}
use mihver.Council.Proof.Verify.{needs_council}
use mihver.Authorization.Records.{
  External, TaskRecord, Context, Envelope, valid_decision_record, valid_task_record, valid_context,
  valid_stop_epoch,
}
use mihver.Authorization.Rederive.{Reason, Derived, blocked_by, derived}
use mihver.Authorization.Ledger.{
  GrantState, authorized, revoked, Grant, Simulation, SubmittedEnvelope,
  structurally_bounded_envelope, record_by_id, grant_by_hash, verify_canonical_council_proof,
  matching_tasks, rederive_for,
}
use mihver.Authorization.Ledger.Consume.{claims_text}

pub record GrantDetails : Type 0 where
  pub grant_id : String
  pub expires_at : String
  pub authorized_at : String

pub data GrantError : Type 0 where
  bad_envelope_shape invalid_grant_details record_unavailable task_unavailable : GrantError
  subject_blocked : Reason → GrantError
  subject_mismatch subject_epoch_not_current already_granted : GrantError
  subject_proof_ineligible : Option ProofError → GrantError
  invalid_grant grant_not_found grant_not_revocable invalid_revocation : GrantError

pub data Issued : Type 0 where
  issued : Grant → Issued
  issue_error : GrantError → Issued

module _ (ext : External) where
  abbrev pub parses : String → Bool
  parses t = elim (ext.date_parse t) [ none ↦ false | some instant ↦ true ]

  unfoldable pub valid_grant : Grant → Bool
  valid_grant g =
      nonempty g.grant_id
      && is_hash64 g.envelope_hash
      && nonempty g.approver_identity
      && valid_stop_epoch (some g.bound_stop_epoch)
      && parses g.expires_at
      && parses g.authorized_at
      && parses g.state_changed_at

  unfoldable pub valid_details : GrantDetails → Bool
  valid_details d = nonempty d.grant_id && parses d.expires_at && parses d.authorized_at

  unfoldable pub new_grant : Simulation → Envelope → GrantDetails → Grant
  new_grant s e d = record {
    grant_id = d.grant_id;
    envelope_hash = e.envelope_hash;
    approver_identity = s.privileged_approver_identity;
    bound_stop_epoch = s.current_stop_epoch;
    state = authorized;
    expires_at = d.expires_at;
    authorized_at = d.authorized_at;
    state_changed_at = d.authorized_at;
  }

  unfoldable pub has_grant : Simulation → Envelope → Bool
  has_grant s e = elim (grant_by_hash s.grants e.envelope_hash) [ none ↦ false | some g ↦ true ]

  -- The record behind the lookup: found and valid.
  unfoldable pub canonical_record : Simulation → SubmittedEnvelope → Option DecisionRecord
  canonical_record s sub = elim (record_by_id s.decision_records sub.decision_request_id) [
    | none ↦ none
    | some r ↦ if valid_decision_record ext r then some r else none
  ]

  unfoldable pub issue_for :
      Simulation
      → DecisionRecord
      → SubmittedEnvelope
      → GrantDetails
      → Envelope
      → Simulation × Issued
  issue_for s r sub d e =
      if not (claims_text sub.envelope_hash e.envelope_hash)
      then (s, issue_error subject_mismatch)
      else if not (eqb e.body.stop_epoch s.current_stop_epoch)
      then (s, issue_error subject_epoch_not_current)
      else if has_grant s e
      then (s, issue_error already_granted)
      else if needs_council r.body.risk_class
          && not (verify_canonical_council_proof ext s r).is_eligible
      then (
        s,
        issue_error (subject_proof_ineligible (verify_canonical_council_proof ext s r).error_code),
      )
      else if not (valid_grant (new_grant s e d))
      then (s, issue_error invalid_grant)
      else (record s { grants = s.grants ++ new_grant s e d ∷ [] }, issued (new_grant s e d))

  unfoldable pub issue_derived :
      Simulation → DecisionRecord → SubmittedEnvelope → GrantDetails → Derived → Simulation × Issued
  issue_derived s r sub d (blocked_by reason) = (s, issue_error (subject_blocked reason))
  issue_derived s r sub d (derived e) = issue_for s r sub d e

  unfoldable pub issue_task :
      Simulation
      → DecisionRecord
      → SubmittedEnvelope
      → GrantDetails
      → List TaskRecord
      → Simulation × Issued
  issue_task s r sub d (t ∷ []) =
      if not (valid_task_record ext t)
      then (s, issue_error task_unavailable)
      else issue_derived s r sub d (rederive_for ext s r t)
  issue_task s r sub d _ = (s, issue_error task_unavailable)

  unfoldable pub issue_grant :
      Simulation → Shaped SubmittedEnvelope → GrantDetails → Simulation × Issued
  issue_grant s malformed d = (s, issue_error bad_envelope_shape)
  issue_grant s (exact sub) d =
      if not (structurally_bounded_envelope sub)
      then (s, issue_error bad_envelope_shape)
      else if not (valid_details d)
      then (s, issue_error invalid_grant_details)
      else elim (canonical_record s sub) [
        | none ↦ (s, issue_error record_unavailable)
        | some r ↦ issue_task s r sub d (matching_tasks s r)
      ]

abbrev is_authorized : GrantState → Bool
is_authorized authorized = true
is_authorized _ = false

-- Sets a grant's state and the time of the change, in place.
unfoldable pub revoke_in : List Grant → String → String → List Grant
revoke_in [] hash at = []
revoke_in (g ∷ grants) hash at =
    if g.envelope_hash == hash
    then (record g { state = revoked; state_changed_at = at }) ∷ grants
    else g ∷ revoke_in grants hash at

abbrev lookup_claimed : List Grant → Option String → Option Grant
lookup_claimed grants none = none
lookup_claimed grants (some hash) = grant_by_hash grants hash

unfoldable pub revoke_located :
    Simulation → SubmittedEnvelope → String → Simulation × Option GrantError
revoke_located s sub at = elim (lookup_claimed s.grants sub.envelope_hash) [
  | none ↦ (s, some grant_not_found)
  | some g ↦
      if not (is_authorized g.state)
      then (s, some grant_not_revocable)
      else (record s { grants = revoke_in s.grants g.envelope_hash at }, none)
]

module _ (ext : External) where
  -- `none` beside the state: the grant was revoked.
  unfoldable pub revoke_grant :
      Simulation → Shaped SubmittedEnvelope → String → Simulation × Option GrantError
  revoke_grant s malformed at = (s, some invalid_revocation)
  revoke_grant s (exact sub) at =
      if not (structurally_bounded_envelope sub && parses ext at)
      then (s, some invalid_revocation)
      else elim (canonical_record ext s sub) [
        | none ↦ (s, some record_unavailable)
        | some r ↦ revoke_located s sub at
      ]

-- `setCurrentContext`; the result says whether it threw.
unfoldable pub set_current_context : Simulation → Shaped Context → Simulation × Bool
set_current_context s malformed = (s, false)
set_current_context s (exact c) =
    if valid_context c then (record s { current_context = c }, true) else (s, false)

-- The test of `bumpStopEpoch`, made before the write lock is asked for.
unfoldable pub bump_admits : Simulation → Option ℕ → Bool
bump_admits s epoch =
    valid_stop_epoch epoch && elim epoch [ none ↦ false | some n ↦ ltb s.current_stop_epoch n ]

-- The write under the lock.
unfoldable pub bump_applies : Simulation → ℕ → Simulation
bump_applies s n = record s { current_stop_epoch = n }

-- `bumpStopEpoch` when nothing runs between its test and its write.
unfoldable pub bump_stop_epoch : Simulation → Option ℕ → Simulation × Bool
bump_stop_epoch s none = (s, false)
bump_stop_epoch s (some n) = if bump_admits s (some n) then (bump_applies s n, true) else (s, false)
