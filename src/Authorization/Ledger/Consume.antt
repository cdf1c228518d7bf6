-- ===== src/Authorization/Ledger/Consume.antt =====
-- `checkAndConsume`. The locked section awaits a test hook between the re-derivation and the
-- decision: what other tasks do to the simulation meanwhile is the function `hook`.
use mihver.Prelude.{
  ℕ, String, Bool, true, false, not, ◌&&◌, Option, none, some, List, [], ◌∷◌, ◌++◌, ◌==◌, leb, eqb,
  if◌then◌else◌,
}
use mihver.Council.Types.{Shaped, exact, malformed, DecisionRecord}
use mihver.Council.Proof.Verify.{needs_council}
use mihver.Authorization.Records.{
  External, TaskRecord, Envelope, EnvelopeDisposition, pending_human_approval, policy_satisfied,
  valid_decision_record, valid_task_record,
}
use mihver.Authorization.Rederive.{
  Reason, council_gate_not_met, invalid_envelope_shape, decision_record_not_found,
  record_hash_mismatch, task_record_lookup_ambiguous, task_record_hash_mismatch, expired_by_drift,
  revoked_by_stop_epoch, envelope_recomputation_mismatch, replay_rejected, no_valid_grant,
  grant_revoked_by_stop_epoch, invalid_now, grant_expired, policy_is_satisfied, context_current,
  blocked_by, derived,
}
use mihver.Authorization.Ledger.{
  GrantState, authorized, consumed, Grant, Simulation, SubmittedEnvelope,
  structurally_bounded_envelope, record_by_id, grant_by_hash, set_grant_state,
  verify_canonical_council_proof, authorization_id_of, matching_tasks, rederive_for, is_consumed,
}

pub data LedgerOutcome : Type 0 where
  allow_once deny : LedgerOutcome

pub record Verdict : Type 0 where
  pub outcome : LedgerOutcome
  pub reason : Reason
  pub canonical_authorization_id : Option String
  pub ledger_disposition : Option EnvelopeDisposition

unfoldable pub result : LedgerOutcome → Reason → Option String → Verdict
result outcome reason id = record {
  outcome = outcome;
  reason = reason;
  canonical_authorization_id = id;
  ledger_disposition = elim outcome [ allow_once ↦ some policy_satisfied | deny ↦ none ];
}

abbrev pub denied : Reason → Option String → Verdict
denied reason id = result deny reason id

-- Steps 1 to 3: the canonical record, before any lock.
pub data Located : Type 0 where
  not_located : Verdict → Located
  located : DecisionRecord → SubmittedEnvelope → Located

-- Under the lock: the re-derived envelope and the stop epoch that was read.
pub data Prepared : Type 0 where
  unprepared : Reason → Prepared
  prepared : Envelope → ℕ → Prepared

-- What an envelope still lacks: a human's grant if it is pending; `some grant` is the one to
-- consume.
pub data Approval : Type 0 where
  objection : Reason → Approval
  approval : Option Grant → Approval

-- `envelope.stopEpoch !== submittedEnvelope.stopEpoch`, and so on
unfoldable pub claims_epoch : SubmittedEnvelope → ℕ → Bool
claims_epoch e n = elim e.stop_epoch [ none ↦ false | some m ↦ eqb n m ]

unfoldable pub claims_text : Option String → String → Bool
claims_text none s = false
claims_text (some t) s = s == t

abbrev is_authorized : GrantState → Bool
is_authorized authorized = true
is_authorized _ = false

unfoldable pub consume_grant : List Grant → Option Grant → List Grant
consume_grant grants none = grants
consume_grant grants (some g) = set_grant_state grants g.envelope_hash consumed

module _ (ext : External) where
  unfoldable pub locate : Simulation → Shaped SubmittedEnvelope → Located
  locate s malformed = not_located (denied invalid_envelope_shape none)
  locate s (exact e) =
      if not (structurally_bounded_envelope e)
      then not_located (denied invalid_envelope_shape none)
      else elim (record_by_id s.decision_records e.decision_request_id) [
        | none ↦ not_located (denied decision_record_not_found none)
        | some r ↦
            if not (valid_decision_record ext r)
            then not_located (denied record_hash_mismatch none)
            else located r e
      ]

  unfoldable pub prepare_task : Simulation → DecisionRecord → TaskRecord → Prepared
  prepare_task s r t =
      if not (valid_task_record ext t)
      then unprepared task_record_hash_mismatch
      else if not (context_current r s.current_context)
      then unprepared expired_by_drift
      else elim (rederive_for ext s r t) [
        | blocked_by reason ↦ unprepared reason
        | derived e ↦ prepared e s.current_stop_epoch
      ]

  unfoldable pub prepare_from : Simulation → DecisionRecord → List TaskRecord → Prepared
  prepare_from s r (t ∷ []) = prepare_task s r t
  prepare_from s r _ = unprepared task_record_lookup_ambiguous

  unfoldable pub prepare : Simulation → DecisionRecord → Prepared
  unfolding prepare_from
  prepare s r = prepare_from s r (matching_tasks s r)

  -- Whether the grant stands; `none` if it does.
  unfoldable pub grant_objection : Grant → ℕ → String → Option Reason
  grant_objection g epoch now =
      if not (is_authorized g.state)
      then some no_valid_grant
      else if not (eqb g.bound_stop_epoch epoch)
      then some grant_revoked_by_stop_epoch
      else elim (ext.date_parse now) [
        | none ↦ some invalid_now
        | some instant ↦ elim (ext.date_parse g.expires_at) [
          -- a comparison with NaN is false
          | none ↦ none
          | some expiry ↦ if leb expiry instant then some grant_expired else none
        ]
      ]

  unfoldable pub approval_of : Simulation → Envelope → ℕ → String → Approval
  approval_of s e epoch now = elim e.body.disposition [
    | policy_satisfied ↦ approval none
    | pending_human_approval ↦ elim (grant_by_hash s.grants e.envelope_hash) [
      | none ↦ objection no_valid_grant
      | some g ↦ elim (grant_objection g epoch now) [
        | some reason ↦ objection reason
        | none ↦ approval (some g)
      ]
    ]
  ]

  unfoldable pub consume : Simulation → DecisionRecord → Option Grant → Simulation
  unfolding consume_grant
  consume s r g = record s {
    grants = consume_grant s.grants g;
    ledger = s.ledger ++ authorization_id_of ext r ∷ [];
  }

  unfoldable pub decide_approved : Simulation → DecisionRecord → Approval → Simulation × Verdict
  decide_approved s r (objection reason) = (s, denied reason (some (authorization_id_of ext r)))
  decide_approved s r (approval g) =
      if needs_council r.body.risk_class && not (verify_canonical_council_proof ext s r).is_eligible
      then (s, denied council_gate_not_met (some (authorization_id_of ext r)))
      else (consume s r g, result allow_once policy_is_satisfied (some (authorization_id_of ext r)))

  -- The decision behind the hook: no other task runs inside it.
  unfoldable pub decide :
      Simulation → DecisionRecord → SubmittedEnvelope → Envelope → ℕ → String → Simulation × Verdict
  decide s r sub e epoch now =
      let id = some (authorization_id_of ext r) in
      if not (claims_epoch sub e.body.stop_epoch)
      then (s, denied revoked_by_stop_epoch id)
      else if not (
          claims_text sub.context_hash e.body.context_hash
          && claims_text sub.repository_head e.body.repository_head)
      then (s, denied expired_by_drift id)
      else if not (claims_text sub.envelope_hash e.envelope_hash)
      then (s, denied envelope_recomputation_mismatch id)
      else if is_consumed s (authorization_id_of ext r)
      then (s, denied replay_rejected id)
      else decide_approved s r (approval_of s e epoch now)

  unfoldable pub decide_prepared :
      (Simulation → Simulation)
      → Simulation
      → DecisionRecord
      → SubmittedEnvelope
      → String
      → Prepared
      → Simulation × Verdict
  decide_prepared hook s r sub now (unprepared reason) =
      (s, denied reason (some (authorization_id_of ext r)))
  decide_prepared hook s r sub now (prepared e epoch) = decide (hook s) r sub e epoch now

  unfoldable pub check_located :
      (Simulation → Simulation) → Simulation → String → Located → Simulation × Verdict
  check_located hook s now (not_located v) = (s, v)
  check_located hook s now (located r sub) = decide_prepared hook s r sub now (prepare s r)

  unfoldable pub check_and_consume :
      (Simulation → Simulation)
      → Simulation
      → Shaped SubmittedEnvelope
      → String
      → Simulation × Verdict
  check_and_consume hook s envelope now = check_located hook s now (locate s envelope)
