-- ===== src/Authorization/Binder/Gate.antt =====
-- What an envelope of `evaluateAuthorization` establishes, and its agreement with the ledger.
use mihver.Council.Hashes.{Sha}
use mihver.Authorization.Binder.Scope.{canonical_scope-eq-derive_scope}
use mihver.Prelude.{ℕ, String, ◌≡◌, ◌≢◌, Bool, true, false, not, ◌||◌, some, arith, eq_iff, refl}
use mihver.Council.Types.{exact, RiskClass, r4, Disposition, DecisionRecord}
use mihver.Council.Proof.{Registry}
use mihver.Council.Proof.Verify.{Submitted, needs_council, verify_council_quorum_proof}
use mihver.Authorization.Records.{
  External, TaskRecord, Context, Envelope, supported_policy, risk_disposition, same_disposition,
  valid_decision_record, valid_task_record, valid_context, valid_stop_epoch,
  compute_authorization_envelope_hash, compute_authorization_id,
}
use mihver.Authorization.Rederive.{
  is_denied, is_no_quorum, is_blocked, envelope_of, context_current, derived, rederive_checked,
  rederive_envelope, envelope_body, compute_canonical_envelope_hash,
  derive_canonical_authorization_id,
}
use mihver.Authorization.Binder.{
  envelope, bind_task, council_gate, evaluate_records, evaluate_context, evaluate_authorization,
  authorization_body, authorization_envelope,
}

-- R1, R2 and R3 have an eligible proof.
unfoldable pub council_satisfied : External → Submitted → Registry → DecisionRecord → Bool
council_satisfied ext proof registry r =
    not (needs_council r.body.risk_class)
    || (verify_council_quorum_proof ext.sha256 proof r registry).authorization_evidence_eligible

-- What the tests of `evaluateAuthorization` let through.
pub record Admits (ext : External) (proof : Submitted) (registry : Registry) (r : DecisionRecord)
    (t : TaskRecord) (c : Context) (n : ℕ) (policy : String) (e : Envelope) : Type 0 where
  pub decision_valid : valid_decision_record ext r ≡ true
  pub task_valid : valid_task_record ext t ≡ true
  pub context_valid : valid_context c ≡ true
  pub epoch_valid : valid_stop_epoch (some n) ≡ true
  pub policy_supported : policy ≡ supported_policy
  pub not_denied : r.body.risk_class ≢ r4
  pub risk_matches : r.body.disposition ≡ risk_disposition r.body.risk_class
  pub council : council_satisfied ext proof registry r ≡ true
  pub same_task : r.body.task_id ≡ t.body.task_id
  pub not_blocked : is_blocked t.body.disposition ≡ false
  pub current : context_current r c ≡ true
  pub is_derived : e ≡ authorization_envelope ext.sha256 r t n policy

same_disposition-eq : (a b : Disposition) → same_disposition a b ≡ true → b ≡ a
same_disposition-eq a b h = ground arith

consistent :
    (risk : RiskClass) (d : Disposition)
    → d ≡ risk_disposition risk
    → risk ≢ r4
    → (is_denied d risk ≡ false)
      × (is_no_quorum d ≡ false)
      × (same_disposition (risk_disposition risk) d ≡ true)
unfolding risk_disposition
consistent risk d e h = ground arith

-- The two envelopes are the same.
envelope_of-eq-authorization_envelope :
    (sha256 : Sha) (r : DecisionRecord) (t : TaskRecord) (n : ℕ) (policy : String)
    → envelope_of sha256 r t n policy ≡ authorization_envelope sha256 r t n policy
unfolding envelope_of envelope_body authorization_envelope authorization_body
    compute_canonical_envelope_hash compute_authorization_envelope_hash
    derive_canonical_authorization_id compute_authorization_id
envelope_of-eq-authorization_envelope sha256 r t n policy =
    rw (canonical_scope-eq-derive_scope t.body) refl

module _ (ext : External) (proof : Submitted) (registry : Registry) (r : DecisionRecord)
    (t : TaskRecord) (c : Context) (n : ℕ) (policy : String) (e : Envelope) where
  bound_task :
      bind_task ext r t c n policy ≡ envelope e
      → (r.body.task_id ≡ t.body.task_id)
        × (is_blocked t.body.disposition ≡ false)
        × (context_current r c ≡ true)
        × (e ≡ authorization_envelope ext.sha256 r t n policy)
  unfolding bind_task
  bound_task h = ground (arith, eq_iff r.body.task_id t.body.task_id)

  passed_council :
      council_gate ext proof registry r (bind_task ext r t c n policy) ≡ envelope e
      → (council_satisfied ext proof registry r ≡ true)
        × (bind_task ext r t c n policy ≡ envelope e)
  unfolding council_gate council_satisfied
  passed_council h = ground arith

  passed_records :
      evaluate_records ext proof registry r t c n policy ≡ envelope e
      → (policy ≡ supported_policy)
        × (r.body.risk_class ≢ r4)
        × (r.body.disposition ≡ risk_disposition r.body.risk_class)
        × (council_gate ext proof registry r (bind_task ext r t c n policy) ≡ envelope e)
  unfolding evaluate_records
  passed_records h = ground (
    arith,
    eq_iff policy supported_policy,
    same_disposition-eq (risk_disposition r.body.risk_class) r.body.disposition,
  )

  passed_context :
      evaluate_authorization ext proof registry (exact r) (exact t) (exact c) (some n) policy
        ≡ envelope e
      → (valid_decision_record ext r ≡ true)
        × (valid_task_record ext t ≡ true)
        × (valid_context c ≡ true)
        × (valid_stop_epoch (some n) ≡ true)
        × (evaluate_records ext proof registry r t c n policy ≡ envelope e)
  unfolding evaluate_authorization evaluate_context
  passed_context h = ground arith

  -- An envelope is given only for a valid decision record and a valid task record of the same task,
  -- a valid and current context, a safe stop epoch, the supported policy, a risk class other than
  -- R4 whose disposition the record has, a task that is not blocked and, for R1 to R3, a council
  -- proof that verifies; and the envelope is the one derived from them.
  pub evaluate_authorization-Admits :
      evaluate_authorization ext proof registry (exact r) (exact t) (exact c) (some n) policy
        ≡ envelope e
      → Admits ext proof registry r t c n policy e
  evaluate_authorization-Admits h =
      let (valid, task_valid, context_valid, epoch_valid, records) = passed_context h in
      let (supported, not_denied, matches, council) = passed_records records in
      let (satisfied, binds) = passed_council council in
      let (same_task, not_blocked, current, is_derived) = bound_task binds in
      record {
        decision_valid = valid;
        task_valid = task_valid;
        context_valid = context_valid;
        epoch_valid = epoch_valid;
        policy_supported = supported;
        not_denied = not_denied;
        risk_matches = matches;
        council = satisfied;
        same_task = same_task;
        not_blocked = not_blocked;
        current = current;
        is_derived = is_derived;
      }

  rederive_checked-Admits :
      Admits ext proof registry r t c n policy e
      → rederive_checked ext.sha256 r t c n policy ≡ derived e
  unfolding rederive_checked
  rederive_checked-Admits a = ground (
    arith,
    consistent r.body.risk_class r.body.disposition a.risk_matches a.not_denied,
    envelope_of-eq-authorization_envelope ext.sha256 r t n policy,
  )

  -- The ledger re-derives, with its own scope, digests and body and from the same records, context,
  -- epoch and policy, exactly the envelope that the binder gave.
  pub rederive_envelope-eq-evaluate_authorization :
      evaluate_authorization ext proof registry (exact r) (exact t) (exact c) (some n) policy
        ≡ envelope e
      → rederive_envelope ext.sha256 r t (exact c) (some n) policy ≡ derived e
  unfolding rederive_envelope
  rederive_envelope-eq-evaluate_authorization h =
      let a : Admits ext proof registry r t c n policy e = evaluate_authorization-Admits h in
      ground (arith, eq_iff policy supported_policy, rederive_checked-Admits a)
