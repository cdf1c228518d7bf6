-- ===== src/Authorization/Ledger/Sound.antt =====
-- What an ALLOW_ONCE of `checkAndConsume` establishes, and what a denial leaves.
use mihver.Prelude.{
  String, ◌≡◌, refl, ap, ◌∙◌, ◌⊎◌, inl, inr, true, Option, none, some, List, [], ◌∷◌, arith,
  Bool-cases,
}
use mihver.Council.Types.{exact, DecisionRecord}
use mihver.Authorization.Records.{
  External, TaskRecord, Envelope, valid_decision_record, valid_task_record,
}
use mihver.Authorization.Rederive.{context_current, Derived, blocked_by, derived}
use mihver.Authorization.Ledger.{
  Simulation, SubmittedEnvelope, structurally_bounded_envelope, record_by_id, matching_tasks,
  rederive_for,
}
use mihver.Authorization.Ledger.Consume.{
  allow_once, deny, Verdict, result, locate, prepare_task, prepare_from, prepare, decide,
  decide_prepared, check_located, check_and_consume,
}
use mihver.Authorization.Ledger.Decide.{Allowed, decide_cases}

-- The snapshot that an allowance rests on: the records found and valid when it was taken.
pub record Snapshot (ext : External) (s : Simulation) (sub : SubmittedEnvelope) : Type 0 where
  pub decision : DecisionRecord
  pub task : TaskRecord
  pub envelope : Envelope
  pub found : record_by_id s.decision_records sub.decision_request_id ≡ some decision
  pub decision_valid : valid_decision_record ext decision ≡ true
  pub only_task : matching_tasks s decision ≡ task ∷ []
  pub task_valid : valid_task_record ext task ≡ true
  pub current : context_current decision s.current_context ≡ true
  pub is_derived : rederive_for ext s decision task ≡ derived envelope

-- How `checkAndConsume` ends: denied before the hook with nothing changed, or decided behind it.
pub data Ending (ext : External) (hook : Simulation → Simulation) (s : Simulation)
    (sub : SubmittedEnvelope) (now : String) (d : Simulation × Verdict) : Type 0 where
  refused : (v : Verdict) → d ≡ (s, v) → v.outcome ≡ deny → Ending ext hook s sub now d
  decided :
      (snap : Snapshot ext s sub)
      → d ≡ decide ext (hook s) snap.decision sub snap.envelope s.current_stop_epoch now
      → Ending ext hook s sub now d

module _ (ext : External) (hook : Simulation → Simulation) (s : Simulation)
    (sub : SubmittedEnvelope) (now : String) where
  prepare-Ending :
      (r : DecisionRecord) (t : TaskRecord)
      → record_by_id s.decision_records sub.decision_request_id ≡ some r
      → valid_decision_record ext r ≡ true
      → matching_tasks s r ≡ t ∷ []
      → Ending ext hook s sub now (decide_prepared ext hook s r sub now (prepare_task ext s r t))
  unfolding prepare_task decide_prepared result
  prepare-Ending r t found valid only = elim (Bool-cases (valid_task_record ext t)) [
    | inr a ↦ rw a (refused _ refl refl)
    | inl a ↦ elim (Bool-cases (context_current r s.current_context)) [
      | inr b ↦ rw (a, b) (refused _ refl refl)
      | inl b ↦ derived_ending (rederive_for ext s r t) refl a b
    ]
  ]
    where
      derived_ending :
          (d : Derived)
          → rederive_for ext s r t ≡ d
          → valid_task_record ext t ≡ true
          → context_current r s.current_context ≡ true
          → Ending ext hook s sub now
              (decide_prepared ext hook s r sub now (prepare_task ext s r t))
      derived_ending (blocked_by reason) e a b = rw (a, b, e) (refused _ refl refl)
      derived_ending (derived env) e a b =
          rw (a, b, e)
            (decided
              (record {
                decision = r;
                task = t;
                envelope = env;
                found = found;
                decision_valid = valid;
                only_task = only;
                task_valid = a;
                current = b;
                is_derived = e;
              })
              refl)

  tasks-Ending :
      (r : DecisionRecord) (ts : List TaskRecord)
      → record_by_id s.decision_records sub.decision_request_id ≡ some r
      → valid_decision_record ext r ≡ true
      → matching_tasks s r ≡ ts
      → Ending ext hook s sub now (decide_prepared ext hook s r sub now (prepare_from ext s r ts))
  unfolding prepare_from
  tasks-Ending r (t ∷ []) found valid only = prepare-Ending r t found valid only
  tasks-Ending r [] found valid only = unfold decide_prepared result in refused _ refl refl
  tasks-Ending r (t ∷ u ∷ ts) found valid only =
      unfold decide_prepared result in refused _ refl refl

  record-Ending :
      (o : Option DecisionRecord)
      → record_by_id s.decision_records sub.decision_request_id ≡ o
      → structurally_bounded_envelope sub ≡ true
      → Ending ext hook s sub now (check_located ext hook s now (locate ext s (exact sub)))
  unfolding locate check_located result prepare
  record-Ending none e bounded = rw (bounded, e) (refused _ refl refl)
  record-Ending (some r) e bounded = elim (Bool-cases (valid_decision_record ext r)) [
    | inr bad ↦ rw (bounded, e, bad) (refused _ refl refl)
    | inl good ↦ rw (bounded, e, good) (tasks-Ending r (matching_tasks s r) e good refl)
  ]

  check-Ending : Ending ext hook s sub now (check_and_consume ext hook s (exact sub) now)
  unfolding check_and_consume
  check-Ending = elim (Bool-cases (structurally_bounded_envelope sub)) [
    | inl bounded ↦
        record-Ending (record_by_id s.decision_records sub.decision_request_id) refl bounded
    | inr loose ↦ unfold locate check_located result in rw loose (refused _ refl refl)
  ]

  -- What an allowance establishes: the snapshot, and the tests made behind the hook.
  pub record Justified : Type 0 where
    pub snapshot : Snapshot ext s sub
    pub tests :
        Allowed ext
          (hook s)
          snapshot.decision
          sub
          snapshot.envelope
          s.current_stop_epoch
          now
          (check_and_consume ext hook s (exact sub) now)

  -- An ALLOW_ONCE rests on a valid stored decision record, on its only task record, valid too, on a
  -- context that is the record's, on the envelope re-derived from them, on submitted claims that
  -- agree with it, on an eligible council proof for R1 to R3, on a standing grant if a human must
  -- approve; its identity was not consumed, and is now, with the grant. This holds whatever other
  -- tasks did to the simulation at the hook.
  pub check_and_consume-Justified :
      (check_and_consume ext hook s (exact sub) now).1.outcome ≡ allow_once → Justified
  check_and_consume-Justified h = elim check-Ending [
    | refused v e d ↦ absurd (ground (arith, ap (λ (x : Simulation × Verdict). x.1.outcome) e))
    | decided snap e ↦
        elim (decide_cases ext (hook s) snap.decision sub snap.envelope s.current_stop_epoch now) [
          | inl no_way ↦ absurd (
              unfold result in
              ground (arith, ap (λ (x : Simulation × Verdict). x.1.outcome) (e ∙ no_way.is_denial)))
          | inr ok ↦ record { snapshot = snap; tests = rw e ok }
        ]
  ]

  -- A denial leaves the simulation as it was, or as the other tasks left it at the hook.
  check_and_consume-deny :
      (check_and_consume ext hook s (exact sub) now).1.outcome ≡ deny
      → ((check_and_consume ext hook s (exact sub) now).0 ≡ s)
        ⊎ ((check_and_consume ext hook s (exact sub) now).0 ≡ hook s)
  check_and_consume-deny h = elim check-Ending [
    | refused v e d ↦ inl (ap (λ (x : Simulation × Verdict). x.0) e)
    | decided snap e ↦
        elim (decide_cases ext (hook s) snap.decision sub snap.envelope s.current_stop_epoch now) [
          | inl no_way ↦ inr (ap (λ (x : Simulation × Verdict). x.0) (e ∙ no_way.is_denial))
          | inr ok ↦ absurd (
              unfold result in
              ground (arith, ap (λ (x : Simulation × Verdict). x.1.outcome) (e ∙ ok.is_allowance)))
        ]
  ]
