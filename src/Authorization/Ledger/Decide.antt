-- ===== src/Authorization/Ledger/Decide.antt =====
-- The two ways in which the decision of `checkAndConsume` ends.
use mihver.Prelude.{
  ℕ, String, ◌≡◌, refl, ◌⊎◌, inl, inr, true, false, not, ◌&&◌, ◌||◌, Option, some, arith,
  Bool-cases,
}
use mihver.Council.Types.{DecisionRecord}
use mihver.Council.Proof.Verify.{needs_council}
use mihver.Authorization.Records.{External, Envelope}
use mihver.Authorization.Rederive.{
  Reason, council_gate_not_met, expired_by_drift, revoked_by_stop_epoch,
  envelope_recomputation_mismatch, replay_rejected, policy_is_satisfied,
}
use mihver.Authorization.Ledger.{
  Grant, Simulation, SubmittedEnvelope, verify_canonical_council_proof, authorization_id_of,
  is_consumed,
}
use mihver.Authorization.Ledger.Consume.{
  allow_once, deny, Verdict, result, Approval, objection, approval, approval_of, claims_epoch,
  claims_text, consume, decide_approved, decide,
}

module _ (ext : External) (s : Simulation) (r : DecisionRecord) (sub : SubmittedEnvelope)
    (e : Envelope) (epoch : ℕ) (now : String) where
  -- A denial: nothing changes.
  pub record Denied (d : Simulation × Verdict) : Type 0 where
    pub reason : Reason
    pub is_denial : d ≡ (s, result deny reason (some (authorization_id_of ext r)))

  -- An allowance: what was tested, and the consumption.
  pub record Allowed (d : Simulation × Verdict) : Type 0 where
    pub grant : Option Grant
    pub fresh : is_consumed s (authorization_id_of ext r) ≡ false
    pub approved : approval_of ext s e epoch now ≡ approval grant
    pub council :
        (not (needs_council r.body.risk_class)
          || (verify_canonical_council_proof ext s r).is_eligible)
        ≡ true
    pub epoch_claimed : claims_epoch sub e.body.stop_epoch ≡ true
    pub hash_claimed : claims_text sub.envelope_hash e.envelope_hash ≡ true
    pub is_allowance : d ≡ (
      consume ext s r grant,
      result allow_once policy_is_satisfied (some (authorization_id_of ext r)),
    )

  decide_approved_cases :
      (a : Approval)
      → approval_of ext s e epoch now ≡ a
      → is_consumed s (authorization_id_of ext r) ≡ false
      → claims_epoch sub e.body.stop_epoch ≡ true
      → claims_text sub.envelope_hash e.envelope_hash ≡ true
      → Denied (decide_approved ext s r a) ⊎ Allowed (decide_approved ext s r a)
  unfolding decide_approved
  decide_approved_cases (objection reason) h fresh c k =
      inl (record { reason = reason; is_denial = refl })
  decide_approved_cases (approval g) h fresh c k =
      elim (Bool-cases (
        needs_council r.body.risk_class
        && not (verify_canonical_council_proof ext s r).is_eligible)) [
          | inl bad ↦ inl (record { reason = council_gate_not_met; is_denial = ground arith })
          | inr good ↦ inr (record {
            grant = g;
            fresh = fresh;
            approved = h;
            council = ground arith;
            epoch_claimed = c;
            hash_claimed = k;
            is_allowance = ground arith;
          })
        ]

  pub decide_cases :
      Denied (decide ext s r sub e epoch now) ⊎ Allowed (decide ext s r sub e epoch now)
  unfolding decide
  decide_cases = elim (Bool-cases (claims_epoch sub e.body.stop_epoch)) [
    | inr a ↦ inl (record { reason = revoked_by_stop_epoch; is_denial = ground arith })
    | inl a ↦
        elim (Bool-cases (
          claims_text sub.context_hash e.body.context_hash
          && claims_text sub.repository_head e.body.repository_head)) [
            | inr b ↦ inl (record { reason = expired_by_drift; is_denial = ground arith })
            | inl b ↦ elim (Bool-cases (claims_text sub.envelope_hash e.envelope_hash)) [
              | inr c ↦
                  inl
                    (record { reason = envelope_recomputation_mismatch; is_denial = ground arith })
              | inl c ↦ elim (Bool-cases (is_consumed s (authorization_id_of ext r))) [
                | inl d ↦ inl (record { reason = replay_rejected; is_denial = ground arith })
                | inr d ↦
                    rw (a, b, c, d)
                      (decide_approved_cases (approval_of ext s e epoch now) refl d a c)
              ]
            ]
          ]
  ]
