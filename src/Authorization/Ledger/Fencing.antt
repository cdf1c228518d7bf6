-- ===== src/Authorization/Ledger/Fencing.antt =====
-- Fences of the ledger: stop epochs, hard denials and human grants.
use mihver.Prelude.{
  ℕ, ◌<◌, ◌≤◌, String, ◌≡◌, ◌≢◌, refl, ap, ◌∙◌, sym, ◌↔◌, inl, inr, true, false, Option, none, some,
  List, [], ◌∷◌, arith, ◌==◌, eq_iff, find, find_sound, Option-cases,
}
use mihver.Council.Types.{exact, r4, human_approval_required, DecisionRecord}
use mihver.Council.Hashes.{Sha}
use mihver.Authorization.Records.{
  External, TaskRecord, Context, Envelope, pending_human_approval, risk_disposition,
  same_disposition, valid_stop_epoch,
}
use mihver.Authorization.Rederive.{
  is_blocked, envelope_body, envelope_of, derived, rederive_checked, rederive_envelope,
}
use mihver.Authorization.Ledger.{
  GrantState, authorized, consumed, Grant, Simulation, SubmittedEnvelope, record_by_id,
  grant_by_hash, set_grant_state, grant_state, rederive_for,
}
use mihver.Authorization.Ledger.Consume.{
  allow_once, Verdict, claims_epoch, claims_text, approval, approval_of, grant_objection,
  consume_grant, consume, check_and_consume,
}
use mihver.Authorization.Ledger.Sound.{Justified, check_and_consume-Justified}
use mihver.Authorization.Ledger.Grants.{bump_admits, bump_applies, bump_stop_epoch}

rederived :
    (sha256 : Sha) (r : DecisionRecord) (t : TaskRecord) (c : Context) (n : ℕ) (policy : String)
    (e : Envelope)
    → rederive_envelope sha256 r t (exact c) (some n) policy ≡ derived e
    → (e ≡ envelope_of sha256 r t n policy)
      × (r.body.risk_class ≢ r4)
      × (is_blocked t.body.disposition ≡ false)
      × (same_disposition (risk_disposition r.body.risk_class) r.body.disposition ≡ true)
unfolding rederive_envelope rederive_checked
rederived sha256 r t c n policy e h = ground arith

human_pending :
    (sha256 : Sha) (r : DecisionRecord) (t : TaskRecord) (n : ℕ) (policy : String)
    → r.body.disposition ≡ human_approval_required
    → (envelope_of sha256 r t n policy).body.disposition ≡ pending_human_approval
unfolding envelope_of envelope_body
human_pending sha256 r t n policy h = ground arith

grant_by_hash-hash :
    (grants : List Grant) (hash : String) (g : Grant)
    → grant_by_hash grants hash ≡ some g
    → g.envelope_hash ≡ hash
unfolding grant_by_hash
grant_by_hash-hash grants hash g h =
    (eq_iff g.envelope_hash hash).0 (find_sound (λ (x : Grant). x.envelope_hash == hash) grants h)

grant_by_hash-set_grant_state :
    (grants : List Grant) (hash : String) (g : Grant) (state : GrantState)
    → grant_by_hash grants hash ≡ some g
    → grant_by_hash (set_grant_state grants hash state) hash ≡ some (record g { state = state })
unfolding grant_by_hash set_grant_state find
grant_by_hash-set_grant_state [] hash g state h = ground arith
grant_by_hash-set_grant_state (x ∷ grants) hash g state h =
    ground (arith, grant_by_hash-set_grant_state grants hash g state)

-- A human's grant stands: it is authorized, bound to the epoch, and `now` parses and lies before
-- its expiry, if that parses.
pub record Standing (ext : External) (g : Grant) (epoch : ℕ) (now : String) : Type 0 where
  pub is_authorized : g.state ≡ authorized
  pub bound : g.bound_stop_epoch ≡ epoch
  pub instant : ℕ
  pub parsed : ext.date_parse now ≡ some instant
  -- an expiry that does not parse never passes
  pub unexpired : (expiry : ℕ) → ext.date_parse g.expires_at ≡ some expiry → instant < expiry

Standing-of_no_objection :
    (ext : External) (g : Grant) (epoch : ℕ) (now : String)
    → grant_objection ext g epoch now ≡ none
    → Standing ext g epoch now
unfolding grant_objection
Standing-of_no_objection ext g epoch now h = elim (Option-cases (ext.date_parse now)) [
  | inl e ↦ absurd (ground arith)
  | inr (i, e) ↦ record {
    is_authorized = ground arith;
    bound = ground arith;
    instant = i;
    parsed = e;
    unexpired = λ expiry parses. ground arith;
  }
]

-- A pending envelope is approved only by a standing grant, the one that is consumed.
record PendingApproved (ext : External) (s : Simulation) (e : Envelope) (epoch : ℕ) (now : String)
    (grant : Option Grant) : Type 0 where
  g : Grant
  is_it : grant ≡ some g
  found : grant_by_hash s.grants e.envelope_hash ≡ some g
  standing : Standing ext g epoch now

approved_pending :
    (ext : External) (s : Simulation) (e : Envelope) (epoch : ℕ) (now : String)
    (grant : Option Grant)
    → e.body.disposition ≡ pending_human_approval
    → approval_of ext s e epoch now ≡ approval grant
    → PendingApproved ext s e epoch now grant
unfolding approval_of
approved_pending ext s e epoch now grant pending h =
    elim (Option-cases (grant_by_hash s.grants e.envelope_hash)) [
      | inl n ↦ absurd (ground arith)
      | inr (g, f) ↦ elim (Option-cases (grant_objection ext g epoch now)) [
        | inr (reason, o) ↦ absurd (ground arith)
        | inl o ↦ record {
          g = g;
          is_it = ground arith;
          found = f;
          standing = Standing-of_no_objection ext g epoch now o;
        }
      ]
    ]

grant_state-consume :
    (ext : External) (s : Simulation) (r : DecisionRecord) (grant : Option Grant) (g : Grant)
    (hash : String)
    → grant ≡ some g
    → grant_by_hash s.grants hash ≡ some g
    → grant_state (consume ext s r grant) hash ≡ some consumed
unfolding grant_state consume consume_grant
grant_state-consume ext s r grant g hash is_it found = ground (
  arith,
  grant_by_hash-hash s.grants hash g found,
  grant_by_hash-set_grant_state s.grants hash g consumed found,
)

epoch_of_envelope :
    (sha256 : Sha) (r : DecisionRecord) (t : TaskRecord) (n : ℕ) (policy : String)
    → (envelope_of sha256 r t n policy).body.stop_epoch ≡ n
unfolding envelope_of envelope_body
epoch_of_envelope sha256 r t n policy = refl

claimed_epoch :
    (sub : SubmittedEnvelope) (e : Envelope) (n : ℕ)
    → e.body.stop_epoch ≡ n
    → claims_epoch sub e.body.stop_epoch ≡ true
    → sub.stop_epoch ≡ some n
unfolding claims_epoch
claimed_epoch sub e n h k = ground arith

claimed_text : (o : Option String) (t : String) → claims_text o t ≡ true → o ≡ some t
unfolding claims_text
claimed_text none t h = ground arith
claimed_text (some u) t h = ap some (sym ((eq_iff t u).0 h))

module _ (ext : External) (hook : Simulation → Simulation) (s : Simulation)
    (sub : SubmittedEnvelope) (now : String) (r : DecisionRecord)
    (allowed : (check_and_consume ext hook s (exact sub) now).1.outcome ≡ allow_once)
    (stored : record_by_id s.decision_records sub.decision_request_id ≡ some r) where
  why : Justified ext hook s sub now
  why = check_and_consume-Justified ext hook s sub now allowed

  same_record : why.snapshot.decision ≡ r
  same_record = cc (why.snapshot.found, stored)

  facts :
      (why.snapshot.envelope
        ≡ envelope_of ext.sha256 why.snapshot.decision why.snapshot.task s.current_stop_epoch
            s.policy_version)
      × (why.snapshot.decision.body.risk_class ≢ r4)
      × (is_blocked why.snapshot.task.body.disposition ≡ false)
      × (same_disposition
            (risk_disposition why.snapshot.decision.body.risk_class)
            why.snapshot.decision.body.disposition
          ≡ true)
  unfolding rederive_for
  facts =
      rederived ext.sha256 why.snapshot.decision why.snapshot.task s.current_context
        s.current_stop_epoch s.policy_version why.snapshot.envelope why.snapshot.is_derived

  -- An allowed envelope claims the stop epoch that is current when the lock is taken, so a bump of
  -- the epoch fences every envelope of an earlier one; and its decision is not of risk class R4.
  allowed-fenced : (sub.stop_epoch ≡ some s.current_stop_epoch) × (r.body.risk_class ≢ r4)
  allowed-fenced = (
    claimed_epoch sub why.snapshot.envelope s.current_stop_epoch
        (ap (λ (x : Envelope). x.body.stop_epoch) facts.0 ∙ epoch_of_envelope ext.sha256 _ _ _ _)
        why.tests.epoch_claimed,
    λ p. facts.1 (ap (λ (x : DecisionRecord). x.body.risk_class) same_record ∙ p),
  )

  -- What a human's approval is: a standing grant of the envelope, found behind the hook, and
  -- consumed.
  pub record Approved : Type 0 where
    pub grant : Grant
    pub hash : String
    pub found : grant_by_hash (hook s).grants hash ≡ some grant
    pub standing : Standing ext grant s.current_stop_epoch now
    pub claimed : sub.envelope_hash ≡ some hash
    pub is_consumed :
        grant_state (check_and_consume ext hook s (exact sub) now).0 hash ≡ some consumed

  -- A decision that asks for a human is allowed only with a grant of the submitted envelope that is
  -- authorized and bound to the current stop epoch, at a `now` that parses and lies before the expiry
  -- of the grant, if that parses; the grant is consumed.
  pub allowed-Approved : r.body.disposition ≡ human_approval_required → Approved
  allowed-Approved h = record {
    grant = pending.g;
    hash = why.snapshot.envelope.envelope_hash;
    found = pending.found;
    standing = pending.standing;
    claimed = claimed_text sub.envelope_hash _ why.tests.hash_claimed;
    is_consumed =
        ap (λ (x : Simulation × Verdict). grant_state x.0 why.snapshot.envelope.envelope_hash)
          why.tests.is_allowance
        ∙ grant_state-consume ext (hook s) why.snapshot.decision why.tests.grant pending.g
            why.snapshot.envelope.envelope_hash pending.is_it pending.found;
  }
    where
      pending :
          PendingApproved ext
            (hook s)
            why.snapshot.envelope
            s.current_stop_epoch
            now
            why.tests.grant
      pending =
          approved_pending ext (hook s) why.snapshot.envelope s.current_stop_epoch now
            why.tests.grant
            (ap (λ (x : Envelope). x.body.disposition) facts.0
              ∙ human_pending ext.sha256 why.snapshot.decision why.snapshot.task
                  s.current_stop_epoch s.policy_version
                  (ap (λ (x : DecisionRecord). x.body.disposition) same_record ∙ h))
            why.tests.approved

-- Of two bumps, the lower one asked for last: one after the other, the second is refused and the
-- epoch stays at the higher. When both tests run before either write, both are admitted and the
-- epoch ends at the lower one, below the one that the first write had set.
pub bump_race :
    (s : Simulation) (high low : ℕ)
    → s.current_stop_epoch < low
    → low < high
    → high ≤ 9007199254740991
    → ((bump_stop_epoch (bump_stop_epoch s (some high)).0 (some low)).0.current_stop_epoch ≡ high)
      × (bump_admits s (some high) ≡ true)
      × (bump_admits s (some low) ≡ true)
      × ((bump_applies (bump_applies s high) low).current_stop_epoch
          < (bump_applies s high).current_stop_epoch)
unfolding bump_stop_epoch bump_admits bump_applies valid_stop_epoch
bump_race s high low a b c = ground arith

-- A bump with nothing between its test and its write never lowers the epoch, and raises it when it
-- is accepted.
bump_stop_epoch-raises :
    (s : Simulation) (epoch : Option ℕ)
    → (s.current_stop_epoch ≤ (bump_stop_epoch s epoch).0.current_stop_epoch)
      × (((bump_stop_epoch s epoch).1 ≡ true)
          ↔ (s.current_stop_epoch < (bump_stop_epoch s epoch).0.current_stop_epoch))
unfolding bump_stop_epoch bump_admits bump_applies valid_stop_epoch
bump_stop_epoch-raises s epoch = ground arith
