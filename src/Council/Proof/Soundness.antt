-- ===== src/Council/Proof/Soundness.antt =====
-- What an eligible verification of scripts/dev/council-quorum-proof.mjs establishes.
use mihver.Prelude.{
  ◌≡◌, refl, inl, inr, ◌↔◌, true, false, none, some, List, [], ◌∷◌, map, arith, ◌==◌, eq_iff, All,
  all, any, includes, Distinct, set_size-Distinct, length-map, Option-cases,
}
use mihver.Council.Types.{RiskClass, State, decided, no_quorum, Seat, Vote, DecisionRecord}
use mihver.Council.Hashes.{Sha, state_name, compute_decision_record_hash}
use mihver.Council.Quorum.{QuorumResult}
use mihver.Council.Invariant.Votes.{Known}
use mihver.Council.Proof.{
  Proof, Registry, compute_council_config_hash, compute_proof_hash, lookup_trusted_config_hash,
  request_matches_record,
}
use mihver.Council.Proof.Recount.{recompute_quorum, expected_outcome}
use mihver.Council.Proof.Verify.{
  Submitted, shaped, Checks, conclude, refuse, first_failure, eligible, checks_of, submitted_checks,
  is_text, config_trusted, vote_bound, bindings, recount, quorum_matches, outcome_matches,
  verify_council_quorum_proof,
}

conclude_agrees :
    (c : Checks)
    → ((conclude c).authorization_evidence_eligible ≡ true) ↔ ((conclude c).error_code ≡ none)
unfolding conclude eligible first_failure
conclude_agrees c = ground arith

-- A submission is eligible exactly when it has no error code, whatever is submitted.
verify-eligible_iff :
    (sha256 : Sha) (proof : Submitted) (r : DecisionRecord) (registry : Registry)
    → ((verify_council_quorum_proof sha256 proof r registry).authorization_evidence_eligible ≡ true)
      ↔ ((verify_council_quorum_proof sha256 proof r registry).error_code ≡ none)
unfolding verify_council_quorum_proof refuse
verify-eligible_iff sha256 proof r registry =
    ground (arith, conclude_agrees (submitted_checks sha256 proof r registry))

eligible_checks :
    (sha256 : Sha) (p : Proof) (r : DecisionRecord) (registry : Registry)
    → (verify_council_quorum_proof sha256 (shaped p) r registry).authorization_evidence_eligible
      ≡ true
    → eligible (checks_of sha256 p r registry) ≡ true
unfolding verify_council_quorum_proof refuse conclude submitted_checks
eligible_checks sha256 p r registry h = ground arith

-- The digests that an eligible proof carries are those of its content, and the configuration is
-- the registry's.
pub record Authentic (sha256 : Sha) (p : Proof) (r : DecisionRecord) (registry : Registry)
    : Type 0 where
  pub record_hash : r.record_hash ≡ compute_decision_record_hash sha256 r.body
  pub cited_hash : p.body.decision_record_hash ≡ r.record_hash
  pub proof_hash : p.proof_hash ≡ compute_proof_hash sha256 p.body
  pub trusted :
      lookup_trusted_config_hash registry p.body.decision_request.council_epoch_id
      ≡ some (compute_council_config_hash sha256 p.body.council_config)

config_trusted_sound :
    (sha256 : Sha) (p : Proof) (registry : Registry)
    → config_trusted sha256 p registry ≡ true
    → lookup_trusted_config_hash registry p.body.decision_request.council_epoch_id
      ≡ some (compute_council_config_hash sha256 p.body.council_config)
unfolding config_trusted is_text
config_trusted_sound sha256 p registry h =
    elim (Option-cases
      (lookup_trusted_config_hash registry p.body.decision_request.council_epoch_id)) [
        | inl e ↦ ground arith
        | inr (hash, e) ↦ ground (
          arith,
          eq_iff hash p.body.council_config_hash,
          eq_iff (compute_council_config_hash sha256 p.body.council_config)
              p.body.council_config_hash,
        )
      ]

Authentic-of_eligible :
    (sha256 : Sha) (p : Proof) (r : DecisionRecord) (registry : Registry)
    → eligible (checks_of sha256 p r registry) ≡ true
    → Authentic sha256 p r registry
unfolding eligible checks_of
Authentic-of_eligible sha256 p r registry h = record {
  record_hash = ground (arith, eq_iff (compute_decision_record_hash sha256 r.body) r.record_hash);
  cited_hash = ground (
    arith,
    eq_iff (compute_decision_record_hash sha256 r.body) r.record_hash,
    eq_iff (compute_decision_record_hash sha256 r.body) p.body.decision_record_hash,
  );
  proof_hash = ground (arith, eq_iff (compute_proof_hash sha256 p.body) p.proof_hash);
  trusted = config_trusted_sound sha256 p registry (ground arith);
}

-- A proof with exactly a proof's keys that is found eligible carries the digests of its own content
-- and of the record, and a configuration whose digest the registry holds for the request's epoch.
pub verify-Authentic :
    (sha256 : Sha) (p : Proof) (r : DecisionRecord) (registry : Registry)
    → (verify_council_quorum_proof sha256 (shaped p) r registry).authorization_evidence_eligible
      ≡ true
    → Authentic sha256 p r registry
verify-Authentic sha256 p r registry h =
    Authentic-of_eligible sha256 p r registry (eligible_checks sha256 p r registry h)

state_name-decided : (s : State) → (state_name decided == state_name s) ≡ true → s ≡ decided
unfolding state_name
state_name-decided decided h = refl
state_name-decided _ h = cc

state_name-no_quorum : (s : State) → (state_name no_quorum == state_name s) ≡ true → s ≡ no_quorum
unfolding state_name
state_name-no_quorum no_quorum h = refl
state_name-no_quorum _ h = cc

Known-of_includes :
    (seats : List Seat) (v : Vote)
    → includes (map (λ s. s.seat_id) seats) v.seat_id ≡ true
    → Known seats v
unfolding includes any
Known-of_includes [] v h = h
Known-of_includes (s ∷ seats) v h = ground (arith, Known-of_includes seats v)

Known-of_bound :
    (r : DecisionRecord) (seats : List Seat) (votes : List Vote)
    → all (vote_bound r (map (λ s. s.seat_id) seats)) votes ≡ true
    → All (Known seats) votes
unfolding all vote_bound
Known-of_bound r seats [] h = tt
Known-of_bound r seats (v ∷ votes) h =
    (Known-of_includes seats v (ground arith), Known-of_bound r seats votes (ground arith))

-- What the proof's votes and the record have to do with one another.
pub record Supports (p : Proof) (r : DecisionRecord) : Type 0 where
  pub same_request : p.body.decision_request.decision_request_id ≡ r.body.decision_request_id
  pub same_task : p.body.decision_request.task_id ≡ r.body.task_id
  pub one_vote_each : Distinct (map (λ v. v.seat_id) p.body.votes)
  pub from_council : All (Known p.body.council_config.seats) p.body.votes
  pub decided_iff_met :
      (r.body.state ≡ decided)
      ↔ ((recompute_quorum p.body.decision_request p.body.council_config p.body.votes).met ≡ true)

bindings-Distinct :
    (p : Proof) (r : DecisionRecord)
    → bindings p r ≡ true
    → Distinct (map (λ v. v.seat_id) p.body.votes)
unfolding bindings
bindings-Distinct p r h =
    set_size-Distinct (map (λ v. v.seat_id) p.body.votes)
      (ground (arith, length-map {0, 0} (λ (v : Vote). v.seat_id) p.body.votes))

bindings-Known :
    (p : Proof) (r : DecisionRecord)
    → bindings p r ≡ true
    → All (Known p.body.council_config.seats) p.body.votes
unfolding bindings
bindings-Known p r h = Known-of_bound r p.body.council_config.seats p.body.votes (ground arith)

bindings-request :
    (p : Proof) (r : DecisionRecord)
    → bindings p r ≡ true
    → (p.body.decision_request.decision_request_id ≡ r.body.decision_request_id)
      × (p.body.decision_request.task_id ≡ r.body.task_id)
unfolding bindings request_matches_record
bindings-request p r h = ground (
  arith,
  eq_iff p.body.decision_request.decision_request_id r.body.decision_request_id,
  eq_iff p.body.decision_request.task_id r.body.task_id,
)

quorum_matches-none : (risk : RiskClass) (r : DecisionRecord) → quorum_matches risk none r ≡ false
unfolding quorum_matches
quorum_matches-none risk r = refl

matches-decided :
    (risk : RiskClass) (q : QuorumResult) (r : DecisionRecord)
    → quorum_matches risk (some q) r ≡ true
    → (r.body.state ≡ decided) ↔ (q.met ≡ true)
unfolding quorum_matches outcome_matches expected_outcome
matches-decided risk q r h =
    ground (arith, state_name-decided r.body.state, state_name-no_quorum r.body.state)

eligible-bindings :
    (sha256 : Sha) (p : Proof) (r : DecisionRecord) (registry : Registry)
    → eligible (checks_of sha256 p r registry) ≡ true
    → bindings p r ≡ true
unfolding eligible checks_of
eligible-bindings sha256 p r registry h = ground arith

eligible_quorum :
    (sha256 : Sha) (p : Proof) (r : DecisionRecord) (registry : Registry)
    → eligible (checks_of sha256 p r registry) ≡ true
    → quorum_matches p.body.decision_request.risk_class
        (some (recompute_quorum p.body.decision_request p.body.council_config p.body.votes))
        r
      ≡ true
unfolding eligible checks_of recount
eligible_quorum sha256 p r registry h =
    ground (arith, quorum_matches-none p.body.decision_request.risk_class r)

-- A proof with exactly a proof's keys that is found eligible is about the record's own request and
-- task, holds at most one vote of each seat and only votes of the council's seats, and the record
-- says DECIDED exactly when the recount of those votes meets the quorum.
pub verify-Supports :
    (sha256 : Sha) (p : Proof) (r : DecisionRecord) (registry : Registry)
    → (verify_council_quorum_proof sha256 (shaped p) r registry).authorization_evidence_eligible
      ≡ true
    → Supports p r
verify-Supports sha256 p r registry h =
    let e : eligible (checks_of sha256 p r registry) ≡ true =
      eligible_checks sha256 p r registry h in
    let bound : bindings p r ≡ true = eligible-bindings sha256 p r registry e in
    let requests : (p.body.decision_request.decision_request_id ≡ r.body.decision_request_id)
        × (p.body.decision_request.task_id ≡ r.body.task_id) =
      bindings-request p r bound in
    record {
      same_request = requests.0;
      same_task = requests.1;
      one_vote_each = bindings-Distinct p r bound;
      from_council = bindings-Known p r bound;
      decided_iff_met =
          matches-decided p.body.decision_request.risk_class _ r
            (eligible_quorum sha256 p r registry e);
    }
