-- ===== src/Council/Proof/Complete.antt =====
-- The quorum proof of a finalized session (scripts/dev/decision-council-kernel.mjs) is built and
-- accepted (scripts/dev/council-quorum-proof.mjs).
pub mod Ready
pub mod Parts
pub mod Accepted
use mihver.Council.Decision.{finalize_result}
use mihver.Council.Proof.Complete.Accepted.{
  outcome_record, finalized-outcome_record, proof_of, builds, accepts,
}
use Prim.Native.String
use mihver.Prelude.{
  ◌≡◌, refl, ap, sym, ℕ, String, Bool, true, false, not, ◌&&◌, Option, none, some, List, [], ◌∷◌,
  map, arith, ◌==◌, eq_iff, All, all, length, eqb, nonempty, is_hash64, is_hex40, set_size,
  includes, Distinct, Distinct-set_size, length-map, Option-cases, inl, inr, subst, if◌then◌else◌,
  ◌∙◌, any, eqb_iff,
}
use mihver.Json.{Json, arr}
use mihver.Council.Types.{
  RiskClass, Seat, Vote, RecordVote, Request, State, voting, decided, no_quorum, without_quorum,
  Candidate, Session, DecisionRecord, finalize_event, exact, Shaped, CouncilConfig, ExpectedContext,
}
use mihver.Council.Hashes.{
  Sha, digest, compute_decision_record_hash, record_votes_json, detail_json, state_name,
  disposition_name, reason_name, risk_name,
}
use mihver.Council.Validity.{valid_request, valid_seat, valid_vote}
use mihver.Council.Quorum.{QuorumResult, quorum_of}
use mihver.Council.Sessions.{
  make_record, record_body, recorded_votes, record_vote, proposer_seat, Created, session_created,
  create_session, transition, is_terminal, candidate_hash_of, proposer_of,
}
use mihver.Council.Kernel.{
  Outcome, accepted, finalized, apply_event, outcome_disposition, handle_event,
}
use mihver.Council.Machine.{Reach, Reach-IsValid}
use mihver.Council.Invariant.{
  IsValid, Keeps, apply_event-Keeps, create_session-IsValid, CreatedIsValid,
}
use mihver.Council.Invariant.Votes.{Known, Bound}
use mihver.Council.Proof.{
  Proof, ProofBody, Built, built, contemporaneous, Registry, compute_council_config_hash,
  compute_proof_hash, valid_proof_config, valid_decision_record, null_or, is_record_state,
  valid_proof, is_known, valid_record_vote, lookup_trusted_config_hash, request_matches_record,
  same_risk, build_checked, build_council_quorum_proof,
}
use mihver.Council.Proof.Agreement.{recompute_quorum-eq-quorum_of}
use mihver.Council.Proof.Recount.{recompute_quorum, expected_outcome}
use mihver.Council.Proof.Verify.{
  shaped, same, needs_council, is_text, vote_bound, bindings, config_trusted, recount,
  quorum_matches, outcome_matches, checks_of, submitted_checks, conclude, eligible,
  verify_council_quorum_proof,
}
use mihver.Council.Proof.Complete.Ready.{
  Hashes, VoteReady, IsReady, Reach-IsReady, create_session-IsReady,
}
use mihver.Council.Proof.Complete.Parts.{
  eq_self, same_self, votes_valid, record_votes_valid, proposer_seat-nonempty,
}

is_finalizable :
    (sha256 : Sha) (s t : Session)
    → apply_event sha256 s (finalize_event (exact tt)) ≡ accepted t
    → s.state ≡ voting
unfolding apply_event handle_event
is_finalizable sha256 s t h = ground arith

frozen :
    (s : Session) → IsValid s → s.state ≡ voting → (c : Candidate) × (s.candidate_decision ≡ some c)
frozen s v at = elim (Option-cases s.candidate_decision) [
  | inl e ↦ absurd (ground (arith, v.holds_data))
  | inr found ↦ found
]

-- A council that decides can prove it: when an admitted session is finalized by a sequence of accepted
-- events, a quorum proof is built from its request, configuration, votes and record, and the
-- verification finds it eligible under every registry that lists the configuration's digest for its
-- epoch. It is assumed that every SHA-256 digest is a text of 64 hexadecimal digits.
pub finalized_proof-eligible :
    (sha256 : Sha) (request : Shaped Request) (config : Shaped CouncilConfig)
    (context : Option ExpectedContext) (first s t : Session) (r : DecisionRecord)
    (registry : Registry)
    → Hashes sha256
    → create_session sha256 request config context ≡ session_created first
    → Reach sha256 first s
    → apply_event sha256 s (finalize_event (exact tt)) ≡ accepted t
    → t.decision_record ≡ some r
    → lookup_trusted_config_hash registry s.council_config.epoch_id
      ≡ some (compute_council_config_hash sha256 s.council_config)
    → (p : Proof) × (build_council_quorum_proof sha256 s.decision_request s.council_config s.votes r
        ≡ built p)
      × ((verify_council_quorum_proof sha256 (shaped p) r registry).authorization_evidence_eligible
          ≡ true)
finalized_proof-eligible sha256 request config context first s t r registry hashes begun reached
      ended recorded listed =
    let valid : IsValid s =
      Reach-IsValid sha256 first s
        (subst CreatedIsValid begun (create_session-IsValid sha256 request config context))
        reached in
    let ready : IsReady s =
      Reach-IsReady sha256 hashes first s
        (create_session-IsReady sha256 request config context first begun) reached in
    let at = is_finalizable sha256 s t ended in
    let (c, e) = frozen s valid at in
    let (q, counted, is_t) = finalize_result sha256 s t ended in
    let same_record : some r ≡ some (outcome_record sha256 s q) =
      sym recorded ∙ ap (λ x. x.decision_record) is_t ∙ finalized-outcome_record sha256 s q in
    subst
      (λ d.
        (p : Proof) × (build_council_quorum_proof sha256 s.decision_request s.council_config s.votes
            d
          ≡ built p)
        × ((verify_council_quorum_proof sha256 (shaped p) d
              registry).authorization_evidence_eligible
            ≡ true))
      (sym (ap (λ o. elim o [ none ↦ r | some d ↦ d ]) same_record))
      (
        proof_of sha256 s (outcome_record sha256 s q),
        builds sha256 hashes s valid ready c e q,
        accepts sha256 hashes s valid ready c e q registry counted
            (ready.council_needed (ap is_terminal at)) listed,
      )
