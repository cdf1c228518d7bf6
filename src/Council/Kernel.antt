-- ===== src/Council/Kernel.antt =====
-- scripts/dev/decision-council-kernel.mjs: `applyEvent` and `getDecisionRecord`.
use mihver.Prelude.{
  String, Bool, true, false, not, Option, none, some, [], ◌∷◌, ◌++◌, ◌==◌, any, if◌then◌else◌, all,
  ◌&&◌, ◌||◌,
}
use mihver.Council.Types.{
  Shaped, exact, malformed, RiskClass, r3, State, created, commitment_collection, proposal_reveal,
  candidate_frozen, voting, decided, no_quorum, Disposition, council_approved,
  human_approval_required, without_quorum, ErrorCode, malformed_artifact, wrong_council_epoch,
  invalid_state_transition, decision_request_mismatch, proposer_role_violation,
  commitment_reveal_mismatch, candidate_hash_mismatch, unknown_seat, duplicate_seat_vote,
  Commitment, ProposalContent, SubmittedProposal, CandidateBody, Candidate, Vote, DecisionRecord,
  submit_commitment, reveal_proposal, freeze_candidate, cast_vote, finalize, Event,
  submit_commitment_event, reveal_proposal_event, freeze_candidate_event, cast_vote_event,
  finalize_event, other, not_event, Session,
}
use mihver.Council.Hashes.{Sha, compute_commitment_hash, compute_candidate_hash}
use mihver.Council.Validity.{valid_commitment, valid_proposal, valid_vote}
use mihver.Council.Quorum.{QuorumResult, quorum_of}
use mihver.Council.Sessions.{is_terminal, transition, make_record, record_prints}

-- What `applyEvent` gives: an accepted or a rejected session, or a TypeError.
pub data Outcome : Type 0 where
  accepted : Session → Outcome
  rejected : Session → ErrorCode → Outcome
  throws : Outcome

-- `session.state === "CREATED"`, and so on
abbrev pub is_created : State → Bool
is_created created = true
is_created _ = false

abbrev pub is_commitment_collection : State → Bool
is_commitment_collection commitment_collection = true
is_commitment_collection _ = false

abbrev pub is_proposal_reveal : State → Bool
is_proposal_reveal proposal_reveal = true
is_proposal_reveal _ = false

abbrev pub is_voting : State → Bool
is_voting voting = true
is_voting _ = false

abbrev pub accepts_votes : State → Bool
accepts_votes candidate_frozen = true
accepts_votes voting = true
accepts_votes _ = false

unfoldable pub binding_error : Session → String → String → Option ErrorCode
binding_error s request epoch =
    if not (request == s.decision_request.decision_request_id)
    then some decision_request_mismatch
    else if not (epoch == s.decision_request.council_epoch_id)
    then some wrong_council_epoch
    else none

-- Goes on only if the artifact is bound to the session's request and epoch.
unfoldable pub when_bound : Session → String → String → Outcome → Outcome
unfolding binding_error
when_bound s request epoch next = elim (binding_error s request epoch) [
  | some code ↦ rejected s code
  | none ↦ next
]

unfoldable pub on_commitment : Session → Shaped Commitment → Outcome
unfolding when_bound transition
on_commitment s malformed = rejected s malformed_artifact
on_commitment s (exact c) =
    if not (valid_commitment c)
    then rejected s malformed_artifact
    else when_bound s c.decision_request_id c.council_epoch_id (
        if not (c.seat_id == s.expected_proposer_seat_id)
        then rejected s proposer_role_violation
        else accepted
            (transition (record s { commitment = some c }) commitment_collection submit_commitment))

-- An accepted vote is appended to the session's votes.
unfoldable pub on_vote_checked : Session → Candidate → Vote → Outcome
unfolding when_bound transition
on_vote_checked s candidate v =
    if not (v.candidate_hash == candidate.candidate_hash)
    then rejected s candidate_hash_mismatch
    else when_bound s v.decision_request_id v.council_epoch_id (
        if not (any (λ seat. seat.seat_id == v.seat_id) s.council_config.seats)
        then rejected s unknown_seat
        else if any (λ vote. vote.seat_id == v.seat_id) s.votes
        then rejected s duplicate_seat_vote
        else accepted (transition (record s { votes = s.votes ++ v ∷ [] }) voting cast_vote))

unfoldable pub on_vote : Session → Shaped Vote → Outcome
unfolding on_vote_checked
on_vote s malformed = rejected s malformed_artifact
on_vote s (exact v) =
    if not (valid_vote v)
    then rejected s malformed_artifact
    else elim s.candidate_decision [ none ↦ throws | some c ↦ on_vote_checked s c v ]

unfoldable pub outcome_disposition : RiskClass → Disposition
outcome_disposition r3 = human_approval_required
outcome_disposition _ = council_approved

-- `canonicalizeJson` accepts the candidate: the texts of the request, and the proposer's seat id.
unfoldable pub candidate_prints : Session → Bool
candidate_prints s =
    s.decision_request.is_well_formed
    && all (λ seat. not (seat.seat_id == s.expected_proposer_seat_id) || seat.is_well_formed)
        s.council_config.seats

module _ (sha256 : Sha) where
  -- The reveal opens the commitment; the payload is canonicalizable by then.
  unfoldable pub reveal_checked : Session → SubmittedProposal → ProposalContent → Outcome
  unfolding transition
  reveal_checked s p content =
      if not (p.seat_id == s.expected_proposer_seat_id)
      then rejected s proposer_role_violation
      else elim s.commitment [
        | none ↦ throws
        | some c ↦
            if not (compute_commitment_hash sha256 content == c.commitment_hash)
            then rejected s commitment_reveal_mismatch
            else accepted (
                transition
                  (record s {
                    proposal = some (record {
                      decision_request_id = p.decision_request_id;
                      seat_id = p.seat_id;
                      council_epoch_id = p.council_epoch_id;
                      proposal_content = content;
                    });
                  })
                  proposal_reveal reveal_proposal)
      ]

  unfoldable pub on_reveal : Session → Shaped SubmittedProposal → Outcome
  unfolding when_bound reveal_checked
  on_reveal s malformed = rejected s malformed_artifact
  on_reveal s (exact p) =
      if not (valid_proposal p)
      then rejected s malformed_artifact
      else elim p.proposal_content.payload [
        | none ↦ rejected s malformed_artifact
        | some payload ↦ when_bound s p.decision_request_id p.council_epoch_id (
            reveal_checked s p (record { summary = p.proposal_content.summary; payload = payload }))
      ]

  unfoldable pub frozen_candidate : Session → ProposalContent → Candidate
  frozen_candidate s content =
      let body : CandidateBody = record {
        decision_request_id = s.decision_request.decision_request_id;
        task_id = s.decision_request.task_id;
        risk_class = s.decision_request.risk_class;
        context_hash = s.decision_request.context_hash;
        repository_head = s.decision_request.repository_head;
        council_epoch_id = s.decision_request.council_epoch_id;
        proposer_seat_id = s.expected_proposer_seat_id;
        candidate_ordinal = 0;
        proposal_content = content;
      } in
      record { body = body; candidate_hash = compute_candidate_hash sha256 body }

  unfoldable pub on_freeze : Session → Shaped (Unit {0}) → Outcome
  unfolding transition frozen_candidate
  on_freeze s malformed = rejected s malformed_artifact
  on_freeze s (exact _) = elim s.proposal [
    | none ↦ throws
    | some p ↦
        if candidate_prints s
        then accepted (
            transition
              (record s { candidate_decision = some (frozen_candidate s p.proposal_content) })
              candidate_frozen freeze_candidate)
        else throws
  ]

  -- The session that `FINALIZE` gives for a quorum result.
  unfoldable pub finalized : Session → QuorumResult → Session
  unfolding transition make_record outcome_disposition
  finalized s q =
      let state = if q.met then decided else no_quorum in
      let disposition =
        if q.met then outcome_disposition s.decision_request.risk_class else without_quorum in
      let next = transition s state finalize in
      record next {
        decision_record = some (make_record sha256 next state disposition q.detail q.reason);
      }

  unfoldable pub on_finalize : Session → Shaped (Unit {0}) → Outcome
  unfolding quorum_of finalized
  on_finalize s malformed = rejected s malformed_artifact
  on_finalize s (exact _) =
      elim (quorum_of s.decision_request.risk_class s.council_config s.expected_proposer_seat_id
        s.votes) [
          | none ↦ throws
          | some q ↦ if record_prints s then accepted (finalized s q) else throws
        ]

  -- An event that the state allows.
  unfoldable pub handle_event : Session → Event → Outcome
  unfolding on_commitment on_reveal on_freeze on_vote on_finalize
  handle_event s (submit_commitment_event c) =
      if is_created s.state then on_commitment s c else rejected s invalid_state_transition
  handle_event s (reveal_proposal_event p) =
      if is_commitment_collection s.state
      then on_reveal s p
      else rejected s invalid_state_transition
  handle_event s (freeze_candidate_event u) =
      if is_proposal_reveal s.state then on_freeze s u else rejected s invalid_state_transition
  handle_event s (cast_vote_event v) =
      if accepts_votes s.state then on_vote s v else rejected s invalid_state_transition
  handle_event s (finalize_event u) =
      if is_voting s.state then on_finalize s u else rejected s invalid_state_transition
  handle_event s other = rejected s malformed_artifact
  handle_event s not_event = rejected s malformed_artifact

  unfoldable pub apply_event : Session → Event → Outcome
  unfolding handle_event
  apply_event s not_event = rejected s malformed_artifact
  apply_event s e =
      if is_terminal s.state then rejected s invalid_state_transition else handle_event s e

unfoldable pub get_decision_record : Session → Option DecisionRecord
get_decision_record s = if is_terminal s.state then s.decision_record else none
