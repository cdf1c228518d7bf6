-- ===== src/Council/Sessions.antt =====
-- scripts/dev/decision-council-kernel.mjs: sessions, their transitions and records, and
-- `createSession`.
-- The `details` object beside an error code, which nothing in the program reads, is left out.
use Prim.Native.String
use mihver.Prelude.{
  ℕ, ◌%◌, String, Bool, true, false, not, ◌||◌, Option, none, some, List, [], ◌∷◌, ◌++◌, map, ◌==◌,
  get_elem?, any, set_size, eqb, if◌then◌else◌, all, ◌&&◌,
}
use mihver.Council.Types.{
  Shaped, exact, malformed, RiskClass, r0, r4, voted, missing, State, created, council_not_required,
  decided, no_quorum, denied, Disposition, not_required, hard_denied, ReasonCode,
  council_not_required_risk_r0, hard_deny_risk_r4, ErrorCode, malformed_artifact, duplicate_seat_id,
  duplicate_seat_identity, wrong_council_epoch, context_hash_mismatch, repository_head_mismatch,
  Seat, CouncilConfig, Request, ExpectedContext, Candidate, Vote, RecordVote, QuorumDetail,
  RecordBody, DecisionRecord, EventType, admit, Session,
}
use mihver.Council.Hashes.{Sha, compute_decision_record_hash}
use mihver.Council.Validity.{valid_council_config, valid_request}
use mihver.Council.Quorum.{vote_by_seat}

-- What `createSession` gives: a session, an error, or a TypeError.
pub data Created : Type 0 where
  session_created : Session → Created
  admission_error : ErrorCode → Created
  creation_throws : Created

-- `canonicalizeJson` accepts the votes of a record: they name the seats, if there is a candidate.
unfoldable pub seats_print : Option Candidate → List Seat → Bool
seats_print none seats = true
seats_print (some c) seats = all (λ seat. seat.is_well_formed) seats

-- `canonicalizeJson` accepts a record of the session.
unfoldable pub record_prints : Session → Bool
record_prints s =
    s.decision_request.is_well_formed && seats_print s.candidate_decision s.council_config.seats

-- R0 and R4 end with a record.
abbrev pub ends_at_once : RiskClass → Bool
ends_at_once r0 = true
ends_at_once r4 = true
ends_at_once _ = false

-- `TERMINAL`
abbrev pub is_terminal : State → Bool
is_terminal council_not_required = true
is_terminal decided = true
is_terminal no_quorum = true
is_terminal denied = true
is_terminal _ = false

-- `changes` are made to the session before the call.
unfoldable pub transition : Session → State → EventType → Session
transition s to event = record s {
  state = to;
  transition_log = s.transition_log ++ (record { from = s.state; to = to; event = event }) ∷ [];
}

unfoldable pub record_vote : List Vote → Seat → RecordVote
record_vote votes seat = elim (vote_by_seat votes seat.seat_id) [
  | none ↦ record { seat_id = seat.seat_id; vote_value = missing; candidate_hash = none }
  | some v ↦ record {
    seat_id = seat.seat_id;
    vote_value = voted v.vote_value;
    candidate_hash = some v.candidate_hash;
  }
]

unfoldable pub recorded_votes : Option Candidate → List Seat → List Vote → List RecordVote
unfolding record_vote
recorded_votes none seats votes = []
recorded_votes (some c) seats votes = map (record_vote votes) seats

abbrev pub candidate_hash_of : Option Candidate → Option String
candidate_hash_of none = none
candidate_hash_of (some c) = some c.candidate_hash

abbrev pub proposer_of : Option Candidate → Option String
proposer_of none = none
proposer_of (some c) = some c.body.proposer_seat_id

unfoldable pub record_body : Session → State → Disposition → QuorumDetail → ReasonCode → RecordBody
unfolding recorded_votes
record_body s state disposition detail reason = record {
  decision_request_id = s.decision_request.decision_request_id;
  task_id = s.decision_request.task_id;
  risk_class = s.decision_request.risk_class;
  context_hash = s.decision_request.context_hash;
  repository_head = s.decision_request.repository_head;
  council_epoch_id = s.decision_request.council_epoch_id;
  state = state;
  disposition = disposition;
  candidate_hash = candidate_hash_of s.candidate_decision;
  proposer_seat_id = proposer_of s.candidate_decision;
  votes = recorded_votes s.candidate_decision s.council_config.seats s.votes;
  quorum_detail = detail;
  reason_code = reason;
}

abbrev pub no_counts : RiskClass → Option ReasonCode → QuorumDetail
no_counts rules reason = record {
  rules = rules;
  reason = reason;
  approvals = none;
  distinct_provider_model_families = none;
  reviewer_approvals = none;
}

-- `${seat.provider}\0${seat.modelFamily}\0${seat.modelId}`
unfoldable pub seat_identity : Seat → String
seat_identity s =
    String.◌++◌ s.provider
      (String.◌++◌ "\0" (String.◌++◌ s.model_family (String.◌++◌ "\0" s.model_id)))

-- `seats[ordinal % 3].seatId`; the seats are three by then, so the index is in range.
unfoldable pub proposer_seat : List Seat → ℕ → String
proposer_seat seats ordinal = elim (get_elem? seats (ordinal % 3)) [
  | none ↦ ""
  | some s ↦ s.seat_id
]

unfoldable pub fresh_session : Request → CouncilConfig → Session
unfolding proposer_seat
fresh_session request config = record {
  state = created;
  decision_request = request;
  council_config = config;
  expected_proposer_seat_id = proposer_seat config.seats request.rotation_ordinal;
  commitment = none;
  proposal = none;
  candidate_decision = none;
  votes = [];
  decision_record = none;
  transition_log = [];
}

module _ (sha256 : Sha) where
  unfoldable pub make_record :
      Session → State → Disposition → QuorumDetail → ReasonCode → DecisionRecord
  unfolding record_body
  make_record s state disposition detail reason =
      let body = record_body s state disposition detail reason in
      record { body = body; record_hash = compute_decision_record_hash sha256 body }

  -- R0 and R4 end at once, with a record that can be hashed.
  unfoldable pub admitted : RiskClass → Session → Session
  unfolding transition make_record
  admitted r0 s =
      let s' = transition s council_not_required admit in
      record s' {
        decision_record = some (
            make_record s' council_not_required not_required (no_counts r0 none)
              council_not_required_risk_r0);
      }
  admitted r4 s =
      let s' = transition s denied admit in
      record s' {
        decision_record = some (
            make_record s' denied hard_denied (no_counts r4 (some hard_deny_risk_r4))
              hard_deny_risk_r4);
      }
  admitted _ s = s

  -- The tests of `createSession` on artifacts of the right shape; `none` is a context that is no
  -- own object.
  unfoldable pub create_checked : Request → CouncilConfig → Option ExpectedContext → Created
  unfolding seat_identity fresh_session admitted record_prints seats_print
  create_checked request config context =
      if not (eqb (set_size (map (λ s. s.seat_id) config.seats)) 3)
      then admission_error duplicate_seat_id
      else if not (eqb (set_size (map seat_identity config.seats)) 3)
      then admission_error duplicate_seat_identity
      else if any (λ s. not (s.council_epoch_id == config.epoch_id)) config.seats
          || not (request.council_epoch_id == config.epoch_id)
      then admission_error wrong_council_epoch
      else elim context [
        | none ↦ admission_error context_hash_mismatch
        | some c ↦
            if not (request.context_hash == c.context_hash)
            then admission_error context_hash_mismatch
            else if not (request.repository_head == c.repository_head)
            then admission_error repository_head_mismatch
            else if ends_at_once request.risk_class
                && not (record_prints (fresh_session request config))
            then creation_throws
            else session_created (admitted request.risk_class (fresh_session request config))
      ]

  unfoldable pub create_session :
      Shaped Request → Shaped CouncilConfig → Option ExpectedContext → Created
  unfolding create_checked
  create_session malformed config context = admission_error malformed_artifact
  create_session (exact request) malformed context = admission_error malformed_artifact
  create_session (exact request) (exact config) context =
      if not (valid_request request)
      then admission_error malformed_artifact
      else if not (valid_council_config config)
      then admission_error malformed_artifact
      else create_checked request config context
