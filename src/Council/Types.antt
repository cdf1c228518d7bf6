-- ===== src/Council/Types.antt =====
-- The artifacts of scripts/dev/decision-council-kernel.mjs.
-- `exactKeys` is taken at the boundary: `exact` holds an object with exactly the keys listed and
-- values of the right JavaScript type; any other value is `malformed`. The emptiness, hash-format
-- and length tests are functions of the kernel.
-- `canonicalizeJson` throws on a text with a lone surrogate, which the tests of the kernel let pass.
-- Such a text stands here as a text of its own, and `is_well_formed` says that there is none: among
-- the texts of a request, or in the id of a seat, which are those that the kernel hashes. The content
-- of a proposal is canonicalized when it is tested; provider, family and model of a seat are taken to
-- hold no lone surrogate.
use mihver.Prelude.{ℕ, String, Option, List, Bool}
use mihver.Json.{Json}

pub data Shaped {ℓ} (A : Type ℓ) : Type ℓ where
  exact : A → Shaped A
  malformed : Shaped A

pub data RiskClass : Type 0 where
  r0 r1 r2 r3 r4 : RiskClass

-- `VOTES`
pub data VoteValue : Type 0 where
  approve reject abstain : VoteValue

-- What a record holds for a seat: its vote, or "MISSING".
pub data RecordedValue : Type 0 where
  voted : VoteValue → RecordedValue
  missing : RecordedValue

pub data State : Type 0 where
  created commitment_collection proposal_reveal candidate_frozen voting : State
  council_not_required decided no_quorum denied : State

pub data Disposition : Type 0 where
  not_required council_approved human_approval_required without_quorum hard_denied : Disposition

pub data ReasonCode : Type 0 where
  council_not_required_risk_r0 hard_deny_risk_r4 : ReasonCode
  r1_insufficient_approvals r1_diversity_requirement_not_met r1_quorum_met : ReasonCode
  r2_reviewer_rejected r2_insufficient_reviewer_approvals r2_quorum_met : ReasonCode
  r3_insufficient_approvals r3_quorum_met : ReasonCode

pub data ErrorCode : Type 0 where
  malformed_artifact duplicate_seat_id duplicate_seat_identity wrong_council_epoch : ErrorCode
  context_hash_mismatch repository_head_mismatch invalid_state_transition : ErrorCode
  decision_request_mismatch proposer_role_violation commitment_reveal_mismatch : ErrorCode
  candidate_hash_mismatch unknown_seat duplicate_seat_vote : ErrorCode

pub record Seat : Type 0 where
  pub seat_id : String
  pub provider : String
  pub model_family : String
  pub model_id : String
  pub council_epoch_id : String
  pub is_well_formed : Bool

pub record CouncilConfig : Type 0 where
  pub epoch_id : String
  pub seats : List Seat

pub record Request : Type 0 where
  pub decision_request_id : String
  pub task_id : String
  pub risk_class : RiskClass
  pub context_hash : String
  pub repository_head : String
  pub council_epoch_id : String
  pub rotation_ordinal : ℕ
  pub is_well_formed : Bool

pub record ExpectedContext : Type 0 where
  pub context_hash : String
  pub repository_head : String

pub record Commitment : Type 0 where
  pub decision_request_id : String
  pub seat_id : String
  pub council_epoch_id : String
  pub commitment_hash : String

-- `payload` is an own object: `some` its canonicalizable value, or `none` if `canonicalizeJson`
-- throws on the content.
pub record SubmittedContent : Type 0 where
  pub summary : String
  pub payload : Option Json

pub record ProposalContent : Type 0 where
  pub summary : String
  pub payload : Json

pub record SubmittedProposal : Type 0 where
  pub decision_request_id : String
  pub seat_id : String
  pub council_epoch_id : String
  pub proposal_content : SubmittedContent

pub record Proposal : Type 0 where
  pub decision_request_id : String
  pub seat_id : String
  pub council_epoch_id : String
  pub proposal_content : ProposalContent

pub record CandidateBody : Type 0 where
  pub decision_request_id : String
  pub task_id : String
  pub risk_class : RiskClass
  pub context_hash : String
  pub repository_head : String
  pub council_epoch_id : String
  pub proposer_seat_id : String
  pub candidate_ordinal : ℕ
  pub proposal_content : ProposalContent

pub record Candidate : Type 0 where
  pub body : CandidateBody
  pub candidate_hash : String

pub record Vote : Type 0 where
  pub decision_request_id : String
  pub candidate_hash : String
  pub seat_id : String
  pub council_epoch_id : String
  pub vote_value : VoteValue

pub record RecordVote : Type 0 where
  pub seat_id : String
  pub vote_value : RecordedValue
  pub candidate_hash : Option String

-- `quorumDetail`, with `rules` for its `ruleset`: a count that an outcome does not give is `none`.
pub record QuorumDetail : Type 0 where
  pub rules : RiskClass
  pub reason : Option ReasonCode
  pub approvals : Option ℕ
  pub distinct_provider_model_families : Option ℕ
  pub reviewer_approvals : Option ℕ

pub record RecordBody : Type 0 where
  pub decision_request_id : String
  pub task_id : String
  pub risk_class : RiskClass
  pub context_hash : String
  pub repository_head : String
  pub council_epoch_id : String
  pub state : State
  pub disposition : Disposition
  pub candidate_hash : Option String
  pub proposer_seat_id : Option String
  pub votes : List RecordVote
  pub quorum_detail : QuorumDetail
  pub reason_code : ReasonCode

pub record DecisionRecord : Type 0 where
  pub body : RecordBody
  pub open body use *
  pub record_hash : String

pub data EventType : Type 0 where
  admit submit_commitment reveal_proposal freeze_candidate cast_vote finalize : EventType

-- `Event` is an object with a text `type`; the rest of its keys may be malformed. `other` is any
-- other type, `not_event` a value that is no own object or has no text `type`.
pub data Event : Type 0 where
  submit_commitment_event : Shaped Commitment → Event
  reveal_proposal_event : Shaped SubmittedProposal → Event
  freeze_candidate_event : Shaped (Unit {0}) → Event
  cast_vote_event : Shaped Vote → Event
  finalize_event : Shaped (Unit {0}) → Event
  other : Event
  not_event : Event

pub record Transition : Type 0 where
  pub from : State
  pub to : State
  pub event : EventType

pub record Session : Type 0 where
  pub state : State
  pub decision_request : Request
  pub council_config : CouncilConfig
  pub expected_proposer_seat_id : String
  pub commitment : Option Commitment
  pub proposal : Option Proposal
  pub candidate_decision : Option Candidate
  pub votes : List Vote
  pub decision_record : Option DecisionRecord
  pub transition_log : List Transition
