-- ===== src/Council/Hashes.antt =====
-- The domain-separated digests of scripts/dev/decision-council-kernel.mjs and
-- council-quorum-proof.mjs, over the canonical text of the artifact.
-- `sha256` stands for `createHash("sha256")…digest("hex")` of node:crypto, on the code units of the
-- text whose UTF-8 bytes are hashed.
-- On an artifact with a lone surrogate the digests of the source throw: the sessions test for that
-- before they hash (record_prints, candidate_prints).
use Prim.Native.String
use mihver.Prelude.{ℕ, String, Option, none, some, List, [], ◌∷◌, ◌++◌}
use mihver.Json.{Json, Items, null, nat, str, arr, nil, cons, object, units, canonicalize_json}
use mihver.Council.Types.{
  RiskClass, r0, r1, r2, r3, r4, VoteValue, approve, reject, abstain, RecordedValue, voted, missing,
  State, created, commitment_collection, proposal_reveal, candidate_frozen, voting,
  council_not_required, decided, no_quorum, denied, Disposition, not_required, council_approved,
  human_approval_required, without_quorum, hard_denied, ReasonCode, council_not_required_risk_r0,
  hard_deny_risk_r4, r1_insufficient_approvals, r1_diversity_requirement_not_met, r1_quorum_met,
  r2_reviewer_rejected, r2_insufficient_reviewer_approvals, r2_quorum_met,
  r3_insufficient_approvals, r3_quorum_met, ProposalContent, CandidateBody, RecordVote,
  QuorumDetail, RecordBody,
}

abbrev pub Sha : Type 0
Sha = List ℕ → String

unfoldable pub risk_name : RiskClass → String
risk_name r0 = "R0"
risk_name r1 = "R1"
risk_name r2 = "R2"
risk_name r3 = "R3"
risk_name r4 = "R4"

unfoldable pub vote_name : VoteValue → String
vote_name approve = "APPROVE"
vote_name reject = "REJECT"
vote_name abstain = "ABSTAIN"

recorded_name : RecordedValue → String
recorded_name (voted v) = vote_name v
recorded_name missing = "MISSING"

unfoldable pub state_name : State → String
state_name created = "CREATED"
state_name commitment_collection = "COMMITMENT_COLLECTION"
state_name proposal_reveal = "PROPOSAL_REVEAL"
state_name candidate_frozen = "CANDIDATE_FROZEN"
state_name voting = "VOTING"
state_name council_not_required = "COUNCIL_NOT_REQUIRED"
state_name decided = "DECIDED"
state_name no_quorum = "NO_QUORUM"
state_name denied = "DENIED"

unfoldable pub disposition_name : Disposition → String
disposition_name not_required = "COUNCIL_NOT_REQUIRED"
disposition_name council_approved = "COUNCIL_APPROVED"
disposition_name human_approval_required = "HUMAN_APPROVAL_REQUIRED"
disposition_name without_quorum = "NO_QUORUM"
disposition_name hard_denied = "DENIED"

unfoldable pub reason_name : ReasonCode → String
reason_name council_not_required_risk_r0 = "COUNCIL_NOT_REQUIRED_RISK_R0"
reason_name hard_deny_risk_r4 = "HARD_DENY_RISK_R4"
reason_name r1_insufficient_approvals = "R1_INSUFFICIENT_APPROVALS"
reason_name r1_diversity_requirement_not_met = "R1_DIVERSITY_REQUIREMENT_NOT_MET"
reason_name r1_quorum_met = "R1_QUORUM_MET"
reason_name r2_reviewer_rejected = "R2_REVIEWER_REJECTED"
reason_name r2_insufficient_reviewer_approvals = "R2_INSUFFICIENT_REVIEWER_APPROVALS"
reason_name r2_quorum_met = "R2_QUORUM_MET"
reason_name r3_insufficient_approvals = "R3_INSUFFICIENT_APPROVALS"
reason_name r3_quorum_met = "R3_QUORUM_MET"

text_or_null : Option String → Json
text_or_null none = null
text_or_null (some s) = str s

reason_or_null : Option ReasonCode → Json
reason_or_null none = null
reason_or_null (some r) = str (reason_name r)

-- A property that is left out when there is no value.
optional : String → Option ℕ → List (String × Json)
optional k none = []
optional k (some n) = (k, nat n) ∷ []

pub content_json : ProposalContent → Json
unfolding object
content_json c = object (("summary", str c.summary) ∷ ("payload", c.payload) ∷ [])

pub candidate_json : CandidateBody → Json
unfolding object risk_name content_json
candidate_json c = object (
    ("decisionRequestId", str c.decision_request_id)
    ∷ ("taskId", str c.task_id)
    ∷ ("riskClass", str (risk_name c.risk_class))
    ∷ ("contextHash", str c.context_hash)
    ∷ ("repositoryHead", str c.repository_head)
    ∷ ("councilEpochId", str c.council_epoch_id)
    ∷ ("proposerSeatId", str c.proposer_seat_id)
    ∷ ("candidateOrdinal", nat c.candidate_ordinal)
    ∷ ("proposalContent", content_json c.proposal_content)
    ∷ [])

unfoldable pub record_votes_json : List RecordVote → Items
unfolding object recorded_name vote_name text_or_null
record_votes_json [] = nil
record_votes_json (v ∷ vs) =
    cons
      (object (
        ("seatId", str v.seat_id)
        ∷ ("voteValue", str (recorded_name v.vote_value))
        ∷ ("candidateHash", text_or_null v.candidate_hash)
        ∷ []))
      (record_votes_json vs)

unfoldable pub detail_json : QuorumDetail → Json
unfolding object risk_name reason_or_null reason_name optional
detail_json d = object (
    ("ruleset", str (risk_name d.rules))
      ∷ ("reason", reason_or_null d.reason)
      ∷ optional "approvals" d.approvals
    ++ optional "distinctProviderModelFamilies" d.distinct_provider_model_families
    ++ optional "reviewerApprovals" d.reviewer_approvals)

pub record_json : RecordBody → Json
unfolding object risk_name state_name disposition_name reason_name text_or_null record_votes_json
    detail_json
record_json r = object (
    ("decisionRequestId", str r.decision_request_id)
    ∷ ("taskId", str r.task_id)
    ∷ ("riskClass", str (risk_name r.risk_class))
    ∷ ("contextHash", str r.context_hash)
    ∷ ("repositoryHead", str r.repository_head)
    ∷ ("councilEpochId", str r.council_epoch_id)
    ∷ ("state", str (state_name r.state))
    ∷ ("disposition", str (disposition_name r.disposition))
    ∷ ("candidateHash", text_or_null r.candidate_hash)
    ∷ ("proposerSeatId", text_or_null r.proposer_seat_id)
    ∷ ("votes", arr (record_votes_json r.votes))
    ∷ ("quorumDetail", detail_json r.quorum_detail)
    ∷ ("reasonCode", str (reason_name r.reason_code))
    ∷ [])

-- `digest(domain, value)`
unfoldable pub digest : Sha → String → Json → String
digest sha256 domain value =
    String.◌++◌ "sha256:" (sha256 (units domain ++ canonicalize_json value))

unfoldable pub compute_commitment_hash : Sha → ProposalContent → String
unfolding digest content_json
compute_commitment_hash sha256 c =
    digest sha256 "MIHVER:DecisionCouncil:ProposalCommitment:v1\0" (content_json c)

unfoldable pub compute_candidate_hash : Sha → CandidateBody → String
unfolding digest candidate_json
compute_candidate_hash sha256 c =
    digest sha256 "MIHVER:DecisionCouncil:CandidateDecision:v1\0" (candidate_json c)

unfoldable pub compute_decision_record_hash : Sha → RecordBody → String
unfolding digest record_json
compute_decision_record_hash sha256 r =
    digest sha256 "MIHVER:DecisionCouncil:DecisionRecord:v1\0" (record_json r)
