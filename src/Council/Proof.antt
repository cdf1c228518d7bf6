-- ===== src/Council/Proof.antt =====
-- scripts/dev/council-quorum-proof.mjs: the artifacts of a quorum proof, their digests and tests.
-- The texts of a submitted proof and of its record are taken to hold no lone surrogate.
pub mod Recount
pub mod Verify
pub mod Agreement
pub mod Soundness
pub mod Complete
use Prim.Native.String
use mihver.Prelude.{
  ℕ, String, Bool, true, false, not, ◌&&◌, ◌||◌, Option, none, some, List, [], ◌∷◌, map, ◌==◌,
  length, all, set_size, eqb, nonempty, is_hash64, is_hex40, if◌then◌else◌,
}
use mihver.Json.{Json, Items, nat, str, arr, nil, cons, object}
use mihver.Council.Types.{
  Shaped, exact, malformed, RiskClass, State, council_not_required, decided, no_quorum, denied,
  Seat, CouncilConfig, Request, Vote, RecordVote, QuorumDetail, DecisionRecord,
}
use mihver.Council.Hashes.{Sha, risk_name, vote_name, digest, compute_decision_record_hash}
use mihver.Council.Validity.{valid_seat, valid_request, valid_vote}
use mihver.Council.Sessions.{seat_identity}

pub data Provenance : Type 0 where
  contemporaneous reconstructed unknown_provenance : Provenance

pub record ProofBody : Type 0 where
  pub proof_version : String
  pub decision_request : Request
  pub decision_record_hash : String
  pub quorum_rule_version : String
  pub council_config : CouncilConfig
  pub council_config_hash : String
  pub votes : List Vote
  pub provenance_class : Provenance

pub record Proof : Type 0 where
  pub body : ProofBody
  pub open body use *
  pub proof_hash : String

pub data ProofError : Type 0 where
  decision_record_malformed unknown_proof_version unknown_quorum_rule_version : ProofError
  malformed_proof proof_hash_invalid decision_record_hash_invalid config_trust_invalid : ProofError
  bindings_invalid quorum_record_mismatch provenance_not_contemporaneous : ProofError
  malformed_request malformed_council_config malformed_vote : ProofError
  decision_request_record_mismatch proof_missing : ProofError

seat_json : Seat → Json
seat_json s = object (
    ("seatId", str s.seat_id)
    ∷ ("provider", str s.provider)
    ∷ ("modelFamily", str s.model_family)
    ∷ ("modelId", str s.model_id)
    ∷ ("councilEpochId", str s.council_epoch_id)
    ∷ [])

seats_json : List Seat → Items
seats_json [] = nil
seats_json (s ∷ seats) = cons (seat_json s) (seats_json seats)

unfoldable pub config_json : CouncilConfig → Json
unfolding seat_json seats_json
config_json c = object (("epochId", str c.epoch_id) ∷ ("seats", arr (seats_json c.seats)) ∷ [])

request_json : Request → Json
request_json r = object (
    ("decisionRequestId", str r.decision_request_id)
    ∷ ("taskId", str r.task_id)
    ∷ ("riskClass", str (risk_name r.risk_class))
    ∷ ("contextHash", str r.context_hash)
    ∷ ("repositoryHead", str r.repository_head)
    ∷ ("councilEpochId", str r.council_epoch_id)
    ∷ ("rotationOrdinal", nat r.rotation_ordinal)
    ∷ [])

vote_json : Vote → Json
vote_json v = object (
    ("decisionRequestId", str v.decision_request_id)
    ∷ ("candidateHash", str v.candidate_hash)
    ∷ ("seatId", str v.seat_id)
    ∷ ("councilEpochId", str v.council_epoch_id)
    ∷ ("voteValue", str (vote_name v.vote_value))
    ∷ [])

votes_json : List Vote → Items
votes_json [] = nil
votes_json (v ∷ votes) = cons (vote_json v) (votes_json votes)

provenance_name : Provenance → String
provenance_name contemporaneous = "CONTEMPORANEOUS"
provenance_name reconstructed = "RECONSTRUCTED"
provenance_name unknown_provenance = "UNKNOWN"

unfoldable pub proof_json : ProofBody → Json
unfolding request_json config_json votes_json vote_json provenance_name
proof_json p = object (
    ("proofVersion", str p.proof_version)
    ∷ ("decisionRequest", request_json p.decision_request)
    ∷ ("decisionRecordHash", str p.decision_record_hash)
    ∷ ("quorumRuleVersion", str p.quorum_rule_version)
    ∷ ("councilConfig", config_json p.council_config)
    ∷ ("councilConfigHash", str p.council_config_hash)
    ∷ ("votes", arr (votes_json p.votes))
    ∷ ("provenanceClass", str (provenance_name p.provenance_class))
    ∷ [])

unfoldable pub compute_council_config_hash : Sha → CouncilConfig → String
unfolding config_json
compute_council_config_hash sha256 c =
    digest sha256 "MIHVER:DecisionCouncil:CouncilConfig:v1\0" (config_json c)

unfoldable pub compute_proof_hash : Sha → ProofBody → String
unfolding proof_json
compute_proof_hash sha256 p =
    digest sha256 "MIHVER:DecisionCouncil:CouncilQuorumProof:v1\0" (proof_json p)

-- `validCouncilConfig` of this file also wants distinct seats and one epoch.
unfoldable pub valid_proof_config : CouncilConfig → Bool
unfolding valid_seat seat_identity
valid_proof_config c =
    nonempty c.epoch_id
    && eqb (length c.seats) 3
    && all valid_seat c.seats
    && eqb (set_size (map (λ s. s.seat_id) c.seats)) 3
    && eqb (set_size (map seat_identity c.seats)) 3
    && all (λ s. s.council_epoch_id == c.epoch_id) c.seats

null_or : (String → Bool) → Option String → Bool
null_or test none = true
null_or test (some s) = test s

unfoldable pub valid_record_vote : RecordVote → Bool
unfolding null_or
valid_record_vote v = nonempty v.seat_id && null_or is_hash64 v.candidate_hash

-- `RECORD_STATES`
abbrev is_record_state : State → Bool
is_record_state council_not_required = true
is_record_state decided = true
is_record_state no_quorum = true
is_record_state denied = true
is_record_state _ = false

unfoldable pub valid_decision_record : DecisionRecord → Bool
unfolding null_or valid_record_vote
valid_decision_record r =
    nonempty r.body.decision_request_id
    && nonempty r.body.task_id
    && is_hash64 r.body.context_hash
    && is_hex40 r.body.repository_head
    && nonempty r.body.council_epoch_id
    && is_record_state r.body.state
    && null_or is_hash64 r.body.candidate_hash
    && null_or nonempty r.body.proposer_seat_id
    && all valid_record_vote r.body.votes
    && is_hash64 r.record_hash

abbrev is_known : Provenance → Bool
is_known unknown_provenance = false
is_known _ = true

unfoldable pub valid_proof : Proof → Bool
unfolding valid_proof_config
valid_proof p =
    p.body.proof_version == "1"
    && valid_request p.body.decision_request
    && is_hash64 p.body.decision_record_hash
    && p.body.quorum_rule_version == "decision-council-v1a"
    && valid_proof_config p.body.council_config
    && is_hash64 p.body.council_config_hash
    && all valid_vote p.body.votes
    && is_known p.body.provenance_class
    && is_hash64 p.proof_hash

-- The trusted registry, as an array of entries or as an object keyed by epoch: for each epoch the
-- hash of its configuration. The first entry of an epoch counts.
abbrev pub Registry : Type 0
Registry = List (String × String)

unfoldable pub lookup_trusted_config_hash : Registry → String → Option String
lookup_trusted_config_hash [] epoch = none
lookup_trusted_config_hash ((e, hash) ∷ rest) epoch =
    if e == epoch then some hash else lookup_trusted_config_hash rest epoch

unfoldable pub make_registry_entry : Sha → CouncilConfig → Option (String × String)
unfolding valid_proof_config compute_council_config_hash
make_registry_entry sha256 c =
    if valid_proof_config c then some (c.epoch_id, compute_council_config_hash sha256 c) else none

-- `REQUEST_FIELDS.every((field) => request[field] === record[field])`
same_risk : RiskClass → RiskClass → Bool
same_risk a b = risk_name a == risk_name b

unfoldable pub request_matches_record : Request → DecisionRecord → Bool
unfolding same_risk
request_matches_record q r =
    q.decision_request_id == r.body.decision_request_id
    && q.task_id == r.body.task_id
    && same_risk q.risk_class r.body.risk_class
    && q.context_hash == r.body.context_hash
    && q.repository_head == r.body.repository_head
    && q.council_epoch_id == r.body.council_epoch_id

pub data Built : Type 0 where
  built : Proof → Built
  build_failure : ProofError → Built

unfoldable pub build_checked : Sha → Request → CouncilConfig → List Vote → DecisionRecord → Built
unfolding compute_proof_hash compute_council_config_hash request_matches_record
build_checked sha256 request config votes r =
    if not (request_matches_record request r)
    then build_failure decision_request_record_mismatch
    else if not (compute_decision_record_hash sha256 r.body == r.record_hash)
    then build_failure decision_record_hash_invalid
    else let body : ProofBody = record {
      proof_version = "1";
      decision_request = request;
      decision_record_hash = r.record_hash;
      quorum_rule_version = "decision-council-v1a";
      council_config = config;
      council_config_hash = compute_council_config_hash sha256 config;
      votes = votes;
      provenance_class = contemporaneous;
    } in
      built (record { body = body; proof_hash = compute_proof_hash sha256 body })

unfoldable pub build_council_quorum_proof :
    Sha → Request → CouncilConfig → List Vote → DecisionRecord → Built
unfolding build_checked valid_proof_config valid_decision_record
build_council_quorum_proof sha256 request config votes r =
    if not (valid_request request)
    then build_failure malformed_request
    else if not (valid_proof_config config)
    then build_failure malformed_council_config
    else if not (all valid_vote votes)
    then build_failure malformed_vote
    else if not (valid_decision_record r)
    then build_failure decision_record_malformed
    else build_checked sha256 request config votes r
