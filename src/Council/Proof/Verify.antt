-- ===== src/Council/Proof/Verify.antt =====
-- `verifyCouncilQuorumProof` of scripts/dev/council-quorum-proof.mjs.
use mihver.Prelude.{
  String, Bool, true, false, not, ◌&&◌, Option, none, some, List, map, ◌==◌, length, all, includes,
  set_size, eqb, nonempty, is_hash64, if◌then◌else◌, same_codes,
}
use mihver.Json.{Json, arr, canonicalize_json}
use mihver.Council.Types.{RiskClass, r1, r2, r3, Seat, Vote, DecisionRecord}
use mihver.Council.Hashes.{
  Sha, state_name, disposition_name, reason_name, record_votes_json, detail_json,
  compute_decision_record_hash,
}
use mihver.Council.Quorum.{QuorumResult}
use mihver.Council.Sessions.{record_vote, proposer_seat}
use mihver.Council.Proof.{
  Provenance, contemporaneous, reconstructed, unknown_provenance, Proof, ProofError,
  decision_record_malformed, unknown_proof_version, unknown_quorum_rule_version, malformed_proof,
  proof_hash_invalid, decision_record_hash_invalid, config_trust_invalid, bindings_invalid,
  quorum_record_mismatch, provenance_not_contemporaneous, Registry, compute_council_config_hash,
  compute_proof_hash, valid_proof_config, valid_decision_record, valid_proof,
  lookup_trusted_config_hash, request_matches_record,
}
use mihver.Council.Proof.Recount.{Expected, recompute_quorum, expected_outcome}

-- `same`: equal canonical texts
unfoldable pub same : Json → Json → Bool
unfolding same_codes
same a b = same_codes (canonicalize_json a) (canonicalize_json b)

-- A value with other keys or types than a proof's. Such a value is structurally invalid; what the
-- tests of its digests and configuration find is left open.
pub record Misshapen : Type 0 where
  pub proof_version : Option String
  pub quorum_rule_version : Option String
  pub provenance_class : Provenance
  pub proof_hash_valid : Bool
  pub decision_record_hash_valid : Bool
  pub config_trust_valid : Bool

pub data Submitted : Type 0 where
  shaped : Proof → Submitted
  misshapen : Misshapen → Submitted

pub record Checks : Type 0 where
  pub proof_structurally_valid : Bool
  pub proof_hash_valid : Bool
  pub decision_record_hash_valid : Bool
  pub config_trust_valid : Bool
  pub bindings_valid : Bool
  pub quorum_recomputation : Option QuorumResult
  pub quorum_matches_record : Bool
  pub provenance_class : Provenance

pub record Verification : Type 0 where
  pub checks : Checks
  pub open checks use *
  pub authorization_evidence_eligible : Bool
  pub error_code : Option ProofError

abbrev is_contemporaneous : Provenance → Bool
is_contemporaneous contemporaneous = true
is_contemporaneous _ = false

-- `result.errorCode` keeps the first failure.
unfoldable pub first_failure : Checks → Option ProofError
first_failure c =
    if not c.proof_structurally_valid
    then some malformed_proof
    else if not c.proof_hash_valid
    then some proof_hash_invalid
    else if not c.decision_record_hash_valid
    then some decision_record_hash_invalid
    else if not c.config_trust_valid
    then some config_trust_invalid
    else if not c.bindings_valid
    then some bindings_invalid
    else if not c.quorum_matches_record
    then some quorum_record_mismatch
    else if not (is_contemporaneous c.provenance_class)
    then some provenance_not_contemporaneous
    else none

unfoldable pub eligible : Checks → Bool
eligible c =
    c.proof_structurally_valid
    && c.proof_hash_valid
    && c.decision_record_hash_valid
    && c.config_trust_valid
    && c.bindings_valid
    && c.quorum_matches_record
    && is_contemporaneous c.provenance_class

unfoldable pub conclude : Checks → Verification
conclude c = record {
  checks = c;
  authorization_evidence_eligible = eligible c;
  error_code = first_failure c;
}

-- A failure that returns before any test.
unfoldable pub refuse : Provenance → ProofError → Verification
refuse provenance code = record {
  checks = record {
    proof_structurally_valid = false;
    proof_hash_valid = false;
    decision_record_hash_valid = false;
    config_trust_valid = false;
    bindings_valid = false;
    quorum_recomputation = none;
    quorum_matches_record = false;
    provenance_class = provenance;
  };
  authorization_evidence_eligible = false;
  error_code = some code;
}

unfoldable pub is_text : Option String → String → Bool
is_text none s = false
is_text (some t) s = t == s

unfoldable pub config_trusted : Sha → Proof → Registry → Bool
config_trusted sha256 p registry =
    valid_proof_config p.body.council_config
    && compute_council_config_hash sha256 p.body.council_config == p.body.council_config_hash
    && is_text (lookup_trusted_config_hash registry p.body.decision_request.council_epoch_id)
        p.body.council_config_hash

unfoldable pub vote_bound : DecisionRecord → List String → Vote → Bool
unfolding is_text
vote_bound r seat_ids v =
    v.decision_request_id == r.body.decision_request_id
    && v.council_epoch_id == r.body.council_epoch_id
    && is_text r.body.candidate_hash v.candidate_hash
    && includes seat_ids v.seat_id

unfoldable pub bindings : Proof → DecisionRecord → Bool
bindings p r =
    let seats = p.body.council_config.seats in
    let votes = p.body.votes in
    let seat_ids = map (λ (s : Seat). s.seat_id) seats in
    request_matches_record p.body.decision_request r
    && p.body.decision_request.council_epoch_id == p.body.council_config.epoch_id
    && all (vote_bound r seat_ids) votes
    && eqb (set_size (map (λ (v : Vote). v.seat_id) votes)) (length votes)
    && is_text r.body.proposer_seat_id
        (proposer_seat seats p.body.decision_request.rotation_ordinal)
    && same (arr (record_votes_json (map (record_vote votes) seats)))
        (arr (record_votes_json r.body.votes))

unfoldable pub outcome_matches : Expected → DecisionRecord → Bool
outcome_matches e r =
    state_name e.state == state_name r.body.state
    && disposition_name e.disposition == disposition_name r.body.disposition
    && same (detail_json e.quorum_detail) (detail_json r.body.quorum_detail)
    && reason_name e.reason_code == reason_name r.body.reason_code

-- `["R1", "R2", "R3"].includes(riskClass)`
abbrev pub needs_council : RiskClass → Bool
needs_council r1 = true
needs_council r2 = true
needs_council r3 = true
needs_council _ = false

unfoldable pub recount : Proof → Option QuorumResult
unfolding recompute_quorum
recount p =
    if needs_council p.body.decision_request.risk_class
    then some (recompute_quorum p.body.decision_request p.body.council_config p.body.votes)
    else none

unfoldable pub quorum_matches : RiskClass → Option QuorumResult → DecisionRecord → Bool
quorum_matches risk none r = false
quorum_matches risk (some q) r = outcome_matches (expected_outcome risk q) r

unfoldable pub checks_of : Sha → Proof → DecisionRecord → Registry → Checks
checks_of sha256 p r registry =
    let record_hash = compute_decision_record_hash sha256 r.body in
    let structural = valid_proof p in
    let q = if structural then recount p else none in
    record {
      proof_structurally_valid = structural;
      proof_hash_valid = is_hash64 p.proof_hash && compute_proof_hash sha256 p.body == p.proof_hash;
      decision_record_hash_valid =
          record_hash == r.record_hash && record_hash == p.body.decision_record_hash;
      config_trust_valid = config_trusted sha256 p registry;
      bindings_valid = structural && bindings p r;
      quorum_recomputation = q;
      quorum_matches_record = quorum_matches p.body.decision_request.risk_class q r;
      provenance_class = p.body.provenance_class;
    }

-- On a value of another shape only the outer tests can pass.
unfoldable pub misshapen_checks : Misshapen → Checks
misshapen_checks m = record {
  proof_structurally_valid = false;
  proof_hash_valid = m.proof_hash_valid;
  decision_record_hash_valid = m.decision_record_hash_valid;
  config_trust_valid = m.config_trust_valid;
  bindings_valid = false;
  quorum_recomputation = none;
  quorum_matches_record = false;
  provenance_class = m.provenance_class;
}

abbrev version_of : Submitted → Option String
version_of (shaped p) = some p.body.proof_version
version_of (misshapen m) = m.proof_version

abbrev rule_version_of : Submitted → Option String
rule_version_of (shaped p) = some p.body.quorum_rule_version
rule_version_of (misshapen m) = m.quorum_rule_version

abbrev provenance_of : Submitted → Provenance
provenance_of (shaped p) = p.body.provenance_class
provenance_of (misshapen m) = m.provenance_class

unfoldable pub submitted_checks : Sha → Submitted → DecisionRecord → Registry → Checks
submitted_checks sha256 (shaped p) r registry = checks_of sha256 p r registry
submitted_checks sha256 (misshapen m) r registry = misshapen_checks m

unfoldable pub verify_council_quorum_proof :
    Sha → Submitted → DecisionRecord → Registry → Verification
verify_council_quorum_proof sha256 proof r registry =
    if not (valid_decision_record r)
    then refuse (provenance_of proof) decision_record_malformed
    else if not (is_text (version_of proof) "1")
    then refuse (provenance_of proof) unknown_proof_version
    else if not (is_text (rule_version_of proof) "decision-council-v1a")
    then refuse (provenance_of proof) unknown_quorum_rule_version
    else conclude (submitted_checks sha256 proof r registry)

-- `classifyDecisionRecordEvidence`, on a record with a hash text or not.
pub data Evidence : Type 0 where
  evidence_unknown v1_historical_no_proof v1_proof_capable_contemporaneous : Evidence
  v1_proof_reconstructed : Evidence

-- `record_hash` is `none` unless the record is an own object whose `recordHash` is a text; `proof`
-- is `none` for null and undefined, and else the provenance class that the proof bears.
unfoldable pub classify_decision_record_evidence : Option String → Option Provenance → Evidence
classify_decision_record_evidence none proof = evidence_unknown
classify_decision_record_evidence (some hash) proof =
    if not (nonempty hash) then evidence_unknown else elim proof [
      | none ↦ v1_historical_no_proof
      | some contemporaneous ↦ v1_proof_capable_contemporaneous
      | some reconstructed ↦ v1_proof_reconstructed
      | some unknown_provenance ↦ evidence_unknown
    ]
