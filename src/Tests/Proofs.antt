-- ===== src/Tests/Proofs.antt =====
-- Witnesses of the theorems on canonical texts and quorum proofs.
use mihver.Prelude.{
  find, keep, nonempty, is_hash64, is_hex40, all, set_size, includes, ◌≡◌, ◌≢◌, refl, true, none,
  some, List, [], ◌∷◌, arith,
}
use mihver.Json.{units, canonicalize_json}
use mihver.Council.Types.{
  r3, voted, approve, Vote, RecordVote, DecisionRecord, decided, human_approval_required,
  r3_quorum_met,
}
use mihver.Council.Hashes.{
  digest, compute_decision_record_hash, record_votes_json, detail_json, state_name,
  disposition_name, reason_name,
}
use mihver.Council.Validity.{valid_request, valid_vote}
use mihver.Council.Quorum.{vote_by_seat, QuorumResult, quorum_of, r3_detail}
use mihver.Council.Sessions.{record_vote, proposer_seat}
use mihver.Council.Proof.{
  valid_decision_record, valid_proof, compute_proof_hash, compute_council_config_hash,
  lookup_trusted_config_hash, request_matches_record, Proof, Registry, contemporaneous,
}
use mihver.Council.Proof.Recount.{expected_outcome, recompute_quorum}
use mihver.Council.Proof.Agreement.{recompute_quorum-eq-quorum_of}
use mihver.Council.Proof.Verify.{
  is_text, conclude, eligible, submitted_checks, checks_of, config_trusted, bindings, vote_bound,
  same, recount, quorum_matches, outcome_matches, shaped, verify_council_quorum_proof,
}
use mihver.Council.Proof.Soundness.{Authentic, verify-Authentic, Supports, verify-Supports}
use mihver.Tests.Fixtures.{fixed_sha, hash, head, config, request, approval_of_seat}

differ : units "b" ≢ units "a"
unfolding units
differ = ground arith

abbrev votes : List Vote
votes = approval_of_seat "a" ∷ approval_of_seat "b" ∷ approval_of_seat "c" ∷ []

abbrev met : QuorumResult
met = record { met = true; reason = r3_quorum_met; detail = r3_detail none 3 }

counted : quorum_of r3 config (proposer_seat config.seats 0) votes ≡ some met
unfolding quorum_of keep
counted = refl

recompute_quorum-eq-quorum_of_example : recompute_quorum (request r3) config votes ≡ met
recompute_quorum-eq-quorum_of_example =
    recompute_quorum-eq-quorum_of (request r3) config votes met counted

abbrev recorded : List RecordVote
recorded =
    (record { seat_id = "a"; vote_value = voted approve; candidate_hash = some hash })
    ∷ (record { seat_id = "b"; vote_value = voted approve; candidate_hash = some hash })
    ∷ (record { seat_id = "c"; vote_value = voted approve; candidate_hash = some hash })
    ∷ []

abbrev pub decision : DecisionRecord
decision = record {
  body = record {
    decision_request_id = "d";
    task_id = "t";
    risk_class = r3;
    context_hash = hash;
    repository_head = head;
    council_epoch_id = "e";
    state = decided;
    disposition = human_approval_required;
    candidate_hash = some hash;
    proposer_seat_id = some "a";
    votes = recorded;
    quorum_detail = r3_detail none 3;
    reason_code = r3_quorum_met;
  };
  record_hash = hash;
}

abbrev pub proof : Proof
proof = record {
  body = record {
    proof_version = "1";
    decision_request = request r3;
    decision_record_hash = hash;
    quorum_rule_version = "decision-council-v1a";
    council_config = config;
    council_config_hash = hash;
    votes = votes;
    provenance_class = contemporaneous;
  };
  proof_hash = hash;
}

abbrev pub registry : Registry
registry = ("e", hash) ∷ []

pub is_eligible :
    (verify_council_quorum_proof fixed_sha
      (shaped proof)
      decision
      registry).authorization_evidence_eligible
    ≡ true
unfolding verify_council_quorum_proof valid_decision_record nonempty is_hash64 is_hex40 all is_text
    conclude eligible submitted_checks checks_of valid_proof valid_request set_size valid_vote
    compute_proof_hash digest compute_decision_record_hash config_trusted
    compute_council_config_hash lookup_trusted_config_hash bindings request_matches_record
    vote_bound proposer_seat same canonicalize_json record_votes_json record_vote vote_by_seat
    recount recompute_quorum quorum_matches expected_outcome outcome_matches detail_json state_name
    disposition_name reason_name keep includes find
is_eligible = refl

verify-Authentic_example : Authentic fixed_sha proof decision registry
verify-Authentic_example = verify-Authentic fixed_sha proof decision registry is_eligible

verify-Supports_example : Supports proof decision
verify-Supports_example = verify-Supports fixed_sha proof decision registry is_eligible
