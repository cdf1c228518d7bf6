-- ===== src/Tests/Proven.antt =====
-- A council of risk class R1 from the admission to the verification of its quorum proof.
use mihver.Council.Hashes.{compute_commitment_hash, compute_candidate_hash, digest}
use mihver.Council.Validity.{
  valid_request, valid_council_config, valid_commitment, valid_proposal, valid_vote,
}
use mihver.Prelude.{
  ◌≡◌, refl, true, none, some, [], ◌∷◌, nonempty, is_hash64, is_hex40, all, set_size, any, keep,
  find,
}
use mihver.Council.Types.{
  r1, exact, Session, DecisionRecord, SubmittedProposal, commitment_collection, proposal_reveal,
  candidate_frozen, voting, decided, council_approved, r1_quorum_met, submit_commitment,
  reveal_proposal, freeze_candidate, cast_vote, finalize, submit_commitment_event,
  reveal_proposal_event, freeze_candidate_event, cast_vote_event, finalize_event,
}
use mihver.Council.Sessions.{
  transition, create_session, session_created, make_record, record_prints, seats_print,
}
use mihver.Council.Kernel.{accepted, apply_event, frozen_candidate, finalized, candidate_prints}
use mihver.Council.Machine.{Reach, here, next}
use mihver.Council.Quorum.{QuorumResult, r1_detail}
use mihver.Council.Proof.{
  Proof, Registry, built, build_council_quorum_proof, compute_council_config_hash,
  lookup_trusted_config_hash,
}
use mihver.Council.Proof.Verify.{shaped, verify_council_quorum_proof}
use mihver.Council.Proof.Complete.{finalized_proof-eligible}
use mihver.Council.Proof.Complete.Ready.{Hashes}
use mihver.Tests.Fixtures.{
  config, request, expected, hash, fixed_sha, content, proposal, commitment, approval_of_seat,
  new_session,
}

abbrev submitted : SubmittedProposal
submitted = record {
  decision_request_id = "d";
  seat_id = "a";
  council_epoch_id = "e";
  proposal_content = record { summary = "s"; payload = some content.payload };
}

abbrev committed : Session
committed =
    transition (record (new_session r1) { commitment = some commitment }) commitment_collection
      submit_commitment

abbrev revealed : Session
revealed =
    transition (record committed { proposal = some proposal }) proposal_reveal reveal_proposal

abbrev frozen : Session
frozen =
    transition
      (record revealed { candidate_decision = some (frozen_candidate fixed_sha revealed content) })
      candidate_frozen freeze_candidate

abbrev first_vote : Session
first_vote = transition (record frozen { votes = approval_of_seat "a" ∷ [] }) voting cast_vote

abbrev second_vote : Session
second_vote =
    transition (record first_vote { votes = approval_of_seat "a" ∷ approval_of_seat "b" ∷ [] })
      voting cast_vote

abbrev met : QuorumResult
met = record { met = true; reason = r1_quorum_met; detail = r1_detail none 2 (some 2) }

abbrev finished : Session
finished = finalized fixed_sha second_vote met

abbrev final_record : DecisionRecord
final_record =
    make_record fixed_sha (transition second_vote decided finalize) decided council_approved
      (r1_detail none 2 (some 2)) r1_quorum_met

abbrev registry : Registry
registry = ("e", hash) ∷ []

begins :
    create_session fixed_sha (exact (request r1)) (exact config) (some expected)
    ≡ session_created (new_session r1)
unfolding create_session valid_request nonempty is_hash64 is_hex40 valid_council_config all set_size
    any
begins = refl

commits :
    apply_event fixed_sha (new_session r1) (submit_commitment_event (exact commitment))
    ≡ accepted committed
unfolding apply_event valid_commitment nonempty is_hash64
commits = refl

reveals :
    apply_event fixed_sha committed (reveal_proposal_event (exact submitted)) ≡ accepted revealed
unfolding apply_event valid_proposal nonempty compute_commitment_hash
reveals = refl

freezes : apply_event fixed_sha revealed (freeze_candidate_event (exact tt)) ≡ accepted frozen
unfolding apply_event candidate_prints all
freezes = refl

votes_first :
    apply_event fixed_sha frozen (cast_vote_event (exact (approval_of_seat "a")))
    ≡ accepted first_vote
unfolding apply_event valid_vote nonempty is_hash64 compute_candidate_hash any
votes_first = refl

votes_second :
    apply_event fixed_sha first_vote (cast_vote_event (exact (approval_of_seat "b")))
    ≡ accepted second_vote
unfolding apply_event valid_vote nonempty is_hash64 compute_candidate_hash any
votes_second = refl

finishes : apply_event fixed_sha second_vote (finalize_event (exact tt)) ≡ accepted finished
unfolding apply_event keep find set_size record_prints seats_print all
finishes = refl

records : finished.decision_record ≡ some final_record
unfolding finalized
records = refl

trusts :
    lookup_trusted_config_hash registry second_vote.council_config.epoch_id
    ≡ some (compute_council_config_hash fixed_sha second_vote.council_config)
unfolding lookup_trusted_config_hash transition compute_council_config_hash digest
trusts = refl

hashes : Hashes fixed_sha
unfolding is_hash64
hashes text = refl

reaches : Reach fixed_sha (new_session r1) second_vote
reaches =
    next (next (next (next (next here _ commits) _ reveals) _ freezes) _ votes_first) _ votes_second

finalized_proof-eligible_example :
    (p : Proof) × (build_council_quorum_proof fixed_sha second_vote.decision_request
        second_vote.council_config second_vote.votes final_record
      ≡ built p)
    × ((verify_council_quorum_proof fixed_sha
          (shaped p)
          final_record
          registry).authorization_evidence_eligible
        ≡ true)
finalized_proof-eligible_example =
    finalized_proof-eligible fixed_sha (exact (request r1)) (exact config) (some expected)
      (new_session r1) second_vote finished final_record registry hashes begins reaches finishes
      records trusts
