-- ===== src/Council/Validity.antt =====
-- The validity tests of scripts/dev/decision-council-kernel.mjs, on artifacts of the right shape.
use mihver.Prelude.{
  Bool, true, false, ◌&&◌, none, some, all, length, eqb, nonempty, is_hash64, is_hex40,
}
use mihver.Council.Types.{
  Seat, CouncilConfig, Request, Commitment, SubmittedContent, SubmittedProposal, Vote,
}

unfoldable pub valid_seat : Seat → Bool
valid_seat v =
    nonempty v.seat_id
    && nonempty v.provider
    && nonempty v.model_family
    && nonempty v.model_id
    && nonempty v.council_epoch_id

unfoldable pub valid_council_config : CouncilConfig → Bool
unfolding valid_seat
valid_council_config v = nonempty v.epoch_id && eqb (length v.seats) 3 && all valid_seat v.seats

unfoldable pub valid_request : Request → Bool
valid_request v =
    nonempty v.decision_request_id
    && nonempty v.task_id
    && is_hash64 v.context_hash
    && is_hex40 v.repository_head
    && nonempty v.council_epoch_id

unfoldable pub valid_commitment : Commitment → Bool
valid_commitment v =
    nonempty v.decision_request_id
    && nonempty v.seat_id
    && nonempty v.council_epoch_id
    && is_hash64 v.commitment_hash

-- A text `summary` and an object `payload` that `canonicalizeJson` accepts.
unfoldable pub valid_proposal_content : SubmittedContent → Bool
valid_proposal_content v = nonempty v.summary && elim v.payload [ none ↦ false | some p ↦ true ]

unfoldable pub valid_proposal : SubmittedProposal → Bool
unfolding valid_proposal_content
valid_proposal v =
    nonempty v.decision_request_id
    && nonempty v.seat_id
    && nonempty v.council_epoch_id
    && valid_proposal_content v.proposal_content

unfoldable pub valid_vote : Vote → Bool
valid_vote v =
    nonempty v.decision_request_id
    && is_hash64 v.candidate_hash
    && nonempty v.seat_id
    && nonempty v.council_epoch_id
