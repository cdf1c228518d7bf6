-- ===== src/Council/Proof/Recount.antt =====
-- `recomputeQuorum` and `expectedOutcome` of scripts/dev/council-quorum-proof.mjs.
use mihver.Prelude.{
  String, true, false, not, Option, none, some, List, [], ◌∷◌, length, any, all, keep, set_size,
  ltb, eqb, if◌then◌else◌,
}
use mihver.Council.Types.{
  RiskClass, r1, r2, ReasonCode, r1_insufficient_approvals, r2_reviewer_rejected,
  r2_insufficient_reviewer_approvals, r2_quorum_met, r3_insufficient_approvals, r3_quorum_met,
  State, decided, no_quorum, Disposition, without_quorum, Seat, CouncilConfig, Request, Vote,
  QuorumDetail,
}
use mihver.Council.Quorum.{
  QuorumResult, approves, rejects, approvals_of, seat_by_id, family, r1_detail, r2_detail,
  r3_detail, r1_result, reviewer_votes,
}
use mihver.Council.Sessions.{proposer_seat}
use mihver.Council.Kernel.{outcome_disposition}

-- A vote of an unknown seat counts under the empty family.
unfoldable pub family_or_empty : Option Seat → String
unfolding family
family_or_empty none = ""
family_or_empty (some s) = family s

unfoldable pub recount_families : List Seat → List Vote → List String
unfolding family_or_empty seat_by_id
recount_families seats [] = []
recount_families seats (v ∷ votes) =
    family_or_empty (seat_by_id seats v.seat_id) ∷ recount_families seats votes

unfoldable pub recount_r1 : List Seat → List Vote → QuorumResult
unfolding approvals_of recount_families r1_result
recount_r1 seats votes =
    let approvals = approvals_of votes in
    if ltb (length approvals) 2
    then record {
      met = false;
      reason = r1_insufficient_approvals;
      detail = r1_detail (some r1_insufficient_approvals) (length approvals) none;
    }
    else r1_result (length approvals) (set_size (recount_families seats approvals))

unfoldable pub recount_r2 : List (Option Vote) → QuorumResult
recount_r2 votes =
    let count = length (keep approves votes) in
    if any rejects votes
    then record {
      met = false;
      reason = r2_reviewer_rejected;
      detail = r2_detail (some r2_reviewer_rejected) count;
    }
    else if not (all approves votes)
    then record {
      met = false;
      reason = r2_insufficient_reviewer_approvals;
      detail = r2_detail (some r2_insufficient_reviewer_approvals) count;
    }
    else record { met = true; reason = r2_quorum_met; detail = r2_detail none 2 }

unfoldable pub recount_r3 : List Vote → QuorumResult
unfolding approvals_of
recount_r3 votes =
    if not (eqb (length (approvals_of votes)) 3)
    then record {
      met = false;
      reason = r3_insufficient_approvals;
      detail = r3_detail (some r3_insufficient_approvals) (length (approvals_of votes));
    }
    else record { met = true; reason = r3_quorum_met; detail = r3_detail none 3 }

unfoldable pub recompute_by : RiskClass → List Seat → String → List Vote → QuorumResult
unfolding recount_r1 recount_r2 recount_r3 reviewer_votes
recompute_by r1 seats proposer votes = recount_r1 seats votes
recompute_by r2 seats proposer votes = recount_r2 (reviewer_votes seats proposer votes)
recompute_by _ seats proposer votes = recount_r3 votes

unfoldable pub recompute_quorum : Request → CouncilConfig → List Vote → QuorumResult
unfolding recompute_by proposer_seat
recompute_quorum request config votes =
    recompute_by request.risk_class config.seats
      (proposer_seat config.seats request.rotation_ordinal) votes

pub record Expected : Type 0 where
  pub state : State
  pub disposition : Disposition
  pub quorum_detail : QuorumDetail
  pub reason_code : ReasonCode

unfoldable pub expected_outcome : RiskClass → QuorumResult → Expected
unfolding outcome_disposition
expected_outcome risk q = record {
  state = if q.met then decided else no_quorum;
  disposition = if q.met then outcome_disposition risk else without_quorum;
  quorum_detail = q.detail;
  reason_code = q.reason;
}
