-- ===== src/Council/Quorum.antt =====
-- `quorum` of scripts/dev/decision-council-kernel.mjs.
use Prim.Native.String
use mihver.Prelude.{
  ℕ, String, Bool, true, false, not, Option, none, some, List, [], ◌∷◌, map, ◌==◌, length, find,
  any, all, keep, set_size, ltb, eqb, if◌then◌else◌,
}
use mihver.Council.Types.{
  RiskClass, r1, r2, r3, VoteValue, approve, reject, ReasonCode, r1_insufficient_approvals,
  r1_diversity_requirement_not_met, r1_quorum_met, r2_reviewer_rejected,
  r2_insufficient_reviewer_approvals, r2_quorum_met, r3_insufficient_approvals, r3_quorum_met, Seat,
  CouncilConfig, Vote, QuorumDetail,
}

pub record QuorumResult : Type 0 where
  pub met : Bool
  pub reason : ReasonCode
  pub detail : QuorumDetail

abbrev pub is_approve : VoteValue → Bool
is_approve approve = true
is_approve _ = false

abbrev pub is_reject : VoteValue → Bool
is_reject reject = true
is_reject _ = false

-- `vote?.voteValue === "APPROVE"`
abbrev pub approves : Option Vote → Bool
approves none = false
approves (some v) = is_approve v.vote_value

abbrev pub rejects : Option Vote → Bool
rejects none = false
rejects (some v) = is_reject v.vote_value

unfoldable pub approvals_of : List Vote → List Vote
approvals_of votes = keep (λ v. is_approve v.vote_value) votes

unfoldable pub seat_by_id : List Seat → String → Option Seat
seat_by_id seats id = find (λ s. s.seat_id == id) seats

unfoldable pub vote_by_seat : List Vote → String → Option Vote
vote_by_seat votes id = find (λ v. v.seat_id == id) votes

-- `${seat.provider}\0${seat.modelFamily}`
unfoldable pub family : Seat → String
family s = String.◌++◌ s.provider (String.◌++◌ "\0" s.model_family)

-- The family of each vote's seat; `none` where a seat is unknown, since reading it throws.
unfoldable pub families : List Seat → List Vote → Option (List String)
unfolding seat_by_id family
families seats [] = some []
families seats (v ∷ vs) =
    let rest = families seats vs in
    elim (seat_by_id seats v.seat_id) [
      | none ↦ none
      | some s ↦ elim rest [ none ↦ none | some fs ↦ some (family s ∷ fs) ]
    ]

abbrev pub r1_detail : Option ReasonCode → ℕ → Option ℕ → QuorumDetail
r1_detail reason approvals distinct = record {
  rules = r1;
  reason = reason;
  approvals = some approvals;
  distinct_provider_model_families = distinct;
  reviewer_approvals = none;
}

abbrev pub r2_detail : Option ReasonCode → ℕ → QuorumDetail
r2_detail reason approvals = record {
  rules = r2;
  reason = reason;
  approvals = none;
  distinct_provider_model_families = none;
  reviewer_approvals = some approvals;
}

abbrev pub r3_detail : Option ReasonCode → ℕ → QuorumDetail
r3_detail reason approvals = record {
  rules = r3;
  reason = reason;
  approvals = some approvals;
  distinct_provider_model_families = none;
  reviewer_approvals = none;
}

-- R1 when the distinct families of the approvals have been counted.
unfoldable pub r1_result : ℕ → ℕ → QuorumResult
r1_result approvals distinct =
    if ltb distinct 2
    then record {
      met = false;
      reason = r1_diversity_requirement_not_met;
      detail = r1_detail (some r1_diversity_requirement_not_met) approvals (some distinct);
    }
    else record {
      met = true;
      reason = r1_quorum_met;
      detail = r1_detail none approvals (some distinct);
    }

unfoldable pub quorum_r1 : List Seat → List Vote → Option QuorumResult
unfolding approvals_of families r1_result
quorum_r1 seats votes =
    let approvals = approvals_of votes in
    if ltb (length approvals) 2
    then some (record {
      met = false;
      reason = r1_insufficient_approvals;
      detail = r1_detail (some r1_insufficient_approvals) (length approvals) none;
    })
    else elim (families seats approvals) [
      | none ↦ none
      | some fs ↦ some (r1_result (length approvals) (set_size fs))
    ]

-- The votes of the seats other than the proposer's, in the order of the seats.
unfoldable pub reviewer_votes : List Seat → String → List Vote → List (Option Vote)
unfolding vote_by_seat
reviewer_votes seats proposer votes =
    map (λ s. vote_by_seat votes s.seat_id) (keep (λ s. not (s.seat_id == proposer)) seats)

unfoldable pub quorum_r2 : List (Option Vote) → QuorumResult
quorum_r2 votes =
    if any rejects votes
    then record {
      met = false;
      reason = r2_reviewer_rejected;
      detail = r2_detail (some r2_reviewer_rejected) (length (keep approves votes));
    }
    else if not (all approves votes)
    then record {
      met = false;
      reason = r2_insufficient_reviewer_approvals;
      detail = r2_detail (some r2_insufficient_reviewer_approvals) (length (keep approves votes));
    }
    else record { met = true; reason = r2_quorum_met; detail = r2_detail none 2 }

unfoldable pub quorum_r3 : List Vote → QuorumResult
unfolding approvals_of
quorum_r3 votes =
    if eqb (length (approvals_of votes)) 3
    then record { met = true; reason = r3_quorum_met; detail = r3_detail none 3 }
    else record {
      met = false;
      reason = r3_insufficient_approvals;
      detail = r3_detail (some r3_insufficient_approvals) (length (approvals_of votes));
    }

-- `none` means that a TypeError is thrown. Every risk class but R1 and R2 takes the last rule.
unfoldable pub quorum_of : RiskClass → CouncilConfig → String → List Vote → Option QuorumResult
unfolding quorum_r1 quorum_r2 quorum_r3 reviewer_votes
quorum_of r1 config proposer votes = quorum_r1 config.seats votes
quorum_of r2 config proposer votes = some (quorum_r2 (reviewer_votes config.seats proposer votes))
quorum_of _ config proposer votes = some (quorum_r3 votes)
