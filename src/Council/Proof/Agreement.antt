-- ===== src/Council/Proof/Agreement.antt =====
-- The verifier's recount agrees with the kernel's quorum, and an eligible proof has passed every
-- test.
use mihver.Prelude.{String, ◌≡◌, inl, inr, Option, some, List, [], ◌∷◌, arith, Option-cases}
use mihver.Council.Types.{RiskClass, r1, r2, Seat, CouncilConfig, Request, Vote}
use mihver.Council.Quorum.{
  QuorumResult, approvals_of, families, quorum_r1, quorum_r2, quorum_r3, reviewer_votes, quorum_of,
}
use mihver.Council.Decision.Families.{families-cons}
use mihver.Council.Sessions.{proposer_seat}
use mihver.Council.Proof.Recount.{
  recount_families, recount_r1, recount_r2, recount_r3, recompute_by, recompute_quorum,
}

recount_families-eq :
    (seats : List Seat) (votes : List Vote) (fs : List String)
    → families seats votes ≡ some fs
    → recount_families seats votes ≡ fs
unfolding families recount_families
recount_families-eq seats [] fs h = ground arith
recount_families-eq seats (v ∷ votes) fs h =
    let (s, gs, found, rest, e) = families-cons seats v votes fs h in
    let ih : recount_families seats votes ≡ gs = recount_families-eq seats votes gs rest in
    ground arith

recount_r1-eq :
    (seats : List Seat) (votes : List Vote) (q : QuorumResult)
    → quorum_r1 seats votes ≡ some q
    → recount_r1 seats votes ≡ q
unfolding quorum_r1 recount_r1
recount_r1-eq seats votes q h = elim (Option-cases (families seats (approvals_of votes))) [
  | inl e ↦ ground arith
  | inr (fs, e) ↦ ground (arith, recount_families-eq seats (approvals_of votes) fs e)
]

recount_r2-eq : (votes : List (Option Vote)) → recount_r2 votes ≡ quorum_r2 votes
unfolding quorum_r2 recount_r2
recount_r2-eq votes = ground arith

recount_r3-eq : (votes : List Vote) → recount_r3 votes ≡ quorum_r3 votes
unfolding quorum_r3 recount_r3
recount_r3-eq votes = ground arith

recompute_by-eq :
    (risk : RiskClass) (config : CouncilConfig) (proposer : String) (votes : List Vote)
    (q : QuorumResult)
    → quorum_of risk config proposer votes ≡ some q
    → recompute_by risk config.seats proposer votes ≡ q
unfolding recompute_by quorum_of
recompute_by-eq r1 config proposer votes q h = recount_r1-eq config.seats votes q h
recompute_by-eq r2 config proposer votes q h =
    ground (arith, recount_r2-eq (reviewer_votes config.seats proposer votes))
recompute_by-eq _ config proposer votes q h = ground (arith, recount_r3-eq votes)

-- Where the kernel's quorum computes, the verifier's independent recount gives the same result: the
-- same verdict, reason and counts.
pub recompute_quorum-eq-quorum_of :
    (request : Request) (config : CouncilConfig) (votes : List Vote) (q : QuorumResult)
    → quorum_of request.risk_class config
        (proposer_seat config.seats request.rotation_ordinal)
        votes
      ≡ some q
    → recompute_quorum request config votes ≡ q
unfolding recompute_quorum
recompute_quorum-eq-quorum_of request config votes q h =
    recompute_by-eq request.risk_class config (proposer_seat config.seats request.rotation_ordinal)
      votes q h
