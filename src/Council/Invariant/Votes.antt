-- ===== src/Council/Invariant/Votes.antt =====
-- The votes of a session: known seats, bound candidate, and a quorum that is always computed.
use mihver.Prelude.{
  String, ◌≢◌, ◌≡◌, refl, true, false, Option, none, some, List, [], ◌∷◌, ◌++◌, map, arith, ◌==◌,
  eq_iff, All, All-keep, any, find, includes, Distinct,
}
use mihver.Council.Types.{RiskClass, r1, r2, Seat, CouncilConfig, Vote}
use mihver.Council.Quorum.{is_approve, approvals_of, seat_by_id, families, quorum_r1, quorum_of}

-- The vote's seat is one of the council's.
abbrev pub Known : List Seat → Vote → Type 0
Known seats v = any (λ seat. seat.seat_id == v.seat_id) seats ≡ true

-- The vote names the frozen candidate.
abbrev pub Bound : Option String → Vote → Type 0
Bound hash v = some v.candidate_hash ≡ hash

includes-snoc :
    (x y : String) (votes : List Vote) (v : Vote)
    → includes (map (λ w. w.seat_id) votes) x ≡ false
    → (v.seat_id == x) ≡ false
    → includes (map (λ w. w.seat_id) (votes ++ v ∷ [])) x ≡ false
unfolding includes
includes-snoc x y [] v h k = ground arith
includes-snoc x y (w ∷ votes) v h k = ground (arith, includes-snoc x y votes v)

pub Distinct-snoc :
    (votes : List Vote) (v : Vote)
    → Distinct (map (λ w. w.seat_id) votes)
    → any (λ w. w.seat_id == v.seat_id) votes ≡ false
    → Distinct (map (λ w. w.seat_id) (votes ++ v ∷ []))
unfolding includes any
Distinct-snoc [] v d h = (refl, tt)
Distinct-snoc (w ∷ votes) v d h = (
  includes-snoc w.seat_id w.seat_id votes v d.0
      (ground (arith, eq_iff w.seat_id v.seat_id, eq_iff v.seat_id w.seat_id)),
  Distinct-snoc votes v d.1 (ground arith),
)

pub All-snoc {κ} :
    (P : Vote → Type κ) (votes : List Vote) (v : Vote) → All P votes → P v → All P (votes ++ v ∷ [])
All-snoc P [] v h k = (k, tt)
All-snoc P (w ∷ votes) v h k = (h.0, All-snoc P votes v h.1 k)

seat_by_id-ne-none :
    (seats : List Seat) (v : Vote) → Known seats v → seat_by_id seats v.seat_id ≢ none
unfolding seat_by_id any find
seat_by_id-ne-none [] v h = ground arith
seat_by_id-ne-none (s ∷ seats) v h = ground (arith, seat_by_id-ne-none seats v)

-- No TypeError: every vote's seat is found.
pub families-ne-none :
    (seats : List Seat) (votes : List Vote) → All (Known seats) votes → families seats votes ≢ none
unfolding families
families-ne-none seats [] h = ground arith
families-ne-none seats (v ∷ votes) h =
    ground (arith, seat_by_id-ne-none seats v h.0, families-ne-none seats votes h.1)

quorum_r1-ne-none :
    (seats : List Seat) (votes : List Vote) → All (Known seats) votes → quorum_r1 seats votes ≢ none
unfolding quorum_r1
quorum_r1-ne-none seats votes h = ground (
  arith,
  families-ne-none seats (approvals_of votes)
      (All-keep (Known seats) (λ v. is_approve v.vote_value) votes h),
)

-- `quorum` throws no TypeError while every vote is from a known seat.
pub quorum_of-ne-none :
    (risk : RiskClass) (config : CouncilConfig) (proposer : String) (votes : List Vote)
    → All (Known config.seats) votes
    → quorum_of risk config proposer votes ≢ none
unfolding quorum_of
quorum_of-ne-none r1 config proposer votes h = quorum_r1-ne-none config.seats votes h
quorum_of-ne-none r2 config proposer votes h = ground arith
quorum_of-ne-none _ config proposer votes h = ground arith
