-- ===== src/Council/Decision.antt =====
-- What the votes of a council must be for the decisions of
-- scripts/dev/decision-council-kernel.mjs.
pub mod Families
use mihver.Prelude.{
  ℕ, ◌≤◌, String, ◌≡◌, ◌≢◌, refl, ◌↔◌, ◌⊎◌, inl, inr, Bool, true, false, not, Option, none, some,
  List, [], ◌∷◌, map, arith, ◌==◌, eq_iff, All, eqb, length, any, all, keep, set_size, Bool-cases,
  Option-cases, if◌then◌else◌,
}
use mihver.Council.Types.{
  RiskClass, r0, r1, r2, r3, r4, voting, exact, malformed, Disposition, council_approved,
  human_approval_required, without_quorum, Seat, Vote, DecisionRecord, finalize_event, Session,
}
use mihver.Council.Hashes.{Sha}
use mihver.Council.Quorum.{
  QuorumResult, is_approve, approves, rejects, approvals_of, vote_by_seat, families, quorum_r1,
  reviewer_votes, quorum_r2, quorum_r3, quorum_of,
}
use mihver.Council.Sessions.{make_record}
use mihver.Council.Kernel.{
  Outcome, accepted, outcome_disposition, finalized, on_finalize, handle_event, apply_event,
}
use Families.{Witnessed, TwoFamilies, TwoFamilies-of_set_size}

-- The votes include an approval of the seat, and no other vote of it comes first.
abbrev pub Approved : List Vote → Seat → Type 0
Approved votes seat =
    (v : Vote) × (vote_by_seat votes seat.seat_id ≡ some v) × (is_approve v.vote_value ≡ true)

rejects-not-all : (vs : List (Option Vote)) → any rejects vs ≡ true → all approves vs ≡ false
unfolding any all
rejects-not-all [] h = ground arith
rejects-not-all (v ∷ vs) h = ground (arith, rejects-not-all vs)

-- The rule of R2 is met exactly when every reviewer's vote is an approval.
quorum_r2_met : (vs : List (Option Vote)) → (quorum_r2 vs).met ≡ all approves vs
unfolding quorum_r2
quorum_r2_met vs = ground (arith, rejects-not-all vs)

approved_reviewer :
    (s : Seat) (seats : List Seat) (proposer : String) (votes : List Vote)
    → all approves (reviewer_votes (s ∷ seats) proposer votes) ≡ true
    → (s.seat_id ≡ proposer) ⊎ Approved votes s
unfolding reviewer_votes all keep
approved_reviewer s seats proposer votes h = elim (Bool-cases (s.seat_id == proposer)) [
  | inl same ↦ inl ((eq_iff s.seat_id proposer).0 same)
  | inr other ↦ elim (Option-cases (vote_by_seat votes s.seat_id)) [
    | inl e ↦ absurd (ground arith)
    | inr (v, e) ↦ inr (v, e, ground arith)
  ]
]

approved_reviewers :
    (seats : List Seat) (proposer : String) (votes : List Vote)
    → all approves (reviewer_votes seats proposer votes) ≡ true
    → All (λ seat. (seat.seat_id ≡ proposer) ⊎ Approved votes seat) seats
unfolding reviewer_votes all keep
approved_reviewers [] proposer votes h = tt
approved_reviewers (s ∷ seats) proposer votes h = (
  approved_reviewer s seats proposer votes h,
  approved_reviewers seats proposer votes (ground arith),
)

quorum_r1_met :
    (seats : List Seat) (votes : List Vote) (q : QuorumResult)
    → quorum_r1 seats votes ≡ some q
    → q.met ≡ true
    → TwoFamilies seats (approvals_of votes)
unfolding quorum_r1
quorum_r1_met seats votes q h m = elim (Option-cases (families seats (approvals_of votes))) [
  | inl e ↦ absurd (ground arith)
  | inr (fs, e) ↦ TwoFamilies-of_set_size seats (approvals_of votes) fs e (ground arith)
]

quorum_r3_met : (votes : List Vote) → (quorum_r3 votes).met ≡ eqb (length (approvals_of votes)) 3
unfolding quorum_r3
quorum_r3_met votes = ground arith

-- What the votes must show for the quorum of a risk class.
abbrev pub Supported : RiskClass → List Seat → String → List Vote → Type 0
Supported r1 seats proposer votes = TwoFamilies seats (approvals_of votes)
Supported r2 seats proposer votes =
    All (λ seat. (seat.seat_id ≡ proposer) ⊎ Approved votes seat) seats
Supported _ seats proposer votes = length (approvals_of votes) ≡ 3

quorum_of_met :
    (s : Session) (risk : RiskClass) (q : QuorumResult)
    → quorum_of risk s.council_config s.expected_proposer_seat_id s.votes ≡ some q
    → q.met ≡ true
    → Supported risk s.council_config.seats s.expected_proposer_seat_id s.votes
unfolding quorum_of
quorum_of_met s r1 q h m = quorum_r1_met s.council_config.seats s.votes q h m
quorum_of_met s r2 q h m =
    approved_reviewers s.council_config.seats s.expected_proposer_seat_id s.votes (
      ground (
        arith,
        quorum_r2_met (reviewer_votes s.council_config.seats s.expected_proposer_seat_id s.votes),
      ))
quorum_of_met s _ q h m = ground (arith, quorum_r3_met s.votes)

-- Whether a disposition lets the task go on, with or without a human.
abbrev pub is_favourable : Disposition → Bool
is_favourable council_approved = true
is_favourable human_approval_required = true
is_favourable _ = false

finalized_favourable :
    (sha256 : Sha) (s : Session) (q : QuorumResult) (r : DecisionRecord)
    → (finalized sha256 s q).decision_record ≡ some r
    → is_favourable r.body.disposition ≡ true
    → (q.met ≡ true) × (r.body.disposition ≡ outcome_disposition s.decision_request.risk_class)
unfolding finalized
finalized_favourable sha256 s q r e f = ground arith

human_only_r3 :
    (risk : RiskClass) → (risk ≡ r3) ↔ (outcome_disposition risk ≡ human_approval_required)
unfolding outcome_disposition
human_only_r3 r0 = (λ p. cc, λ p. cc)
human_only_r3 r1 = (λ p. cc, λ p. cc)
human_only_r3 r2 = (λ p. cc, λ p. cc)
human_only_r3 r3 = (λ p. refl, λ p. refl)
human_only_r3 r4 = (λ p. cc, λ p. cc)

pub finalize_result :
    (sha256 : Sha) (s t : Session)
    → apply_event sha256 s (finalize_event (exact tt)) ≡ accepted t
    → (q : QuorumResult) × (quorum_of s.decision_request.risk_class s.council_config
          s.expected_proposer_seat_id s.votes
        ≡ some q)
      × (t ≡ finalized sha256 s q)
unfolding apply_event
finalize_result sha256 s t h =
    elim (Option-cases (
      quorum_of s.decision_request.risk_class s.council_config s.expected_proposer_seat_id
        s.votes)) [ inl e ↦ absurd (ground arith) | inr (q, e) ↦ (q, e, ground arith) ]

-- When `FINALIZE` is accepted with a favourable decision (COUNCIL_APPROVED or
-- HUMAN_APPROVAL_REQUIRED), the votes support it: for R1 two approvals come from seats of different
-- provider and model family, for R2 every seat but the proposer's has approved, otherwise there are
-- exactly three approvals; and a human is asked exactly when the risk class is R3.
pub finalize-Supported :
    (sha256 : Sha) (s t : Session) (r : DecisionRecord)
    → apply_event sha256 s (finalize_event (exact tt)) ≡ accepted t
    → t.decision_record ≡ some r
    → is_favourable r.body.disposition ≡ true
    → Supported s.decision_request.risk_class s.council_config.seats s.expected_proposer_seat_id
        s.votes
      × ((s.decision_request.risk_class ≡ r3) ↔ (r.body.disposition ≡ human_approval_required))
finalize-Supported sha256 s t r h e f =
    let (q, quorum, is_t) = finalize_result sha256 s t h in
    let favours : (q.met ≡ true)
        × (r.body.disposition ≡ outcome_disposition s.decision_request.risk_class) =
      finalized_favourable sha256 s q r (rw is_t at e) f in
    (
      quorum_of_met s s.decision_request.risk_class q quorum favours.0,
      rw favours.1 (human_only_r3 s.decision_request.risk_class),
    )
