-- ===== src/Council/Proof/Complete/Parts.antt =====
-- The parts of the record and of the proof of a finalized session pass their tests
-- (scripts/dev/council-quorum-proof.mjs).
use mihver.Council.Invariant.Votes.{Known, Bound}
use mihver.Prelude.{
  ◌≡◌, refl, ℕ, ◌%◌, ◌<◌, zero, suc, String, true, none, some, List, [], ◌∷◌, map, arith, ◌==◌,
  eq_iff, All, all, find, length, get_elem?, nonempty, is_hash64, same_codes, Option-cases, inl,
  inr, any, sym, ◌∙◌, subst, is_hex40, Bool, includes, ◌&&◌,
}
use mihver.Json.{Json, canonicalize_json}
use mihver.Council.Types.{Seat, Vote, Request, DecisionRecord}
use mihver.Council.Validity.{valid_seat, valid_vote, valid_request}
use mihver.Council.Quorum.{vote_by_seat}
use mihver.Council.Sessions.{record_vote, proposer_seat}
use mihver.Council.Proof.{null_or, valid_record_vote}
use mihver.Council.Proof.Verify.{same, vote_bound, is_text}
use mihver.Council.Proof.Complete.Ready.{VoteReady}

pub eq_self : (x : String) → (x == x) ≡ true
eq_self x = (eq_iff x x).1 refl

same_codes_self : (xs : List ℕ) → same_codes xs xs ≡ true
unfolding same_codes
same_codes_self [] = refl
same_codes_self (x ∷ xs) = ground (arith, same_codes_self xs)

pub same_self : (a : Json) → same a a ≡ true
unfolding same
same_self a = same_codes_self (canonicalize_json a)

pub votes_valid :
    (q : Request) (votes : List Vote) → All (VoteReady q) votes → all valid_vote votes ≡ true
unfolding all
votes_valid q [] h = refl
votes_valid q (v ∷ votes) h = ground (arith, votes_valid q votes h.1, h.0.0)

find_valid :
    (id : String) (votes : List Vote) (v : Vote)
    → all valid_vote votes ≡ true
    → vote_by_seat votes id ≡ some v
    → valid_vote v ≡ true
unfolding all vote_by_seat find
find_valid id [] v h e = ground arith
find_valid id (w ∷ votes) v h e = ground (arith, find_valid id votes v)

record_vote_valid :
    (votes : List Vote) (seat : Seat)
    → all valid_vote votes ≡ true
    → valid_seat seat ≡ true
    → valid_record_vote (record_vote votes seat) ≡ true
unfolding record_vote valid_record_vote null_or valid_seat
record_vote_valid votes seat h k = elim (Option-cases (vote_by_seat votes seat.seat_id)) [
  | inl e ↦ ground arith
  | inr (v, e) ↦ ground (arith, hash_of v (find_valid seat.seat_id votes v h e))
]
  where
    hash_of : (v : Vote) → valid_vote v ≡ true → is_hash64 v.candidate_hash ≡ true
    hash_of v h = unfold valid_vote in ground arith

pub record_votes_valid :
    (votes : List Vote) (seats : List Seat)
    → all valid_vote votes ≡ true
    → all valid_seat seats ≡ true
    → all valid_record_vote (map (record_vote votes) seats) ≡ true
unfolding all
record_votes_valid votes [] h k = refl
record_votes_valid votes (s ∷ seats) h k =
    ground (arith, record_vote_valid votes s, record_votes_valid votes seats)

seat_at-nonempty :
    (seats : List Seat) (i : ℕ)
    → i < length seats
    → all valid_seat seats ≡ true
    → nonempty (elim (get_elem? seats i) [ none ↦ "" | some s ↦ s.seat_id ]) ≡ true
unfolding all valid_seat
seat_at-nonempty [] i h k = absurd (omega arith)
seat_at-nonempty (s ∷ seats) zero h k = ground arith
seat_at-nonempty (s ∷ seats) (suc i) h k = seat_at-nonempty seats i (omega arith) (ground arith)

pub proposer_seat-nonempty :
    (seats : List Seat) (ordinal : ℕ)
    → length seats ≡ 3
    → all valid_seat seats ≡ true
    → nonempty (proposer_seat seats ordinal) ≡ true
unfolding proposer_seat
proposer_seat-nonempty seats ordinal n k = seat_at-nonempty seats (ordinal % 3) (omega arith) k

pub both : {a b : Bool} → a ≡ true → b ≡ true → (a && b) ≡ true
both h k = ground arith

pub request_parts :
    (q : Request)
    → valid_request q ≡ true
    → (nonempty q.decision_request_id ≡ true)
      × (nonempty q.task_id ≡ true)
      × (is_hash64 q.context_hash ≡ true)
      × (is_hex40 q.repository_head ≡ true)
      × (nonempty q.council_epoch_id ≡ true)
unfolding valid_request
request_parts q h = ground arith

includes-of_Known :
    (seats : List Seat) (v : Vote)
    → Known seats v
    → includes (map (λ seat. seat.seat_id) seats) v.seat_id ≡ true
unfolding includes any
includes-of_Known [] v h = h
includes-of_Known (s ∷ seats) v h = ground (arith, includes-of_Known seats v)

pub all-vote_bound :
    (q : Request) (r : DecisionRecord) (seats : List Seat) (votes : List Vote)
    → r.body.decision_request_id ≡ q.decision_request_id
    → r.body.council_epoch_id ≡ q.council_epoch_id
    → All (VoteReady q) votes
    → All (Known seats) votes
    → All (Bound r.body.candidate_hash) votes
    → all (vote_bound r (map (λ seat. seat.seat_id) seats)) votes ≡ true
unfolding all vote_bound is_text
all-vote_bound q r seats [] id epoch ready known bound = refl
all-vote_bound q r seats (v ∷ votes) id epoch ready known bound =
    both
      (both
        (both
          (both ((eq_iff v.decision_request_id r.body.decision_request_id).1 (ready.0.1 ∙ sym id))
            ((eq_iff v.council_epoch_id r.body.council_epoch_id).1 (ready.0.2 ∙ sym epoch)))
          (subst (λ o. is_text o v.candidate_hash ≡ true) bound.0 (eq_self v.candidate_hash)))
        (includes-of_Known seats v known.0))
      (all-vote_bound q r seats votes id epoch ready.1 known.1 bound.1)
