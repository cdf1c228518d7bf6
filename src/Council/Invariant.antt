-- ===== src/Council/Invariant.antt =====
-- The invariant of the sessions of scripts/dev/decision-council-kernel.mjs.
pub mod Votes
use mihver.Prelude.{
  String, ◌≡◌, refl, ◌⊎◌, inl, inr, Bool, true, false, not, ◌&&◌, Option, none, some, List, [], ◌∷◌,
  ◌++◌, map, arith, ◌==◌, eq_iff, All, length, length-map, any, set_size, Distinct,
  set_size-Distinct, eqb, eqb_iff, Bool-cases, Option-cases, if◌then◌else◌, all, ◌||◌,
}
use mihver.Council.Types.{
  Shaped, exact, malformed, RiskClass, r0, r1, r2, r3, r4, State, created, commitment_collection,
  proposal_reveal, candidate_frozen, voting, council_not_required, decided, no_quorum, denied,
  ErrorCode, Seat, CouncilConfig, Request, ExpectedContext, Commitment, SubmittedProposal,
  ProposalContent, Candidate, Vote, cast_vote, Event, submit_commitment_event,
  reveal_proposal_event, freeze_candidate_event, cast_vote_event, finalize_event, other, not_event,
  Session,
}
use mihver.Council.Hashes.{Sha}
use mihver.Council.Validity.{valid_council_config, valid_proposal}
use mihver.Council.Quorum.{QuorumResult, quorum_of}
use mihver.Council.Sessions.{
  Created, session_created, admission_error, transition, fresh_session, admitted, create_checked,
  create_session, candidate_hash_of, record_prints, seats_print, creation_throws,
}
use mihver.Council.Kernel.{
  Outcome, accepted, rejected, throws, when_bound, on_commitment, reveal_checked, on_reveal,
  on_freeze, accepts_votes, on_vote_checked, on_vote, finalized, on_finalize, handle_event,
  apply_event, candidate_prints,
}
use Votes.{Known, Bound, Distinct-snoc, All-snoc, quorum_of-ne-none}

abbrev given {ℓ} : {A : Type ℓ} → Option A → Bool
given none = false
given (some a) = true

abbrev no_votes : List Vote → Bool
no_votes [] = true
no_votes (v ∷ vs) = false

-- What a session holds at each state: the commitment, proposal, candidate and record that the next
-- events read, and no votes before the first vote.
abbrev holds : State → Bool → Bool → Bool → Bool → Bool → Bool
holds created c p d r e = e
holds commitment_collection c p d r e = c && e
holds proposal_reveal c p d r e = p && e
holds candidate_frozen c p d r e = d && e
holds voting c p d r e = d
holds _ c p d r e = r

pub record IsValid (s : Session) : Type 0 where
  pub seat_count : length s.council_config.seats ≡ 3
  pub seats_distinct : Distinct (map (λ seat. seat.seat_id) s.council_config.seats)
  pub votes_distinct : Distinct (map (λ v. v.seat_id) s.votes)
  pub votes_known : All (Known s.council_config.seats) s.votes
  pub votes_bound : All (Bound (candidate_hash_of s.candidate_decision)) s.votes
  pub holds_data :
      holds s.state
        (given s.commitment)
        (given s.proposal)
        (given s.candidate_decision)
        (given s.decision_record)
        (no_votes s.votes)
      ≡ true

pub record SameCouncil (s t : Session) : Type 0 where
  pub request : t.decision_request ≡ s.decision_request
  pub config : t.council_config ≡ s.council_config

-- The texts that the kernel hashes hold no lone surrogate.
abbrev pub is_printable : Session → Bool
is_printable s =
    s.decision_request.is_well_formed && all (λ seat. seat.is_well_formed) s.council_config.seats

all-weaken :
    (id : String) (seats : List Seat)
    → all (λ seat. seat.is_well_formed) seats ≡ true
    → all (λ seat. not (seat.seat_id == id) || seat.is_well_formed) seats ≡ true
unfolding all
all-weaken id [] h = refl
all-weaken id (seat ∷ seats) h = ground (arith, all-weaken id seats)

candidate_prints-printable : (s : Session) → is_printable s ≡ true → candidate_prints s ≡ true
unfolding candidate_prints
candidate_prints-printable s h =
    ground (arith, all-weaken s.expected_proposer_seat_id s.council_config.seats)

record_prints-printable : (s : Session) → is_printable s ≡ true → record_prints s ≡ true
unfolding record_prints seats_print
record_prints-printable s h = ground arith

-- An accepted event leads to a valid session of the same council, a rejected one changes nothing,
-- and a TypeError is thrown only if a text of the request or the id of a seat holds a lone
-- surrogate.
abbrev pub Keeps : Session → Outcome → Type 0
Keeps s (accepted t) = IsValid t × SameCouncil s t
Keeps s (rejected t code) = t ≡ s
Keeps s throws = is_printable s ≡ false

module _ (s : Session) (v : IsValid s) where
  when_bound-Keeps :
      (request epoch : String) (next : Outcome)
      → Keeps s next
      → Keeps s (when_bound s request epoch next)
  unfolding when_bound
  when_bound-Keeps request epoch next k = ground arith

  on_commitment-Keeps : (c : Shaped Commitment) → s.state ≡ created → Keeps s (on_commitment s c)
  unfolding on_commitment
  on_commitment-Keeps c at = ground arith

  reveal_checked-Keeps :
      (sha256 : Sha) (p : SubmittedProposal) (content : ProposalContent)
      → s.state ≡ commitment_collection
      → Keeps s (reveal_checked sha256 s p content)
  unfolding reveal_checked
  reveal_checked-Keeps sha256 p content at = ground arith

  on_reveal-Keeps :
      (sha256 : Sha) (p : Shaped SubmittedProposal)
      → s.state ≡ commitment_collection
      → Keeps s (on_reveal sha256 s p)
  unfolding on_reveal
  on_reveal-Keeps sha256 malformed at = refl
  on_reveal-Keeps sha256 (exact p) at = elim (Option-cases p.proposal_content.payload) [
    | inl e ↦ ground arith
    | inr (payload, e) ↦
        let content : ProposalContent = record {
          summary = p.proposal_content.summary;
          payload = payload;
        } in
        ground (arith, reveal_checked-Keeps sha256 p content)
  ]

  on_freeze-Keeps :
      (sha256 : Sha) (u : Shaped (Unit {0}))
      → s.state ≡ proposal_reveal
      → Keeps s (on_freeze sha256 s u)
  unfolding on_freeze
  on_freeze-Keeps sha256 u at = ground (arith, candidate_prints-printable s)

  -- A new vote from a known seat that has not voted, for the frozen candidate.
  with_vote-IsValid :
      (c : Candidate) (w : Vote)
      → s.candidate_decision ≡ some c
      → w.candidate_hash ≡ c.candidate_hash
      → Known s.council_config.seats w
      → any (λ vote. vote.seat_id == w.seat_id) s.votes ≡ false
      → IsValid (transition (record s { votes = s.votes ++ w ∷ [] }) voting cast_vote)
  unfolding transition
  with_vote-IsValid c w e same known unseen = record {
    seat_count = v.seat_count;
    seats_distinct = v.seats_distinct;
    votes_distinct = Distinct-snoc s.votes w v.votes_distinct unseen;
    votes_known = All-snoc (Known s.council_config.seats) s.votes w v.votes_known known;
    votes_bound =
        All-snoc (Bound (candidate_hash_of s.candidate_decision)) s.votes w v.votes_bound
          (ground arith);
    holds_data = ground arith;
  }

  on_vote_checked-Keeps :
      (c : Candidate) (w : Vote) → s.candidate_decision ≡ some c → Keeps s (on_vote_checked s c w)
  unfolding on_vote_checked
  on_vote_checked-Keeps c w e =
      ground (arith, eq_iff w.candidate_hash c.candidate_hash, with_vote-IsValid c w e)

  on_vote-Keeps : (w : Shaped Vote) → accepts_votes s.state ≡ true → Keeps s (on_vote s w)
  unfolding on_vote
  on_vote-Keeps malformed at = refl
  on_vote-Keeps (exact w) at = elim (Option-cases s.candidate_decision) [
    | inl e ↦ ground arith
    | inr (c, e) ↦ ground (arith, on_vote_checked-Keeps c w e)
  ]

  on_finalize-Keeps :
      (sha256 : Sha) (u : Shaped (Unit {0})) → s.state ≡ voting → Keeps s (on_finalize sha256 s u)
  unfolding on_finalize
  on_finalize-Keeps sha256 u at = ground (
    arith,
    record_prints-printable s,
    quorum_of-ne-none s.decision_request.risk_class s.council_config s.expected_proposer_seat_id
        s.votes v.votes_known,
  )

-- `handle_event` stays within the invariant at every state and event.
handle_event-Keeps :
    (sha256 : Sha) (s : Session) (e : Event) → IsValid s → Keeps s (handle_event sha256 s e)
unfolding handle_event
handle_event-Keeps sha256 s (submit_commitment_event c) v =
    ground (arith, on_commitment-Keeps s v c)
handle_event-Keeps sha256 s (reveal_proposal_event p) v =
    ground (arith, on_reveal-Keeps s v sha256 p)
handle_event-Keeps sha256 s (freeze_candidate_event u) v =
    ground (arith, on_freeze-Keeps s v sha256 u)
handle_event-Keeps sha256 s (cast_vote_event w) v = ground (arith, on_vote-Keeps s v w)
handle_event-Keeps sha256 s (finalize_event u) v = ground (arith, on_finalize-Keeps s v sha256 u)
handle_event-Keeps sha256 s _ v = refl

pub apply_event-Keeps :
    (sha256 : Sha) (s : Session) (e : Event) → IsValid s → Keeps s (apply_event sha256 s e)
unfolding apply_event
apply_event-Keeps sha256 s not_event v = refl
apply_event-Keeps sha256 s e v = ground (arith, handle_event-Keeps sha256 s e v)

-- What `createSession` gives is valid.
abbrev pub CreatedIsValid : Created → Type 0
CreatedIsValid (session_created s) = IsValid s
CreatedIsValid (admission_error code) = Unit
CreatedIsValid creation_throws = Unit

admitted-IsValid :
    (sha256 : Sha) (risk : RiskClass) (request : Request) (config : CouncilConfig)
    → length config.seats ≡ 3
    → Distinct (map (λ seat. seat.seat_id) config.seats)
    → IsValid (admitted sha256 risk (fresh_session request config))
unfolding admitted fresh_session
admitted-IsValid sha256 r0 request config n d = ground arith
admitted-IsValid sha256 r1 request config n d = ground arith
admitted-IsValid sha256 r2 request config n d = ground arith
admitted-IsValid sha256 r3 request config n d = ground arith
admitted-IsValid sha256 r4 request config n d = ground arith

create_checked-IsValid :
    (sha256 : Sha) (request : Request) (config : CouncilConfig) (context : Option ExpectedContext)
    → length config.seats ≡ 3
    → CreatedIsValid (create_checked sha256 request config context)
unfolding create_checked
create_checked-IsValid sha256 request config context n = ground (
  arith,
  length-map {0, 0} (λ (seat : Seat). seat.seat_id) config.seats,
  set_size-Distinct (map (λ seat. seat.seat_id) config.seats),
  admitted-IsValid sha256 request.risk_class request config n,
)

-- Every session that `createSession` admits is valid, whatever it was given.
pub create_session-IsValid :
    (sha256 : Sha) (request : Shaped Request) (config : Shaped CouncilConfig)
    (context : Option ExpectedContext)
    → CreatedIsValid (create_session sha256 request config context)
unfolding create_session valid_council_config
create_session-IsValid sha256 malformed config context = tt
create_session-IsValid sha256 (exact request) malformed context = tt
create_session-IsValid sha256 (exact request) (exact config) context =
    ground (arith, create_checked-IsValid sha256 request config context)
