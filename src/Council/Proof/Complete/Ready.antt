-- ===== src/Council/Proof/Complete/Ready.antt =====
-- What a session of scripts/dev/decision-council-kernel.mjs has checked that a quorum proof of its
-- record asks for.
use Prim.Native.String
use mihver.Prelude.{
  ◌≡◌, refl, subst, String, Bool, true, false, not, Option, none, some, List, [], ◌∷◌, ◌++◌, arith,
  ◌==◌, eq_iff, All, all, any, is_hash64, Option-cases, ℕ, inl, inr, Bool-cases,
}
use mihver.Council.Types.{
  Shaped, exact, malformed, RiskClass, r0, r1, r2, r3, r4, Request, CouncilConfig, ExpectedContext,
  Commitment, SubmittedProposal, ProposalContent, Candidate, Vote, voting, cast_vote, Event,
  submit_commitment_event, reveal_proposal_event, freeze_candidate_event, cast_vote_event,
  finalize_event, not_event, Session,
}
use mihver.Council.Hashes.{Sha, compute_candidate_hash, digest}
use mihver.Council.Validity.{valid_request, valid_council_config, valid_vote}
use mihver.Council.Invariant.Votes.{All-snoc}
use mihver.Council.Sessions.{
  Created, session_created, admission_error, transition, is_terminal, proposer_seat, fresh_session,
  admitted, create_checked, create_session, seat_identity, creation_throws,
}
use mihver.Council.Kernel.{
  Outcome, accepted, when_bound, on_commitment, reveal_checked, on_reveal, on_freeze,
  frozen_candidate, on_vote_checked, on_vote, finalized, on_finalize, handle_event, apply_event,
  binding_error,
}
use mihver.Council.Machine.{Reach, here, next}
use mihver.Council.Proof.{valid_proof_config}
use mihver.Council.Proof.Verify.{needs_council}

-- Every digest has the form of a hash.
abbrev pub Hashes : Sha → Type 0
Hashes sha256 = (text : List ℕ) → is_hash64 (String.◌++◌ "sha256:" (sha256 text)) ≡ true

abbrev pub VoteReady : Request → Vote → Type 0
VoteReady q v =
    (valid_vote v ≡ true)
    × (v.decision_request_id ≡ q.decision_request_id)
    × (v.council_epoch_id ≡ q.council_epoch_id)

abbrev pub CandidateReady : String → Option Candidate → Type 0
CandidateReady proposer none = Unit
CandidateReady proposer (some c) =
    (c.body.proposer_seat_id ≡ proposer) × (is_hash64 c.candidate_hash ≡ true)

pub record IsReady (s : Session) : Type 0 where
  pub request_valid : valid_request s.decision_request ≡ true
  pub config_valid : valid_proof_config s.council_config ≡ true
  pub one_epoch : s.decision_request.council_epoch_id ≡ s.council_config.epoch_id
  pub proposer :
      s.expected_proposer_seat_id
      ≡ proposer_seat s.council_config.seats s.decision_request.rotation_ordinal
  pub council_needed :
      is_terminal s.state ≡ false → needs_council s.decision_request.risk_class ≡ true
  pub votes_ready : All (VoteReady s.decision_request) s.votes
  pub candidate_ready : CandidateReady s.expected_proposer_seat_id s.candidate_decision

abbrev ReadyOn : Outcome → Type 0
ReadyOn (accepted t) = IsReady t
ReadyOn _ = Unit

module _ (sha256 : Sha) (hashes : Hashes sha256) (s : Session) (v : IsReady s)
    (live : is_terminal s.state ≡ false) where
  on_commitment-Ready : (c : Shaped Commitment) → ReadyOn (on_commitment s c)
  unfolding on_commitment
  on_commitment-Ready c = ground arith

  reveal_checked-Ready :
      (p : SubmittedProposal) (content : ProposalContent)
      → ReadyOn (reveal_checked sha256 s p content)
  unfolding reveal_checked
  reveal_checked-Ready p content = ground arith

  on_reveal-Ready : (p : Shaped SubmittedProposal) → ReadyOn (on_reveal sha256 s p)
  unfolding on_reveal
  on_reveal-Ready malformed = tt
  on_reveal-Ready (exact p) = elim (Option-cases p.proposal_content.payload) [
    | inl e ↦ ground arith
    | inr (payload, e) ↦
        let content : ProposalContent = record {
          summary = p.proposal_content.summary;
          payload = payload;
        } in
        ground (arith, reveal_checked-Ready p content)
  ]

  frozen_candidate-Ready :
      (content : ProposalContent)
      → CandidateReady s.expected_proposer_seat_id (some (frozen_candidate sha256 s content))
  unfolding frozen_candidate compute_candidate_hash digest
  frozen_candidate-Ready content = (refl, hashes _)

  on_freeze-Ready : (u : Shaped (Unit {0})) → ReadyOn (on_freeze sha256 s u)
  unfolding on_freeze
  on_freeze-Ready malformed = tt
  on_freeze-Ready (exact u) = elim (Option-cases s.proposal) [
    | inl e ↦ ground arith
    | inr (p, e) ↦ ground (arith, frozen_candidate-Ready p.proposal_content)
  ]

  bound_vote :
      (w : Vote)
      → valid_vote w ≡ true
      → binding_error s w.decision_request_id w.council_epoch_id ≡ none
      → VoteReady s.decision_request w
  unfolding binding_error
  bound_vote w valid h = ground (
    arith,
    eq_iff w.decision_request_id s.decision_request.decision_request_id,
    eq_iff w.council_epoch_id s.decision_request.council_epoch_id,
  )

  with_vote-IsReady :
      (w : Vote)
      → VoteReady s.decision_request w
      → IsReady (transition (record s { votes = s.votes ++ w ∷ [] }) voting cast_vote)
  unfolding transition
  with_vote-IsReady w ready = record {
    request_valid = v.request_valid;
    config_valid = v.config_valid;
    one_epoch = v.one_epoch;
    proposer = v.proposer;
    council_needed = λ e. v.council_needed live;
    votes_ready = All-snoc (VoteReady s.decision_request) s.votes w v.votes_ready ready;
    candidate_ready = v.candidate_ready;
  }

  on_vote_checked-Ready :
      (c : Candidate) (w : Vote) → valid_vote w ≡ true → ReadyOn (on_vote_checked s c w)
  unfolding on_vote_checked when_bound
  on_vote_checked-Ready c w valid = ground (arith, bound_vote w valid, with_vote-IsReady w)

  on_vote-Ready : (w : Shaped Vote) → ReadyOn (on_vote s w)
  unfolding on_vote
  on_vote-Ready malformed = tt
  on_vote-Ready (exact w) = elim (Option-cases s.candidate_decision) [
    | inl e ↦ ground arith
    | inr (c, e) ↦ ground (arith, on_vote_checked-Ready c w)
  ]

  on_finalize-Ready : (u : Shaped (Unit {0})) → ReadyOn (on_finalize sha256 s u)
  unfolding on_finalize finalized
  on_finalize-Ready u = ground arith

  handle_event-Ready : (e : Event) → ReadyOn (handle_event sha256 s e)
  unfolding handle_event
  handle_event-Ready (submit_commitment_event c) = ground (arith, on_commitment-Ready c)
  handle_event-Ready (reveal_proposal_event p) = ground (arith, on_reveal-Ready p)
  handle_event-Ready (freeze_candidate_event u) = ground (arith, on_freeze-Ready u)
  handle_event-Ready (cast_vote_event w) = ground (arith, on_vote-Ready w)
  handle_event-Ready (finalize_event u) = ground (arith, on_finalize-Ready u)
  handle_event-Ready _ = tt

apply_event-Ready :
    (sha256 : Sha)
    → Hashes sha256
    → (s : Session) (e : Event) → IsReady s
    → ReadyOn (apply_event sha256 s e)
unfolding apply_event
apply_event-Ready sha256 hashes s not_event v = tt
apply_event-Ready sha256 hashes s e v = elim (Bool-cases (is_terminal s.state)) [
  | inl t ↦ ground arith
  | inr live ↦ ground (arith, handle_event-Ready sha256 hashes s v live e)
]

pub Reach-IsReady :
    (sha256 : Sha) → Hashes sha256 → (s t : Session) → IsReady s → Reach sha256 s t → IsReady t
Reach-IsReady sha256 hashes s t v here = v
Reach-IsReady sha256 hashes s t v (next {t = m} r e h) =
    subst ReadyOn h (apply_event-Ready sha256 hashes m e (Reach-IsReady sha256 hashes s m v r))

fresh_session-IsReady :
    (sha256 : Sha) (request : Request) (config : CouncilConfig) (risk : RiskClass)
    → request.risk_class ≡ risk
    → valid_request request ≡ true
    → valid_proof_config config ≡ true
    → request.council_epoch_id ≡ config.epoch_id
    → IsReady (admitted sha256 risk (fresh_session request config))
unfolding admitted fresh_session transition
fresh_session-IsReady sha256 request config r0 e q c one = ground arith
fresh_session-IsReady sha256 request config r1 e q c one = ground arith
fresh_session-IsReady sha256 request config r2 e q c one = ground arith
fresh_session-IsReady sha256 request config r3 e q c one = ground arith
fresh_session-IsReady sha256 request config r4 e q c one = ground arith

abbrev CreatedIsReady : Created → Type 0
CreatedIsReady (session_created s) = IsReady s
CreatedIsReady (admission_error code) = Unit
CreatedIsReady creation_throws = Unit

all_of_any {ℓ} :
    {A : Type ℓ} (p : A → Bool) (xs : List A) → any (λ x. not (p x)) xs ≡ false → all p xs ≡ true
unfolding any all
all_of_any p [] h = refl
all_of_any p (x ∷ xs) h = ground (arith, all_of_any p xs)

create_checked-IsReady :
    (sha256 : Sha) (request : Request) (config : CouncilConfig) (context : Option ExpectedContext)
    → valid_request request ≡ true
    → valid_council_config config ≡ true
    → CreatedIsReady (create_checked sha256 request config context)
unfolding create_checked valid_council_config valid_proof_config seat_identity
create_checked-IsReady sha256 request config context q c = ground (
  arith,
  all_of_any (λ s. s.council_epoch_id == config.epoch_id) config.seats,
  eq_iff request.council_epoch_id config.epoch_id,
  fresh_session-IsReady sha256 request config request.risk_class refl q,
)

-- What `createSession` admits is ready.
pub create_session-IsReady :
    (sha256 : Sha) (request : Shaped Request) (config : Shaped CouncilConfig)
    (context : Option ExpectedContext) (s : Session)
    → create_session sha256 request config context ≡ session_created s
    → IsReady s
unfolding create_session
create_session-IsReady sha256 request config context s h =
    subst CreatedIsReady h (checked request config)
  where
    checked :
        (q : Shaped Request) (c : Shaped CouncilConfig)
        → CreatedIsReady (create_session sha256 q c context)
    checked malformed c = tt
    checked (exact q) malformed = tt
    checked (exact q) (exact c) = ground (arith, create_checked-IsReady sha256 q c context)
