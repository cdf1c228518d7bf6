-- ===== src/Council/Machine.antt =====
-- The state machine of scripts/dev/decision-council-kernel.mjs as a relation, and the sessions that
-- events reach.
use mihver.Prelude.{◌≡◌, refl, sym, subst, Bool, true, false, ◌⊎◌, List, [], ◌∷◌, ◌++◌, arith}
use mihver.Council.Types.{
  State, created, commitment_collection, proposal_reveal, candidate_frozen, voting, decided,
  no_quorum, EventType, admit, submit_commitment, reveal_proposal, freeze_candidate, cast_vote,
  finalize, Shaped, invalid_state_transition, malformed_artifact, Commitment, SubmittedProposal,
  Vote, Event, submit_commitment_event, reveal_proposal_event, freeze_candidate_event,
  cast_vote_event, finalize_event, not_event, Transition, Session,
}
use mihver.Council.Hashes.{Sha}
use mihver.Council.Sessions.{is_terminal}
use mihver.Council.Kernel.{
  Outcome, accepted, rejected, on_commitment, on_reveal, on_freeze, accepts_votes, on_vote,
  on_finalize, handle_event, apply_event,
}
use mihver.Council.Invariant.{IsValid, Keeps, apply_event-Keeps}

-- The edges of the machine.
unfoldable pub is_edge : State → EventType → State → Bool
is_edge created submit_commitment commitment_collection = true
is_edge commitment_collection reveal_proposal proposal_reveal = true
is_edge proposal_reveal freeze_candidate candidate_frozen = true
is_edge candidate_frozen cast_vote voting = true
is_edge voting cast_vote voting = true
is_edge voting finalize decided = true
is_edge voting finalize no_quorum = true
is_edge _ _ _ = false

abbrev pub type_of : Event → EventType
type_of (submit_commitment_event c) = submit_commitment
type_of (reveal_proposal_event p) = reveal_proposal
type_of (freeze_candidate_event u) = freeze_candidate
type_of (cast_vote_event v) = cast_vote
type_of (finalize_event u) = finalize
type_of _ = admit

-- The session took one edge under the event's type and logged exactly that transition.
pub record Moves (type : EventType) (s t : Session) : Type 0 where
  pub edge : is_edge s.state type t.state ≡ true
  pub logged :
      t.transition_log
      ≡ s.transition_log ++ (record { from = s.state; to = t.state; event = type }) ∷ []

abbrev pub MovesOn : EventType → Session → Outcome → Type 0
MovesOn type s (accepted t) = Moves type s t
MovesOn type s _ = Unit

module _ (s : Session) where
  on_commitment-Moves :
      (c : Shaped Commitment) → s.state ≡ created → MovesOn submit_commitment s (on_commitment s c)
  unfolding on_commitment is_edge
  on_commitment-Moves c at = ground arith

  on_reveal-Moves :
      (sha256 : Sha) (p : Shaped SubmittedProposal)
      → s.state ≡ commitment_collection
      → MovesOn reveal_proposal s (on_reveal sha256 s p)
  unfolding on_reveal is_edge
  on_reveal-Moves sha256 p at = ground arith

  on_freeze-Moves :
      (sha256 : Sha) (u : Shaped (Unit {0}))
      → s.state ≡ proposal_reveal
      → MovesOn freeze_candidate s (on_freeze sha256 s u)
  unfolding on_freeze is_edge
  on_freeze-Moves sha256 u at = ground arith

  on_vote-Moves :
      (v : Shaped Vote) → accepts_votes s.state ≡ true → MovesOn cast_vote s (on_vote s v)
  unfolding on_vote is_edge
  on_vote-Moves v at = ground arith

  on_finalize-Moves :
      (sha256 : Sha) (u : Shaped (Unit {0}))
      → s.state ≡ voting
      → MovesOn finalize s (on_finalize sha256 s u)
  unfolding on_finalize is_edge
  on_finalize-Moves sha256 u at = ground arith

handle_event-Moves :
    (sha256 : Sha) (s : Session) (e : Event) → MovesOn (type_of e) s (handle_event sha256 s e)
unfolding handle_event
handle_event-Moves sha256 s (submit_commitment_event c) = ground (arith, on_commitment-Moves s c)
handle_event-Moves sha256 s (reveal_proposal_event p) = ground (arith, on_reveal-Moves s sha256 p)
handle_event-Moves sha256 s (freeze_candidate_event u) = ground (arith, on_freeze-Moves s sha256 u)
handle_event-Moves sha256 s (cast_vote_event v) = ground (arith, on_vote-Moves s v)
handle_event-Moves sha256 s (finalize_event u) = ground (arith, on_finalize-Moves s sha256 u)
handle_event-Moves sha256 s _ = tt

-- An accepted event follows an edge of the machine that bears its type, and appends exactly that
-- transition to the log.
pub apply_event-Moves :
    (sha256 : Sha) (s : Session) (e : Event) → MovesOn (type_of e) s (apply_event sha256 s e)
unfolding apply_event
apply_event-Moves sha256 s not_event = tt
apply_event-Moves sha256 s e = ground (arith, handle_event-Moves sha256 s e)

-- The sessions that events reach.
pub data Reach (sha256 : Sha) (s : Session) : Session → Type 0 where
  here : Reach sha256 s s
  next :
      {t u : Session}
      → Reach sha256 s t
      → (e : Event) → apply_event sha256 t e ≡ accepted u
      → Reach sha256 s u

-- A log that leads from one state to another, each transition along an edge.
abbrev pub LeadsTo : State → List Transition → State → Type 0
LeadsTo from [] to = from ≡ to
LeadsTo from (t ∷ log) to =
    (t.from ≡ from) × (is_edge t.from t.event t.to ≡ true) × LeadsTo t.to log to

LeadsTo-snoc :
    (a : State) (log : List Transition) (t : Transition)
    → LeadsTo a log t.from
    → is_edge t.from t.event t.to ≡ true
    → LeadsTo a (log ++ t ∷ []) t.to
LeadsTo-snoc a [] t h e = (sym h, e, refl)
LeadsTo-snoc a (u ∷ log) t h e = (h.0, h.1, LeadsTo-snoc u.to log t h.2 e)

moves :
    (sha256 : Sha) {s t : Session} (e : Event)
    → apply_event sha256 s e ≡ accepted t
    → Moves (type_of e) s t
moves sha256 {s} {t} e h = subst (MovesOn (type_of e) s) h (apply_event-Moves sha256 s e)

-- Whatever events are applied to a valid session, the sessions that they reach are valid.
pub Reach-IsValid : (sha256 : Sha) (s t : Session) → IsValid s → Reach sha256 s t → IsValid t
Reach-IsValid sha256 s t v here = v
Reach-IsValid sha256 s t v (next {t = m} r e h) =
    (subst (Keeps m) h (apply_event-Keeps sha256 m e (Reach-IsValid sha256 s m v r))).0

-- The log of a session that events reach from an unlogged one tells a path of the machine from the
-- first state to the present one.
Reach-LeadsTo :
    (sha256 : Sha) (s t : Session)
    → s.transition_log ≡ []
    → Reach sha256 s t
    → LeadsTo s.state t.transition_log t.state
Reach-LeadsTo sha256 s t empty here = rw empty refl
Reach-LeadsTo sha256 s t empty (next {t = m} r e h) =
    let step : Moves (type_of e) m t = moves sha256 e h in
    rw step.logged (
      LeadsTo-snoc s.state m.transition_log
        (record { from = m.state; to = t.state; event = type_of e })
        (Reach-LeadsTo sha256 s m empty r) step.edge)

-- A session whose state is terminal accepts no event: an event is rejected as an invalid transition,
-- and a value that is no event as malformed.
apply_event-terminal :
    (sha256 : Sha) (s : Session) (e : Event)
    → is_terminal s.state ≡ true
    → (apply_event sha256 s e ≡ rejected s invalid_state_transition)
      ⊎ (apply_event sha256 s e ≡ rejected s malformed_artifact)
unfolding apply_event
apply_event-terminal sha256 s not_event h = ground arith
apply_event-terminal sha256 s _ h = ground arith
