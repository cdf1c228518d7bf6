-- ===== src/Tests/Sessions.antt =====
-- Witnesses of the theorems on council sessions.
use mihver.Prelude.{keep, ◌↔◌, ◌≡◌, refl, true, none, some, List, [], ◌∷◌, includes, all}
use mihver.Council.Types.{
  r3_quorum_met, Vote, finalize, RiskClass, submit_commitment, decided, human_approval_required,
  DecisionRecord, r1, r3, exact, Session, submit_commitment_event, finalize_event,
}
use mihver.Council.Kernel.{finalized, accepted, apply_event}
use mihver.Council.Sessions.{make_record, transition, record_prints, seats_print}
use mihver.Council.Invariant.{IsValid}
use mihver.Council.Machine.{MovesOn, apply_event-Moves}
use mihver.Council.Quorum.{quorum_of, r3_detail, QuorumResult}
use mihver.Council.Decision.{finalize-Supported, is_favourable, Supported}
use mihver.Tests.Fixtures.{
  seats, fixed_sha, commitment, approval_of_seat, new_session, voting_session,
}

new_session-IsValid : IsValid (new_session r1)
unfolding includes
new_session-IsValid = record {
  seat_count = refl;
  seats_distinct = (refl, (refl, (refl, tt)));
  votes_distinct = tt;
  votes_known = tt;
  votes_bound = tt;
  holds_data = refl;
}

apply_event-Moves_example :
    MovesOn submit_commitment
      (new_session r1)
      (apply_event fixed_sha (new_session r1) (submit_commitment_event (exact commitment)))
apply_event-Moves_example =
    apply_event-Moves fixed_sha (new_session r1) (submit_commitment_event (exact commitment))

abbrev votes : List Vote
votes = approval_of_seat "a" ∷ approval_of_seat "b" ∷ approval_of_seat "c" ∷ []

abbrev met : QuorumResult
met = record { met = true; reason = r3_quorum_met; detail = r3_detail none 3 }

abbrev finished : Session
finished = finalized fixed_sha (voting_session r3 votes) met

finishes :
    apply_event fixed_sha (voting_session r3 votes) (finalize_event (exact tt)) ≡ accepted finished
unfolding apply_event quorum_of keep record_prints seats_print all
finishes = refl

abbrev final_record : DecisionRecord
final_record =
    make_record fixed_sha (transition (voting_session r3 votes) decided finalize) decided
      human_approval_required (r3_detail none 3) r3_quorum_met

records : finished.decision_record ≡ some final_record
unfolding finalized
records = refl

favours : is_favourable final_record.body.disposition ≡ true
unfolding make_record
favours = refl

finalize-Supported_example :
    Supported r3 seats "a" votes
    × ((◌≡◌ {A = RiskClass} r3 r3) ↔ (final_record.body.disposition ≡ human_approval_required))
finalize-Supported_example =
    finalize-Supported fixed_sha (voting_session r3 votes) finished final_record finishes records
      favours
