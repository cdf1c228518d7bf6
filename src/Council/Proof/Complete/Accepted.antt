-- ===== src/Council/Proof/Complete/Accepted.antt =====
-- The record and the proof of a finalized session pass the tests of
-- scripts/dev/council-quorum-proof.mjs.
use mihver.Prelude.{
  ◌≡◌, refl, ap, sym, true, some, map, arith, ◌==◌, eq_iff, all, length, eqb, nonempty, is_hash64,
  set_size, Distinct-set_size, length-map, subst, if◌then◌else◌, ◌∙◌, eqb_iff,
}
use mihver.Json.{arr}
use mihver.Council.Types.{
  Vote, decided, no_quorum, without_quorum, Candidate, Session, DecisionRecord,
}
use mihver.Council.Hashes.{
  Sha, digest, compute_decision_record_hash, record_votes_json, detail_json, state_name,
  disposition_name, reason_name, risk_name,
}
use mihver.Council.Validity.{valid_request, valid_seat, valid_vote}
use mihver.Council.Quorum.{QuorumResult, quorum_of}
use mihver.Council.Sessions.{
  make_record, record_body, recorded_votes, record_vote, proposer_seat, transition,
}
use mihver.Council.Kernel.{finalized, outcome_disposition}
use mihver.Council.Invariant.{IsValid}
use mihver.Council.Proof.{
  Proof, ProofBody, built, contemporaneous, Registry, compute_council_config_hash,
  compute_proof_hash, valid_proof_config, valid_decision_record, null_or, is_record_state,
  valid_proof, valid_record_vote, lookup_trusted_config_hash, request_matches_record, same_risk,
  build_checked, build_council_quorum_proof,
}
use mihver.Council.Proof.Agreement.{recompute_quorum-eq-quorum_of}
use mihver.Council.Proof.Recount.{expected_outcome}
use mihver.Council.Proof.Verify.{
  shaped, same, needs_council, is_text, vote_bound, bindings, config_trusted, recount,
  quorum_matches, outcome_matches, checks_of, submitted_checks, conclude, eligible,
  verify_council_quorum_proof,
}
use mihver.Council.Proof.Complete.Ready.{Hashes, IsReady}
use mihver.Council.Proof.Complete.Parts.{
  eq_self, same_self, votes_valid, record_votes_valid, proposer_seat-nonempty, both, request_parts,
  all-vote_bound,
}

-- The record of a session that is finalized with a quorum result.
abbrev pub outcome_record : Sha → Session → QuorumResult → DecisionRecord
outcome_record sha256 s q =
    make_record sha256 s (if q.met then decided else no_quorum)
      (if q.met then outcome_disposition s.decision_request.risk_class else without_quorum) q.detail
      q.reason

pub finalized-outcome_record :
    (sha256 : Sha) (s : Session) (q : QuorumResult)
    → (finalized sha256 s q).decision_record ≡ some (outcome_record sha256 s q)
unfolding finalized make_record record_body transition
finalized-outcome_record sha256 s q = refl

abbrev proof_body_of : Sha → Session → DecisionRecord → ProofBody
proof_body_of sha256 s r = record {
  proof_version = "1";
  decision_request = s.decision_request;
  decision_record_hash = r.record_hash;
  quorum_rule_version = "decision-council-v1a";
  council_config = s.council_config;
  council_config_hash = compute_council_config_hash sha256 s.council_config;
  votes = s.votes;
  provenance_class = contemporaneous;
}

abbrev pub proof_of : Sha → Session → DecisionRecord → Proof
proof_of sha256 s r = record {
  body = proof_body_of sha256 s r;
  proof_hash = compute_proof_hash sha256 (proof_body_of sha256 s r);
}

builds_checked :
    (sha256 : Sha) (s : Session) (r : DecisionRecord)
    → valid_request s.decision_request ≡ true
    → valid_proof_config s.council_config ≡ true
    → all valid_vote s.votes ≡ true
    → valid_decision_record r ≡ true
    → request_matches_record s.decision_request r ≡ true
    → (compute_decision_record_hash sha256 r.body == r.record_hash) ≡ true
    → build_council_quorum_proof sha256 s.decision_request s.council_config s.votes r
      ≡ built (proof_of sha256 s r)
unfolding build_council_quorum_proof build_checked
builds_checked sha256 s r a b c d f g = rw a (rw b (rw c (rw d (rw f (rw g refl)))))

module _ (sha256 : Sha) (hashes : Hashes sha256) (s : Session) (v : IsValid s) (ready : IsReady s)
    (c : Candidate) (e : s.candidate_decision ≡ some c) (q : QuorumResult) where
  abbrev r : DecisionRecord
  r = outcome_record sha256 s q

  abbrev p : Proof
  p = proof_of sha256 s r

  seats_valid : all valid_seat s.council_config.seats ≡ true
  seats_valid = by_config ready.config_valid
    where
      by_config :
          valid_proof_config s.council_config ≡ true → all valid_seat s.council_config.seats ≡ true
      by_config h = unfold valid_proof_config in ground arith

  candidate_of :
      (c.body.proposer_seat_id ≡ s.expected_proposer_seat_id) × (is_hash64 c.candidate_hash ≡ true)
  candidate_of = ground (arith, ready.candidate_ready)

  proposer_nonempty : nonempty c.body.proposer_seat_id ≡ true
  proposer_nonempty =
      subst (λ x. nonempty x ≡ true) (sym (candidate_of.0 ∙ ready.proposer))
        (proposer_seat-nonempty s.council_config.seats s.decision_request.rotation_ordinal
          v.seat_count seats_valid)

  state_recorded : is_record_state (if q.met then decided else no_quorum) ≡ true
  state_recorded = ground arith

  record_hashed : is_hash64 (compute_decision_record_hash sha256 r.body) ≡ true
  unfolding compute_decision_record_hash digest
  record_hashed = hashes _

  votes_recorded :
      all valid_record_vote (recorded_votes (some c) s.council_config.seats s.votes) ≡ true
  unfolding recorded_votes
  votes_recorded =
      record_votes_valid s.votes s.council_config.seats
        (votes_valid s.decision_request s.votes ready.votes_ready) seats_valid

  record_valid : valid_decision_record r ≡ true
  unfolding valid_decision_record make_record record_body null_or
  record_valid =
      let (id, task, context, head, epoch) = request_parts s.decision_request ready.request_valid in
      both
        (both
          (both
            (both
              (both (both (both (both (both (id) (task)) (context)) (head)) (epoch))
                (state_recorded))
              (rw e candidate_of.1))
            (rw e proposer_nonempty))
          (rw e votes_recorded))
        (record_hashed)

  proof_hashed : is_hash64 (compute_proof_hash sha256 p.body) ≡ true
  unfolding compute_proof_hash digest
  proof_hashed = hashes _

  proof_valid : valid_proof p ≡ true
  unfolding valid_proof make_record
  proof_valid =
      both
        (both
          (both
            (both
              (both (both (both (both (refl) (ready.request_valid)) (record_hashed)) (refl))
                (ready.config_valid))
              (config_hashed))
            (votes_valid s.decision_request s.votes ready.votes_ready))
          (refl))
        (proof_hashed)
    where
      config_hashed : is_hash64 (compute_council_config_hash sha256 s.council_config) ≡ true
      config_hashed = unfold compute_council_config_hash digest in hashes _

  request_matches : request_matches_record s.decision_request r ≡ true
  unfolding request_matches_record same_risk make_record record_body
  request_matches =
      both
        (both
          (both
            (both
              (both (eq_self s.decision_request.decision_request_id)
                (eq_self s.decision_request.task_id))
              (eq_self (risk_name s.decision_request.risk_class)))
            (eq_self s.decision_request.context_hash))
          (eq_self s.decision_request.repository_head))
        (eq_self s.decision_request.council_epoch_id)

  pub builds :
      build_council_quorum_proof sha256 s.decision_request s.council_config s.votes r ≡ built p
  unfolding make_record compute_decision_record_hash
  builds =
      builds_checked sha256 s r ready.request_valid ready.config_valid
        (votes_valid s.decision_request s.votes ready.votes_ready) record_valid request_matches
        (eq_self (compute_decision_record_hash sha256 r.body))

  votes_bound :
      all (vote_bound r (map (λ seat. seat.seat_id) s.council_config.seats)) s.votes ≡ true
  unfolding make_record record_body
  votes_bound =
      all-vote_bound s.decision_request r s.council_config.seats s.votes refl refl ready.votes_ready
        v.votes_known v.votes_bound

  one_vote_each :
      eqb (set_size (map (λ (vote : Vote). vote.seat_id) s.votes)) (length s.votes) ≡ true
  one_vote_each = (eqb_iff (set_size (map (λ vote. vote.seat_id) s.votes)) (length s.votes)).1 (
      Distinct-set_size (map (λ vote. vote.seat_id) s.votes) v.votes_distinct
      ∙ length-map {0, 0} (λ (vote : Vote). vote.seat_id) s.votes)

  proposed :
      is_text
        (some c.body.proposer_seat_id)
        (proposer_seat s.council_config.seats s.decision_request.rotation_ordinal)
      ≡ true
  unfolding is_text
  proposed =
      (eq_iff c.body.proposer_seat_id
          (proposer_seat s.council_config.seats s.decision_request.rotation_ordinal)).1
        (candidate_of.0 ∙ ready.proposer)

  same_votes :
      same
        (arr (record_votes_json (map (record_vote s.votes) s.council_config.seats)))
        (arr (record_votes_json (recorded_votes (some c) s.council_config.seats s.votes)))
      ≡ true
  unfolding recorded_votes
  same_votes =
      same_self (arr (record_votes_json (map (record_vote s.votes) s.council_config.seats)))

  bound : bindings p r ≡ true
  unfolding bindings make_record record_body
  bound =
      both
        (both
          (both
            (both
              (both (request_matches) (
                (eq_iff s.decision_request.council_epoch_id s.council_config.epoch_id).1
                  ready.one_epoch))
              (votes_bound))
            (one_vote_each))
          (rw e proposed))
        (rw e same_votes)

  matched : outcome_matches (expected_outcome s.decision_request.risk_class q) r ≡ true
  unfolding outcome_matches expected_outcome make_record record_body
  matched =
      both
        (both
          (both (eq_self (state_name (expected_outcome s.decision_request.risk_class q).state)) (
            eq_self
              (disposition_name (expected_outcome s.decision_request.risk_class q).disposition)))
          (same_self
            (detail_json (expected_outcome s.decision_request.risk_class q).quorum_detail)))
        (eq_self (reason_name (expected_outcome s.decision_request.risk_class q).reason_code))

  recounted :
      quorum_of s.decision_request.risk_class s.council_config s.expected_proposer_seat_id s.votes
        ≡ some q
      → needs_council s.decision_request.risk_class ≡ true
      → recount p ≡ some q
  unfolding recount
  recounted counted needed = rw needed (
      ap some (
        recompute_quorum-eq-quorum_of s.decision_request s.council_config s.votes q (
          subst
            (λ seat. quorum_of s.decision_request.risk_class s.council_config seat s.votes ≡ some q)
            ready.proposer counted)))

  trusted :
      (registry : Registry)
      → lookup_trusted_config_hash registry s.council_config.epoch_id
        ≡ some (compute_council_config_hash sha256 s.council_config)
      → config_trusted sha256 p registry ≡ true
  unfolding config_trusted is_text
  trusted registry listed =
      both (both ready.config_valid (eq_self (compute_council_config_hash sha256 s.council_config)))
        (rw ready.one_epoch
          (rw listed (eq_self (compute_council_config_hash sha256 s.council_config))))

  pub accepts :
      (registry : Registry)
      → quorum_of s.decision_request.risk_class s.council_config s.expected_proposer_seat_id s.votes
        ≡ some q
      → needs_council s.decision_request.risk_class ≡ true
      → lookup_trusted_config_hash registry s.council_config.epoch_id
        ≡ some (compute_council_config_hash sha256 s.council_config)
      → (verify_council_quorum_proof sha256 (shaped p) r registry).authorization_evidence_eligible
        ≡ true
  unfolding verify_council_quorum_proof conclude submitted_checks eligible checks_of is_text
      quorum_matches make_record
  accepts registry counted needed listed =
      let hashed = eq_self (compute_decision_record_hash sha256 r.body) in
      rw record_valid (
        both
          (both
            (both
              (both
                (both
                  (both (proof_valid)
                    (both proof_hashed (eq_self (compute_proof_hash sha256 p.body))))
                  (both hashed hashed))
                (trusted registry listed))
              (both proof_valid bound))
            (rw proof_valid (rw (recounted counted needed) matched)))
          (refl))
