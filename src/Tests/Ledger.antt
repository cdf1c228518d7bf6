-- ===== src/Tests/Ledger.antt =====
-- Witnesses of the theorems on the ledger.
use mihver.Council.Proof.Recount.{expected_outcome}
use mihver.Council.Quorum.{vote_by_seat}
use mihver.Council.Sessions.{proposer_seat, record_vote}
use mihver.Council.Validity.{valid_request, valid_vote}
use mihver.Council.Proof.{
  valid_proof, compute_proof_hash, compute_council_config_hash, lookup_trusted_config_hash,
  request_matches_record,
}
use mihver.Authorization.Rederive.{
  context_current, rederive_envelope, rederive_checked, envelope_of, envelope_body,
  compute_canonical_envelope_hash,
}
use mihver.Council.Hashes.{compute_decision_record_hash}
use mihver.Json.{units, canonicalize_json}
use mihver.Prelude.{
  find, ◌<◌, ◌≤◌, ◌≡◌, refl, true, some, List, [], ◌∷◌, arith, nonempty, is_hash64, set_size, any,
  keep, is_hex40, all,
}
use mihver.Council.Types.{exact}
use mihver.Council.Proof.Verify.{
  shaped, verify_council_quorum_proof, is_text, conclude, eligible, submitted_checks, checks_of,
  config_trusted, bindings, vote_bound, same, quorum_matches, recount, outcome_matches,
}
use mihver.Authorization.Records.{
  Context, Envelope, supported_policy, compute_authorization_id, terminal_pair, council_consistent,
  valid_task_record, compute_task_record_hash, valid_context, valid_stop_epoch,
  compute_authorization_envelope_hash,
}
use mihver.Authorization.Ledger.{
  record_by_id, Grant, authorized, Simulation, SubmittedEnvelope, structurally_bounded_envelope,
  matching_tasks, rederive_for, is_consumed, grant_by_hash, verify_canonical_council_proof,
  proof_by_identity, decision_record_identity,
}
use mihver.Authorization.Ledger.Consume.{
  allow_once, deny, check_and_consume, check_located, locate, decide_prepared, prepare,
  prepare_task, decide, claims_epoch, claims_text, decide_approved, approval_of, grant_objection,
  result,
}
use mihver.Authorization.Ledger.Grants.{bump_admits, bump_applies, bump_stop_epoch}
use mihver.Authorization.Ledger.Once.{decides, allowances, allowances-le_one}
use mihver.Authorization.Ledger.Sound.{Justified, check_and_consume-Justified}
use mihver.Authorization.Ledger.Fencing.{Approved, allowed-Approved, bump_race}
use mihver.Tests.Fixtures.{hash, head}
use mihver.Tests.Proofs.{decision, proof, registry}
use mihver.Tests.Binding.{ext, task, context, env}

abbrev grant : Grant
grant = record {
  grant_id = "g";
  envelope_hash = hash;
  approver_identity = "human";
  bound_stop_epoch = 7;
  state = authorized;
  expires_at = "later";
  authorized_at = "now";
  state_changed_at = "now";
}

abbrev simulation : List Grant → Simulation
simulation grants = record {
  decision_records = decision ∷ [];
  council_quorum_proofs =
      ("d\0sha256:0000000000000000000000000000000000000000000000000000000000000000", shaped proof)
      ∷ [];
  task_records = task ∷ [];
  grants = grants;
  ledger = [];
  current_context = context;
  current_stop_epoch = 7;
  policy_version = supported_policy;
  privileged_approver_identity = "human";
  trusted_registry = registry;
}

abbrev submitted : SubmittedEnvelope
submitted = record {
  decision_request_id = "d";
  stop_epoch = some 7;
  context_hash = some hash;
  repository_head = some head;
  envelope_hash = some hash;
  keys = 18;
  ref_keys = 2;
}

abbrev quiet : Simulation → Simulation
quiet s = s

abbrev s1 : Simulation
s1 = simulation (grant ∷ [])

abbrev s0 : Simulation
s0 = simulation []

is_allowed : (check_and_consume ext quiet s1 (exact submitted) "now").1.outcome ≡ allow_once
unfolding check_and_consume check_located locate structurally_bounded_envelope nonempty units
    record_by_id find mihver.Authorization.Records.valid_decision_record terminal_pair
    council_consistent is_hash64 set_size any compute_decision_record_hash decide_prepared prepare
    matching_tasks keep prepare_task valid_task_record compute_task_record_hash context_current
    rederive_for rederive_envelope valid_context is_hex40 valid_stop_epoch rederive_checked decide
    claims_epoch envelope_of envelope_body claims_text compute_authorization_envelope_hash
    is_consumed decide_approved approval_of grant_by_hash grant_objection
    verify_canonical_council_proof proof_by_identity decision_record_identity
    verify_council_quorum_proof mihver.Council.Proof.valid_decision_record all is_text conclude
    eligible submitted_checks checks_of valid_proof valid_request valid_vote compute_proof_hash
    config_trusted compute_council_config_hash lookup_trusted_config_hash bindings
    request_matches_record vote_bound proposer_seat same canonicalize_json record_vote vote_by_seat
    quorum_matches recount outcome_matches expected_outcome result compute_canonical_envelope_hash
is_allowed = refl

is_refused : (check_and_consume ext quiet s0 (exact submitted) "now").1.outcome ≡ deny
unfolding check_and_consume check_located locate structurally_bounded_envelope nonempty units
    record_by_id find mihver.Authorization.Records.valid_decision_record terminal_pair
    council_consistent is_hash64 set_size any compute_decision_record_hash decide_prepared prepare
    matching_tasks keep prepare_task valid_task_record compute_task_record_hash context_current
    rederive_for rederive_envelope valid_context is_hex40 valid_stop_epoch rederive_checked decide
    claims_epoch envelope_of envelope_body claims_text compute_authorization_envelope_hash
    is_consumed decide_approved approval_of grant_by_hash result compute_canonical_envelope_hash
is_refused = refl

allowances-le_one_example :
    allowances ext hash s1
      (decides decision submitted env 7 "now" ∷ decides decision submitted env 7 "now" ∷ [])
    ≤ 1
allowances-le_one_example =
    allowances-le_one ext hash s1
      (decides decision submitted env 7 "now" ∷ decides decision submitted env 7 "now" ∷ [])

check_and_consume-Justified_example : Justified ext quiet s1 submitted "now"
check_and_consume-Justified_example =
    check_and_consume-Justified ext quiet s1 submitted "now" is_allowed

stored : record_by_id s1.decision_records submitted.decision_request_id ≡ some decision
unfolding record_by_id find
stored = refl

allowed-Approved_example : Approved ext quiet s1 submitted "now" decision is_allowed stored
allowed-Approved_example =
    allowed-Approved ext quiet s1 submitted "now" decision is_allowed stored refl

bump_race_example :
    ((bump_stop_epoch (bump_stop_epoch s1 (some 9)).0 (some 8)).0.current_stop_epoch ≡ 9)
    × (bump_admits s1 (some 9) ≡ true)
    × (bump_admits s1 (some 8) ≡ true)
    × ((bump_applies (bump_applies s1 9) 8).current_stop_epoch
        < (bump_applies s1 9).current_stop_epoch)
bump_race_example = bump_race s1 9 8 (omega arith) (omega arith) (omega arith)
