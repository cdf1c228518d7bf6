-- ===== src/Authorization/Loop.antt =====
-- `runAuthorizationLoop` of scripts/dev/authorization-loop.mjs.
-- The two callbacks are parameters: each takes the world and gives the next one, with what it
-- returns, or `none` if it throws. The messages of errors are left out.
pub mod Within
pub mod Bounds
pub mod Backing
use mihver.Prelude.{
  ℕ, zero, suc, ◌+◌, String, Bool, true, false, not, Option, none, some, List, [], ◌∷◌, ◌++◌, ◌==◌,
  length, leb, ltb, includes, nonempty, if◌then◌else◌, ◌-◌,
}
use mihver.Json.{Json}
use mihver.Council.Types.{Shaped, DecisionRecord}
use mihver.Council.Proof.{Registry}
use mihver.Council.Proof.Verify.{Submitted}
use mihver.Authorization.Records.{External, TaskRecord, Context, Envelope}
use mihver.Authorization.Rederive.{Reason, duplicate_authorization_id}
use mihver.Authorization.Binder.{Evaluated, no_envelope, envelope, evaluate_authorization}
use mihver.Authorization.Executor.{
  Receipt, ReceiptError, Requested, is_id, execute_fake_action, verify_fake_execution_receipt,
}

-- `LOOP_STATES` that are not terminal, and `TERMINAL_OUTCOMES`
pub data LoopOutcome : Type 0 where
  completed stopped authorization_denied verification_failed : LoopOutcome
  max_iterations_reached internal_error : LoopOutcome

pub data LoopState : Type 0 where
  created observed decision_ready authorization_evaluated ledger_gate_evaluated : LoopState
  fake_executed verified next_iteration : LoopState
  ended_with : LoopOutcome → LoopState

pub record LogEntry : Type 0 where
  pub state : LoopState
  pub iteration : ℕ

pub record Fixture : Type 0 where
  pub decision_record : Shaped DecisionRecord
  pub task_record : Shaped TaskRecord
  pub current_context : Shaped Context
  pub current_stop_epoch : Option ℕ
  pub policy_version : String
  pub proof : Submitted
  pub trusted_registry : Registry
  pub action : String
  pub input : Option Json

-- What the ledger check returns: an ALLOW_ONCE with its authorization's identity, or any other
-- value.
pub data Checked : Type 0 where
  allowed_once : Option String → Checked
  refused : Checked

pub data ErrorStep : Type 0 where
  ledger_check_step stop_check_step fake_execution_step : ErrorStep

-- The fields that an outcome adds.
pub data Details : Type 0 where
  no_details : Details
  denied_for : Reason → Details
  denied_by : Checked → Details
  error_at : ErrorStep → ℕ → Details
  stopped_at : ℕ → Details
  unverified : List ReceiptError → Details
  remaining : ℕ → Details

pub record Progress (W : Type 0) : Type 0 where
  pub world : W
  pub receipts : List Receipt
  pub authorization_ids : List String
  pub transition_log : List LogEntry

pub record LoopRecord (W : Type 0) : Type 0 where
  pub progress : Progress W
  pub open progress use *
  pub iteration_count : ℕ
  pub outcome : LoopOutcome
  pub details : Details

-- One iteration ends the loop or goes on.
pub data Round (W : Type 0) : Type 0 where
  ended : LoopRecord W → Round W
  continued : Progress W → Round W

pub record Call : Type 0 where
  pub run_id : String
  pub iteration : ℕ
  pub fixture : Fixture
  pub envelope_given : Envelope

-- `ledgerCheck` and `isStopStillValid`. They settle, with an answer or an exception, and may change
-- the world, but not the objects they are given: a promise that never settles would hold the loop
-- back for ever, and an allowance that is changed would reach the executor.
pub record Callbacks (W : Type 0) : Type 0 where
  pub ledger_check : W → Call → W × Option Checked
  -- whether the result is `true`
  pub is_stop_still_valid : W → Call → Checked → W × Option Bool

unfoldable pub log : {W : Type 0} → LoopState → ℕ → Progress W → Progress W
log state iteration p = record p {
  transition_log = p.transition_log ++ (record { state = state; iteration = iteration }) ∷ [];
}

unfoldable pub finish : {W : Type 0} → Progress W → LoopOutcome → ℕ → Details → LoopRecord W
unfolding log
finish p outcome count details = record {
  progress = log (ended_with outcome) count p;
  iteration_count = count;
  outcome = outcome;
  details = details;
}

-- `ledgerResult.outcome === "ALLOW_ONCE"` with the envelope's own identity
unfoldable pub allows_envelope : Checked → String → Bool
unfolding is_id
allows_envelope (allowed_once o) id = is_id o id
allows_envelope refused id = false

unfoldable pub canonical_id : Checked → Option String
canonical_id (allowed_once o) = o
canonical_id refused = none

unfoldable pub evaluate_fixture : External → Fixture → Evaluated
evaluate_fixture ext f =
    evaluate_authorization ext f.proof f.trusted_registry f.decision_record f.task_record
      f.current_context f.current_stop_epoch f.policy_version

unfoldable pub start : {W : Type 0} → W → Progress W
start world = record {
  world = world;
  receipts = [];
  authorization_ids = [];
  transition_log = (record { state = created; iteration = 0 }) ∷ [];
}

-- `normalizedMaximum`, with `HARD_MAX_ITERATIONS`
unfoldable pub normalized_maximum : ℕ → ℕ
normalized_maximum n = if ltb n 3 then n else 3

module _ {W : Type 0} (ext : External) (callbacks : Callbacks W) where
  unfoldable pub on_verification : Call → Progress W → List ReceiptError → Round W
  on_verification c p (e ∷ errors) =
      ended (finish p verification_failed c.iteration (unverified (e ∷ errors)))
  on_verification c p [] = continued (log next_iteration c.iteration (log verified c.iteration p))

  unfoldable pub on_receipt : Call → Checked → Progress W → Option Receipt → Round W
  on_receipt c allowance p none =
      ended (finish p internal_error (c.iteration - 1) (error_at fake_execution_step c.iteration))
  on_receipt c allowance p (some r) =
      let p' = log fake_executed c.iteration p in
      on_verification c (record p' { receipts = p'.receipts ++ r ∷ [] })
        (verify_fake_execution_receipt ext.sha256 (some r) (record {
          loop_run_id = c.run_id;
          iteration = c.iteration;
          action = c.fixture.action;
          input = c.fixture.input;
          envelope_authorization_id = some c.envelope_given.body.authorization_id;
          canonical_authorization_id = canonical_id allowance;
        }))

  -- Dispatch and verification.
  unfoldable pub dispatch : Call → Checked → Progress W → Round W
  dispatch c allowance p = on_receipt c allowance p (
      execute_fake_action ext.sha256 c.run_id c.iteration c.envelope_given.body.authorization_id
        c.fixture.action c.fixture.input)

  -- The answer to the stop check, right before dispatch.
  unfoldable pub on_stop_answer : Call → Checked → Progress W → Option Bool → Round W
  on_stop_answer c allowance p none =
      ended (finish p internal_error (c.iteration - 1) (error_at stop_check_step c.iteration))
  on_stop_answer c allowance p (some false) =
      ended (finish p stopped (c.iteration - 1) (stopped_at c.iteration))
  on_stop_answer c allowance p (some true) = dispatch c allowance p

  unfoldable pub stop_gate : Call → Checked → Progress W → Round W
  stop_gate c allowance p =
      let answer = callbacks.is_stop_still_valid p.world c allowance in
      on_stop_answer c allowance (record p { world = answer.0 }) answer.1

  unfoldable pub on_ledger_answer : Call → Progress W → Option Checked → Round W
  on_ledger_answer c p none =
      ended (finish p internal_error (c.iteration - 1) (error_at ledger_check_step c.iteration))
  on_ledger_answer c p (some checked) =
      let evaluated = log ledger_gate_evaluated c.iteration p in
      if not (allows_envelope checked c.envelope_given.body.authorization_id)
      then ended (finish evaluated authorization_denied (c.iteration - 1) (denied_by checked))
      else stop_gate c checked evaluated

  unfoldable pub ledger_gate : Call → Progress W → Round W
  ledger_gate c p =
      let answer = callbacks.ledger_check p.world c in
      on_ledger_answer c (record p { world = answer.0 }) answer.1

  unfoldable pub on_evaluation : String → ℕ → Fixture → Progress W → Evaluated → Round W
  on_evaluation run_id iteration f p (no_envelope reason) =
      ended (finish p authorization_denied (iteration - 1) (denied_for reason))
  on_evaluation run_id iteration f p (envelope e) =
      if includes p.authorization_ids e.body.authorization_id
      then ended
          (finish p authorization_denied (iteration - 1) (denied_for duplicate_authorization_id))
      else ledger_gate
          (record { run_id = run_id; iteration = iteration; fixture = f; envelope_given = e })
          (record p { authorization_ids = p.authorization_ids ++ e.body.authorization_id ∷ [] })

  unfoldable pub authorize : String → ℕ → Fixture → Progress W → Round W
  authorize run_id iteration f p =
      let seen = log decision_ready iteration (log observed iteration p) in
      on_evaluation run_id iteration f (log authorization_evaluated iteration seen)
        (evaluate_fixture ext f)

  -- The iterations: how many may still run, how many have, and the fixtures that are left; `none`
  -- is an element that is undefined.
  unfoldable pub run_from : String → ℕ → ℕ → List (Option Fixture) → Progress W → LoopRecord W
  run_from run_id zero index rest p =
      finish p max_iterations_reached index (remaining (length rest))
  run_from run_id (suc rounds) index [] p = finish p completed index no_details
  run_from run_id (suc rounds) index (none ∷ rest) p = finish p completed index no_details
  run_from run_id (suc rounds) index (some f ∷ []) p = elim (authorize run_id (suc index) f p) [
    | ended r ↦ r
    | continued p' ↦ finish p' completed (suc index) no_details
  ]
  run_from run_id (suc rounds) index (some f ∷ g ∷ rest) p =
      elim (authorize run_id (suc index) f p) [
        | ended r ↦ r
        | continued p' ↦ run_from run_id rounds (suc index) (g ∷ rest) p'
      ]

  -- `none` is the TypeError of an empty run id or a maximum of zero.
  unfoldable pub run_authorization_loop :
      String → List (Option Fixture) → ℕ → W → Option (LoopRecord W)
  run_authorization_loop run_id fixtures maximum world =
      if not (nonempty run_id)
      then none
      else if not (leb 1 maximum)
      then none
      else some (run_from run_id (normalized_maximum maximum) 0 fixtures (start world))
