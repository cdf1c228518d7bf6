-- ===== src/TaskExecutor/Process.antt =====
-- The process that scripts/dev/night-runner-executor.mjs starts, as a machine on the events that
-- reach it: the promise of `executeTask` behind its guards.
-- An event of a timer that is not armed, or of a child that nothing listens to, does nothing. The
-- number of a process, the times and the stream of a chunk's bytes are left out.
pub mod Settled
pub mod Ends
pub mod Truthful
use Prim.Native.String
use mihver.Prelude.{
  ℕ, String, Bool, true, false, not, ◌&&◌, ◌||◌, Option, none, some, List, [], ◌∷◌, eqb,
  if◌then◌else◌,
}

-- The child of the command, or that of the executable that is looked up when it is not found.
pub data Child : Type 0 where
  first second : Child

-- What `spawn` does: it starts a child, or throws ENOENT or another error, with its message.
pub data Spawned : Type 0 where
  spawned : Spawned
  spawn_not_found spawn_failed : String → Spawned

pub record Environment : Type 0 where
  pub windows : Bool
  pub spawn_command : Spawned
  -- what `resolveExecutable` finds
  pub fallback : Option String
  pub spawn_fallback : Spawned
  -- whether a child that was started has a process id
  pub has_pid : Child → Bool

pub data ProcessOutcome : Type 0 where
  completed failed stopped timed_out_outcome : ProcessOutcome

-- The result: an exit code is a number or `null`.
pub record ProcessResult : Type 0 where
  pub outcome : ProcessOutcome
  pub exit_code : Option ℕ
  pub error : Option String
  pub termination_uncertain : Option Bool
  pub timed_out : Bool
  pub stop_detected : Bool
  pub stdout : String
  pub stderr : String

pub data Signal : Type 0 where
  sigterm sigkill : Signal

pub record Execution : Type 0 where
  pub child : Option Child
  pub hears_error : Child → Bool
  pub hears_close : Child → Bool
  pub original_error : Option String
  pub stdout : String
  pub stderr : String
  pub timed_out : Bool
  pub stop_detected : Bool
  pub terminating : Bool
  pub escalated : Bool
  pub close_code : Option (Option ℕ)
  -- the result, once the promise is settled
  pub result : Option ProcessResult
  pub timeout_armed : Bool
  pub stop_armed : Bool
  pub escalation_armed : Bool
  pub grace_armed : Bool
  -- the calls that end a process tree, the last one first
  pub signals : List (Signal × Child)

pub data ProcessEvent : Type 0 where
  out_chunk err_chunk : String → ProcessEvent
  -- the event `error` of a child: whether it is ENOENT, and its message
  child_error : Child → Bool → String → ProcessEvent
  child_close : Child → Option ℕ → ProcessEvent
  -- a poll, and whether `.project/STOP` exists then
  stop_poll : Bool → ProcessEvent
  timeout_fires escalation_fires grace_fires : ProcessEvent

abbrev pub is_settled : Execution → Bool
is_settled x = elim x.result [ none ↦ false | some r ↦ true ]

-- What `finish` is called with.
pub record Finished : Type 0 where
  pub outcome : ProcessOutcome
  pub exit_code : Option ℕ
  pub error : Option String
  pub termination_uncertain : Option Bool

-- `finish`, when it has not been called before
unfoldable pub settle_with : Finished → Execution → Execution
settle_with f x = record x {
  result = some (record {
    outcome = f.outcome;
    exit_code = f.exit_code;
    error = f.error;
    termination_uncertain = f.termination_uncertain;
    timed_out = x.timed_out;
    stop_detected = x.stop_detected;
    stdout = x.stdout;
    stderr = x.stderr;
  });
  timeout_armed = false;
  stop_armed = false;
  escalation_armed = false;
  grace_armed = false;
}

-- `finish`
unfoldable pub finish_with : Finished → Execution → Execution
finish_with f x = if is_settled x then x else settle_with f x

abbrev pub same_child : Child → Child → Bool
same_child first first = true
same_child second second = true
same_child _ _ = false

abbrev pub is_current_child : Option Child → Child → Bool
is_current_child none child = false
is_current_child (some c) child = same_child c child

unfoldable pub failure : String → Finished
failure message = record {
  outcome = failed;
  exit_code = none;
  error = some message;
  termination_uncertain = none;
}

abbrev or_message : Option String → String → String
or_message none message = message
or_message (some original) message = original

-- A child that was started: it is the current one, and its events are heard.
unfoldable pub launched : Child → Option String → Execution → Execution
launched child original x = record x {
  child = some child;
  hears_error = λ c. if same_child child c then true else x.hears_error c;
  hears_close = λ c. if same_child child c then true else x.hears_close c;
  original_error = original;
}

abbrev pub termination_outcome : Execution → ProcessOutcome
termination_outcome x = if x.stop_detected then stopped else timed_out_outcome

abbrev pub exit_outcome : Execution → Option ℕ → ProcessOutcome
exit_outcome x code =
    if x.stop_detected
    then stopped
    else if x.timed_out
    then timed_out_outcome
    else elim code [ none ↦ failed | some n ↦ if eqb n 0 then completed else failed ]

module _ (env : Environment) where
  -- `terminateProcessTree`
  unfoldable pub send : Signal → Option Child → List (Signal × Child) → List (Signal × Child)
  send signal none sent = sent
  send signal (some child) sent = if env.has_pid child then (signal, child) ∷ sent else sent

  unfoldable pub fallback_spawned : String → Spawned → Execution → Execution
  fallback_spawned original spawned x = launched second (some original) x
  fallback_spawned original (spawn_not_found message) x = finish_with (failure original) x
  fallback_spawned original (spawn_failed message) x = finish_with (failure original) x

  -- A first error ENOENT: the executable is looked up, and `launch` is called with the error.
  unfoldable pub look_up : String → Option String → Execution → Execution
  look_up message none x = finish_with (failure message) x
  look_up message (some command) x = fallback_spawned message env.spawn_fallback x

  unfoldable pub not_found : String → Execution → Execution
  not_found message x = look_up message env.fallback x

  unfoldable pub command_spawned : Spawned → Execution → Execution
  command_spawned spawned x = launched first none x
  command_spawned (spawn_not_found message) x = not_found message x
  command_spawned (spawn_failed message) x = finish_with (failure message) x

  -- `launch` of the command
  unfoldable pub launch : Execution → Execution
  launch x = command_spawned env.spawn_command x

  -- `requestTermination`, on the first call before the end
  unfoldable pub terminate : Bool → Execution → Execution
  terminate by_timeout x = record x {
    terminating = true;
    timed_out = by_timeout;
    stop_detected = not by_timeout;
    signals = send sigterm x.child x.signals;
    escalation_armed = if env.windows then x.escalation_armed else true;
    grace_armed = true;
  }

  -- `requestTermination`
  unfoldable pub request_termination : Bool → Execution → Execution
  request_termination by_timeout x =
      if x.terminating || is_settled x then x else terminate by_timeout x

  -- The listener of `error`
  unfoldable pub on_error : Child → Bool → String → Execution → Execution
  on_error child enoent message x =
      let y = record x {
        hears_error = λ c. if same_child child c then false else x.hears_error c;
      } in
      if enoent && same_child child first
      then not_found message y
      else finish_with (failure (or_message y.original_error message)) y

  -- The listener of `close`, of the current child and before the end
  unfoldable pub closed : Option ℕ → Execution → Execution
  closed code x =
      let y = record x { close_code = some code } in
      if x.terminating && not env.windows && not x.escalated
      then y
      else finish_with
          (record {
            outcome = exit_outcome x code;
            exit_code = code;
            error = none;
            termination_uncertain = if x.terminating then some false else none;
          })
          y

  unfoldable pub on_close : Child → Option ℕ → Execution → Execution
  on_close child code x =
      let y = record x {
        hears_close = λ c. if same_child child c then false else x.hears_close c;
      } in
      if is_settled x || not (is_current_child x.child child) then y else closed code y

  -- What the escalation does when the child has closed before it.
  unfoldable pub finish_closed : Option (Option ℕ) → Execution → Execution
  finish_closed none x = x
  finish_closed (some code) x =
      finish_with
        (record {
          outcome = termination_outcome x;
          exit_code = code;
          error = none;
          termination_uncertain = some false;
        })
        x

  unfoldable pub escalate : Execution → Execution
  escalate x = finish_closed x.close_code (record x {
    escalation_armed = false;
    escalated = true;
    signals = send sigkill x.child x.signals;
  })

  unfoldable pub grace_expires : Execution → Execution
  grace_expires x =
      finish_with
        (record {
          outcome = termination_outcome x;
          exit_code = none;
          error = none;
          termination_uncertain = some true;
        })
        (record x { grace_armed = false })

  unfoldable pub react : ProcessEvent → Execution → Execution
  react (out_chunk chunk) x = record x { stdout = String.◌++◌ x.stdout chunk }
  react (err_chunk chunk) x = record x { stderr = String.◌++◌ x.stderr chunk }
  react (child_error child enoent message) x =
      if x.hears_error child then on_error child enoent message x else x
  react (child_close child code) x = if x.hears_close child then on_close child code x else x
  react (stop_poll exists) x = if x.stop_armed && exists then request_termination false x else x
  react timeout_fires x =
      if x.timeout_armed then request_termination true (record x { timeout_armed = false }) else x
  react escalation_fires x = if x.escalation_armed then escalate x else x
  react grace_fires x = if x.grace_armed then grace_expires x else x

  abbrev pub run_process : Execution → List ProcessEvent → Execution
  run_process x [] = x
  run_process x (e ∷ es) = run_process (react e x) es

  unfoldable pub idle : Execution
  idle = record {
    child = none;
    hears_error = λ c. false;
    hears_close = λ c. false;
    original_error = none;
    stdout = "";
    stderr = "";
    timed_out = false;
    stop_detected = false;
    terminating = false;
    escalated = false;
    close_code = none;
    result = none;
    timeout_armed = false;
    stop_armed = false;
    escalation_armed = false;
    grace_armed = false;
    signals = [];
  }

  -- The end of `executeTask`: the launch, and the two timers if it has not failed.
  unfoldable pub arm : Execution → Execution
  arm x = if is_settled x then x else record x { stop_armed = true; timeout_armed = true }

  unfoldable pub begin : Execution
  begin = arm (launch idle)
