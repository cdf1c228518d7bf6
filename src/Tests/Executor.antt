-- ===== src/Tests/Executor.antt =====
-- Runs of the executor of one task, which may take a quarter of a second: the command is found only after a lookup, its time runs out, its
-- child closes before the escalation, and another execution is stopped.
use Prim.Native.String
use mihver.TaskExecutor.Launch.Cleared.{IsCleared, decide_launch-IsCleared}
use mihver.TaskExecutor.Launch.{
  Site, Descriptor, Options, ProcessStart, probe_not_found, answered, decide_launch, starts, finite,
  tool_text, required_flags, refused, stop_active, check_created, check_workspace, is_isolated,
  contains_or_equals, check_task, allowed_branch, check_timeout, check_tools, canonical_mode,
  same_ignoring_case, canonical_tools, normalize_tools, approved_tool, start_command, discover,
  discover_from, discover_fallback, supported, has_flags, arguments_of, comma_separated,
  is_positive_finite,
}
use mihver.TaskExecutor.Process.Ends.{run_process-settles}
use mihver.TaskExecutor.Process.Truthful.{IsTruthful, run_process-IsTruthful}
use mihver.TaskExecutor.Process.{
  Environment, ProcessEvent, ProcessResult, run_process, begin, out_chunk, child_close, stop_poll,
  timeout_fires, escalation_fires, grace_fires, second, spawn_not_found, spawned, completed,
  timed_out_outcome, react, arm, launch, command_spawned, not_found, look_up, fallback_spawned,
  launched, idle, on_close, closed, finish_with, settle_with, request_termination, terminate,
  escalate, finish_closed, send,
}
use mihver.Prelude.{
  ◌≡◌, refl, String, true, false, none, some, List, [], ◌∷◌, ◌++◌, ◌==◌, if◌then◌else◌, nonempty,
  same_codes, lower_codes, words, is_space, any, has_text,
}

abbrev environment : Environment
environment = record {
  windows = false;
  spawn_command = spawn_not_found "spawn claude ENOENT";
  fallback = some "/usr/bin/claude";
  spawn_fallback = spawned;
  has_pid = λ child. true;
}

-- The time runs out, the child closes, and the escalation finishes.
abbrev events : List ProcessEvent
events = out_chunk "work" ∷ timeout_fires ∷ child_close second none ∷ escalation_fires ∷ []

abbrev timed_out_result : ProcessResult
timed_out_result = record {
  outcome = timed_out_outcome;
  exit_code = none;
  error = none;
  termination_uncertain = some false;
  timed_out = true;
  stop_detected = false;
  stdout = "work";
  stderr = "";
}

times_out : (run_process environment (begin environment) events).result ≡ some timed_out_result
unfolding react begin arm launch command_spawned not_found look_up fallback_spawned launched idle
    on_close closed finish_with settle_with request_termination terminate escalate finish_closed
    send
times_out = refl

completes :
    (run_process environment
      (begin environment)
      (out_chunk "done" ∷ child_close second (some 0) ∷ [])).result
    ≡ some (record {
      outcome = completed;
      exit_code = some 0;
      error = none;
      termination_uncertain = none;
      timed_out = false;
      stop_detected = false;
      stdout = "done";
      stderr = "";
    })
unfolding react begin arm launch command_spawned not_found look_up fallback_spawned launched idle
    on_close closed finish_with settle_with
completes = refl

run_process-settles_example :
    (r : ProcessResult) × ((run_process environment (begin environment) (
        (out_chunk "work" ∷ [])
        ++ timeout_fires ∷ ((stop_poll true ∷ []) ++ grace_fires ∷ []))).result
      ≡ some r)
run_process-settles_example =
    run_process-settles environment (out_chunk "work" ∷ []) (stop_poll true ∷ []) []

run_process-IsTruthful_example : IsTruthful timed_out_result
run_process-IsTruthful_example =
    run_process-IsTruthful environment events timed_out_result times_out

abbrev help_text : List String → String
help_text [] = ""
help_text (f ∷ fs) = String.◌++◌ f (String.◌++◌ " " (help_text fs))

abbrev site : Site
site = record {
  new_workspace = some "/tmp/w";
  real = λ path. some path;
  relative = λ a b. if a == b then "" else String.◌++◌ "../.." b;
  is_absolute = λ path. false;
  sep = "/";
  join = λ a b. String.◌++◌ a (String.◌++◌ "/" b);
  exists = λ path. path == "/stopped/.project/STOP";
  probe = λ command.
      if command == "/usr/bin/claude" then answered (help_text required_flags) else probe_not_found;
  executable = λ command. some "/usr/bin/claude";
}

abbrev task : Descriptor
task = record {
  authorized = true;
  branch = some "work/t1";
  timeout = finite false 1 2;
  prompt = "do";
}

abbrev options : Options
options = record {
  repo_root = "/repo";
  program = "claude";
  program_arguments = [];
  permission_mode = some (some "acceptedits");
  tools = tool_text "read, EDIT";
}

abbrev started_process : ProcessStart
started_process = record {
  command = "/usr/bin/claude";
  arguments =
      "--print" ∷ "--output-format" ∷ "json" ∷ "--permission-mode" ∷ "acceptEdits"
      ∷ "--no-session-persistence" ∷ "--tools" ∷ "Read,Edit" ∷ "--strict-mcp-config" ∷ "do" ∷ [];
  workspace = "/tmp/w";
  limit = finite false 1 2;
}

decides : decide_launch site task options ≡ starts started_process
unfolding decide_launch check_created check_workspace is_isolated contains_or_equals check_task
    allowed_branch nonempty check_timeout check_tools canonical_mode same_ignoring_case same_codes
    lower_codes canonical_tools normalize_tools words is_space approved_tool start_command discover
    discover_from discover_fallback supported has_flags any has_text arguments_of comma_separated
    is_positive_finite
decides = refl

stops : decide_launch site task (record options { repo_root = "/stopped" }) ≡ refused stop_active
unfolding decide_launch check_created check_workspace is_isolated contains_or_equals check_task
stops = refl

decide_launch-IsCleared_example : IsCleared site task options started_process
decide_launch-IsCleared_example = decide_launch-IsCleared site task options started_process decides
