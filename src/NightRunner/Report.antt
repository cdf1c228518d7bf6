-- ===== src/NightRunner/Report.antt =====
-- The plan of scripts/dev/night-runner.mjs: typed tasks and limits, results, and `buildSummary`.
use mihver.Prelude.{
  ℕ, ◌+◌, String, Bool, true, false, Option, none, some, List, [], ◌∷◌, map, length, if◌then◌else◌,
}
use mihver.NightRunner.{QueueLimits, QueueTask, Invalid}

pub record Limits : Type 0 where
  pub max_runtime_seconds : ℕ
  pub max_tasks : ℕ
  pub per_task_timeout_seconds : ℕ
  pub max_retries : ℕ

pub record Task : Type 0 where
  pub task_id : String
  pub branch : String
  pub authorized : Bool
  pub human_gated : Bool
  pub estimated_runtime_seconds : ℕ
  pub depends_on : List String

-- `TERMINAL_STATES`
pub data FinalState : Type 0 where
  ready_for_human blocked failed stopped : FinalState

pub data Step : Type 0 where
  ready running retry validating independent_review : Step
  ended_as : FinalState → Step

pub data Why : Type 0 where
  kill_switch unauthorized : Why
  dependency_not_ready : String → FinalState → Why
  dependency_gated : String → Why
  max_tasks_reached max_runtime_reached : ℕ → Why
  timed_out : ℕ → ℕ → ℕ → Why

pub record TaskResult : Type 0 where
  pub task_id : String
  pub branch : String
  pub final_state : FinalState
  pub history : List Step
  pub retries_used : ℕ
  pub reasons : List Why

pub record Summary : Type 0 where
  pub total_tasks : ℕ
  pub ready_for_human_count : ℕ
  pub blocked_count : ℕ
  pub failed_count : ℕ
  pub stopped_count : ℕ

pub data Status : Type 0 where
  refused : List Invalid → Status
  stopped_by_kill_switch done : Status

pub record Report : Type 0 where
  pub status : Status
  pub tasks : List TaskResult
  pub summary : Summary

unfoldable pub or_zero : Option ℕ → ℕ
or_zero none = 0
or_zero (some n) = n

unfoldable pub or_false : Option Bool → Bool
or_false none = false
or_false (some b) = b

unfoldable pub or_empty_text : Option String → String
or_empty_text none = ""
or_empty_text (some s) = s

unfoldable pub or_no_texts : Option (List String) → List String
or_no_texts none = []
or_no_texts (some l) = l

unfoldable pub or_no_tasks : Option (List QueueTask) → List QueueTask
or_no_tasks none = []
or_no_tasks (some l) = l

-- The fields of a validated task; the defaults are not met there.
unfoldable pub task_of : QueueTask → Task
unfolding or_zero or_false or_empty_text or_no_texts
task_of t = record {
  task_id = or_empty_text t.task_id;
  branch = or_empty_text t.branch;
  authorized = or_false t.authorized;
  human_gated = or_false t.human_gated;
  estimated_runtime_seconds = or_zero t.estimated_runtime_seconds;
  depends_on = or_no_texts t.depends_on;
}

unfoldable pub limits_of : Option QueueLimits → Limits
unfolding or_zero
limits_of none = record {
  max_runtime_seconds = 0;
  max_tasks = 0;
  per_task_timeout_seconds = 0;
  max_retries = 0;
}
limits_of (some l) = record {
  max_runtime_seconds = or_zero l.max_runtime_seconds;
  max_tasks = or_zero l.max_tasks;
  per_task_timeout_seconds = or_zero l.per_task_timeout_seconds;
  max_retries = or_zero l.max_retries;
}

unfoldable pub tasks_of : Option (List QueueTask) → List Task
unfolding or_no_tasks
tasks_of o = map task_of (or_no_tasks o)

abbrev pub is_ready : FinalState → Bool
is_ready ready_for_human = true
is_ready _ = false

abbrev is_blocked : FinalState → Bool
is_blocked blocked = true
is_blocked _ = false

abbrev is_failed : FinalState → Bool
is_failed failed = true
is_failed _ = false

abbrev is_stopped : FinalState → Bool
is_stopped stopped = true
is_stopped _ = false

unfoldable pub count : (FinalState → Bool) → List TaskResult → ℕ
count test [] = 0
count test (r ∷ rs) = (if test r.final_state then 1 else 0) + count test rs

-- `buildSummary`
unfoldable pub build_summary : List TaskResult → Summary
build_summary rs = record {
  total_tasks = length rs;
  ready_for_human_count = count is_ready rs;
  blocked_count = count is_blocked rs;
  failed_count = count is_failed rs;
  stopped_count = count is_stopped rs;
}

-- A task that is not run.
unfoldable pub not_run : Task → FinalState → Why → TaskResult
not_run t state why = record {
  task_id = t.task_id;
  branch = t.branch;
  final_state = state;
  history = ready ∷ ended_as state ∷ [];
  retries_used = 0;
  reasons = why ∷ [];
}
