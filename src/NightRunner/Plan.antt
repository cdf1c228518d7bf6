-- ===== src/NightRunner/Plan.antt =====
-- `planQueue` of scripts/dev/night-runner.mjs.
use mihver.Prelude.{
  ℕ, zero, suc, ◌+◌, String, Bool, true, false, not, Option, none, some, List, [], ◌∷◌, ◌++◌, map,
  ◌==◌, find, leb, ltb, if◌then◌else◌,
}
use mihver.NightRunner.{QueueDocument, Invalid, validate_queue_structure, prints}
use mihver.NightRunner.Seconds.{add_seconds}
use mihver.NightRunner.Report.{
  Limits, Task, FinalState, Step, Why, TaskResult, Report, limits_of, tasks_of, is_ready,
  build_summary, not_run, ready_for_human, blocked, failed, stopped, ready, running, retry,
  validating, independent_review, ended_as, kill_switch, unauthorized, dependency_not_ready,
  dependency_gated, max_tasks_reached, max_runtime_reached, timed_out, refused,
  stopped_by_kill_switch, done,
}

-- The variables of the loop over the tasks; `limit_tripped` is the reason, once there is one.
pub record Progress : Type 0 where
  pub results : List TaskResult
  pub tasks_run : ℕ
  pub runtime_used_seconds : ℕ
  pub limit_tripped : Option Why

unfoldable pub result_by_id : List TaskResult → String → Option TaskResult
result_by_id rs id = find (λ r. r.task_id == id) rs

unfoldable pub task_by_id : List Task → String → Option Task
task_by_id ts id = find (λ t. t.task_id == id) ts

-- What a lookup and a test give: a TypeError on `undefined`, or a reason to block, or none.
pub data Lookup : Type 0 where
  throws clear : Lookup
  blocks : Why → Lookup

-- The first loop over the dependencies.
unfoldable pub unready_dependency : List TaskResult → List String → Lookup
unready_dependency rs [] = clear
unready_dependency rs (dep ∷ deps) =
    let rest = unready_dependency rs deps in
    elim (result_by_id rs dep) [
      | none ↦ throws
      | some r ↦
          if is_ready r.final_state then rest else blocks (dependency_not_ready dep r.final_state)
    ]

-- The second loop over the dependencies.
unfoldable pub gated_dependency : List Task → List String → Lookup
gated_dependency ts [] = clear
gated_dependency ts (dep ∷ deps) =
    let rest = gated_dependency ts deps in
    elim (task_by_id ts dep) [
      | none ↦ throws
      | some t ↦ if t.human_gated then blocks (dependency_gated dep) else rest
    ]

unfoldable pub then_look : Lookup → Lookup → Lookup
then_look clear next = next
then_look other next = other

unfoldable pub min : ℕ → ℕ → ℕ
min a b = if ltb a b then a else b

-- How the attempts of a task end.
pub record Attempted : Type 0 where
  pub final_state : FinalState
  pub history : List Step
  pub retries_used : ℕ
  pub runtime_used : ℕ
  pub why : List Why
  pub tripped : Option Why

unfoldable pub out_of_runtime : Limits → ℕ → ℕ → List Step → Attempted
out_of_runtime l used runtime history = record {
  final_state = stopped;
  history = history ++ ended_as stopped ∷ [];
  retries_used = used;
  runtime_used = runtime;
  why = max_runtime_reached l.max_runtime_seconds ∷ [];
  tripped = some (max_runtime_reached l.max_runtime_seconds);
}

unfoldable pub succeeds : ℕ → ℕ → List Step → Attempted
succeeds used runtime history = record {
  final_state = ready_for_human;
  history = history ++ running ∷ validating ∷ independent_review ∷ ended_as ready_for_human ∷ [];
  retries_used = used;
  runtime_used = runtime;
  why = [];
  tripped = none;
}

unfoldable pub out_of_retries : Limits → Task → ℕ → ℕ → List Step → Attempted
out_of_retries l t used runtime history = record {
  final_state = failed;
  history = history ++ running ∷ ended_as failed ∷ [];
  retries_used = used;
  runtime_used = runtime;
  why = timed_out t.estimated_runtime_seconds l.per_task_timeout_seconds l.max_retries ∷ [];
  tripped = none;
}

-- `attemptRuntimeSeconds`
unfoldable pub attempt_cost : Limits → Task → ℕ
attempt_cost l t = min t.estimated_runtime_seconds l.per_task_timeout_seconds

-- The loop over the attempts: the retries that are left, those that were used, and the runtime and
-- history so far. Each round but the last uses up one retry.
unfoldable pub attempts : Limits → Task → ℕ → ℕ → ℕ → List Step → Attempted
attempts l t zero used runtime history =
    if ltb l.max_runtime_seconds (add_seconds runtime (attempt_cost l t))
    then out_of_runtime l used runtime history
    else if leb t.estimated_runtime_seconds l.per_task_timeout_seconds
    then succeeds used (add_seconds runtime (attempt_cost l t)) history
    else out_of_retries l t used (add_seconds runtime (attempt_cost l t)) history
attempts l t (suc left) used runtime history =
    let again =
      attempts l t left (suc used) (add_seconds runtime (attempt_cost l t))
        (history ++ running ∷ retry ∷ []) in
    if ltb l.max_runtime_seconds (add_seconds runtime (attempt_cost l t))
    then out_of_runtime l used runtime history
    else if leb t.estimated_runtime_seconds l.per_task_timeout_seconds
    then succeeds used (add_seconds runtime (attempt_cost l t)) history
    else again

unfoldable pub attempted_result : Task → Attempted → TaskResult
attempted_result t a = record {
  task_id = t.task_id;
  branch = t.branch;
  final_state = a.final_state;
  history = a.history;
  retries_used = a.retries_used;
  reasons = a.why;
}

unfoldable pub run_attempts : Limits → Progress → Task → Attempted
run_attempts l p t = attempts l t l.max_retries 0 p.runtime_used_seconds (ready ∷ [])

-- `tasksRun + 1 > limits.max_tasks`, and the attempts. Of the new variables, `results` is set by
-- the caller.
unfoldable pub run_task : Limits → Progress → Task → Progress × TaskResult
run_task l p t =
    let a = run_attempts l p t in
    let why = max_tasks_reached l.max_tasks in
    if ltb l.max_tasks (p.tasks_run + 1)
    then (record p { limit_tripped = some why }, not_run t stopped why)
    else (
      record p {
        tasks_run = p.tasks_run + 1;
        runtime_used_seconds = a.runtime_used;
        limit_tripped = a.tripped;
      },
      attempted_result t a,
    )

unfoldable pub consider : Limits → Progress → Task → Lookup → Option (Progress × TaskResult)
consider l p t throws = none
consider l p t (blocks why) = some (p, not_run t blocked why)
consider l p t clear =
    if not t.authorized then some (p, not_run t blocked unauthorized) else some (run_task l p t)

unfoldable pub dependency_lookup : List Task → Progress → Task → Lookup
dependency_lookup all p t =
    then_look (unready_dependency p.results t.depends_on) (gated_dependency all t.depends_on)

-- One task; `none` is a TypeError.
unfoldable pub plan_task : Limits → List Task → Progress → Task → Option (Progress × TaskResult)
plan_task l all p t = elim p.limit_tripped [
  | some why ↦ some (p, not_run t stopped why)
  | none ↦ consider l p t (dependency_lookup all p t)
]

-- `orderedResults`; the identities in `results` are different by then, so `Map.set` appends.
unfoldable pub plan_from : Limits → List Task → Progress → List Task → Option (List TaskResult)
plan_from l all p [] = some []
plan_from l all p (t ∷ ts) = elim (plan_task l all p t) [
  | none ↦ none
  | some (q, r) ↦ elim (plan_from l all (record q { results = q.results ++ r ∷ [] }) ts) [
    | none ↦ none
    | some rs ↦ some (r ∷ rs)
  ]
]

unfoldable pub initial : Progress
initial = record { results = []; tasks_run = 0; runtime_used_seconds = 0; limit_tripped = none }

-- The plan of a validated queue.
unfoldable pub plan_valid : Limits → List Task → Bool → Option Report
plan_valid l ts true =
    let rs = map (λ t. not_run t stopped kill_switch) ts in
    some (record { status = stopped_by_kill_switch; tasks = rs; summary = build_summary rs })
plan_valid l ts false = elim (plan_from l ts initial ts) [
  | none ↦ none
  | some rs ↦ some (record { status = done; tasks = rs; summary = build_summary rs })
]

unfoldable pub refused_report : List Invalid → Report
refused_report reasons = record { status = refused reasons; tasks = []; summary = build_summary [] }

unfoldable pub plan_structured : QueueDocument → Bool → List Invalid → Option Report
plan_structured d stop [] = plan_valid (limits_of d.limits) (tasks_of d.tasks) stop
plan_structured d stop (reason ∷ reasons) = some (refused_report (reason ∷ reasons))

-- `planQueue`; `none` is a TypeError.
unfoldable pub plan_queue : QueueDocument → Bool → Option Report
plan_queue d stop =
    if prints d.tasks then plan_structured d stop (validate_queue_structure d) else none
