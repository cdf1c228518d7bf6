-- ===== src/Tests/Planning.antt =====
-- Witnesses of the theorems on the night runner: a gated task and one that depends on it.
use mihver.NightRunner.Seconds.{add_seconds, round_double, spacing, rounds_up}
use mihver.Prelude.{
  ◌≡◌, refl, true, false, none, some, List, [], ◌∷◌, nonempty, includes, find, ℕ, zero, suc, leb,
  any,
}
use mihver.NightRunner.{
  QueueTask, QueueDocument, validate_queue_structure, limits_reasons, tasks_reasons,
  tasks_reasons_from, task_reasons, id_reasons, branch_reasons, depends_on_reasons,
  dependency_reasons, seen_after, resolution_reasons, find_index, prints, prints_from, task_prints,
  mentions_id,
}
use mihver.NightRunner.Report.{
  Report, done, limits_of, tasks_of, build_summary, TaskResult, ready, running, validating,
  independent_review, ended_as, ready_for_human, blocked, dependency_gated, stopped, kill_switch,
  stopped_by_kill_switch, not_run, task_of,
}
use mihver.NightRunner.Plan.{
  plan_queue, plan_structured, plan_valid, plan_from, plan_task, initial, consider,
  dependency_lookup, then_look, unready_dependency, gated_dependency, run_task, run_attempts,
  attempts, attempt_cost, min, succeeds, result_by_id, attempted_result, task_by_id,
}
use mihver.NightRunner.Limited.{plan_queue-WithinLimits, PlanOk}
use mihver.NightRunner.Justified.{Backs, plan_queue-Backs}

abbrev first : QueueTask
first = record {
  task_id = some "a";
  id_prints = true;
  branch = some "work/a";
  authorized = some true;
  human_gated = some true;
  estimated_runtime_seconds = some 5;
  depends_on = some [];
}

abbrev second : QueueTask
second = record {
  task_id = some "b";
  id_prints = true;
  branch = some "work/b";
  authorized = some true;
  human_gated = some false;
  estimated_runtime_seconds = some 5;
  depends_on = some ("a" ∷ []);
}

abbrev document : QueueDocument
document = record {
  queue_id = some "q";
  limits = some (record {
    max_runtime_seconds = some 100;
    max_tasks = some 3;
    per_task_timeout_seconds = some 10;
    max_retries = some 1;
  });
  tasks = some (first ∷ second ∷ []);
}

abbrev planned : List TaskResult
planned =
    (record {
      task_id = "a";
      branch = "work/a";
      final_state = ready_for_human;
      history = ready ∷ running ∷ validating ∷ independent_review ∷ ended_as ready_for_human ∷ [];
      retries_used = 0;
      reasons = [];
    })
    ∷ (record {
      task_id = "b";
      branch = "work/b";
      final_state = blocked;
      history = ready ∷ ended_as blocked ∷ [];
      retries_used = 0;
      reasons = dependency_gated "a" ∷ [];
    })
    ∷ []

abbrev report : Report
report = record { status = done; tasks = planned; summary = build_summary planned }

plans : plan_queue document false ≡ some report
unfolding plan_queue plan_structured validate_queue_structure nonempty limits_reasons tasks_reasons
    tasks_reasons_from task_reasons id_reasons includes branch_reasons depends_on_reasons
    dependency_reasons seen_after resolution_reasons find_index plan_valid plan_from tasks_of
    plan_task initial consider dependency_lookup then_look unready_dependency task_of
    gated_dependency run_task limits_of run_attempts attempts attempt_cost min succeeds result_by_id
    find attempted_result task_by_id not_run prints prints_from task_prints add_seconds round_double
    rounds_up spacing
plans = refl

-- A task whose identity is no text, and not one that a message can name.
abbrev nameless : QueueTask
nameless = record first { task_id = none; id_prints = false; branch = none }

abbrev unprintable : QueueDocument
unprintable = record document { tasks = some (first ∷ nameless ∷ []) }

throws_on_nameless : prints unprintable.tasks ≡ false
unfolding prints prints_from task_prints any task_reasons id_reasons mentions_id branch_reasons
throws_on_nameless = refl

plan_queue-Backs_example :
    Backs (limits_of document.limits) (tasks_of document.tasks) [] (tasks_of document.tasks) planned
plan_queue-Backs_example = plan_queue-Backs document report plans refl

plan_queue-WithinLimits_example :
    PlanOk (limits_of document.limits) (tasks_of document.tasks) planned
plan_queue-WithinLimits_example = plan_queue-WithinLimits document report plans refl

abbrev halted : List TaskResult
halted =
    (record {
      task_id = "a";
      branch = "work/a";
      final_state = stopped;
      history = ready ∷ ended_as stopped ∷ [];
      retries_used = 0;
      reasons = kill_switch ∷ [];
    })
    ∷ (record {
      task_id = "b";
      branch = "work/b";
      final_state = stopped;
      history = ready ∷ ended_as stopped ∷ [];
      retries_used = 0;
      reasons = kill_switch ∷ [];
    })
    ∷ []

abbrev halted_report : Report
halted_report = record {
  status = stopped_by_kill_switch;
  tasks = halted;
  summary = build_summary halted;
}

halts : plan_queue document true ≡ some halted_report
unfolding plan_queue plan_structured validate_queue_structure nonempty limits_reasons tasks_reasons
    tasks_reasons_from task_reasons id_reasons includes branch_reasons depends_on_reasons
    dependency_reasons seen_after resolution_reasons find_index plan_valid tasks_of not_run task_of
    prints prints_from task_prints
halts = refl

-- Ten tasks of a tenth of a second come to less than one second. The unit is the 56th part in
-- powers of two.
abbrev tenth : ℕ
tenth = 7205759403792794

abbrev tenths : ℕ → ℕ → ℕ
tenths zero sum = sum
tenths (suc n) sum = tenths n (add_seconds sum tenth)

ten_tenths : tenths 10 0 ≡ 72057594037927928
unfolding add_seconds round_double spacing rounds_up
ten_tenths = refl

second_of_tenths : leb (tenths 10 0) 72057594037927936 ≡ true
unfolding add_seconds round_double spacing rounds_up
second_of_tenths = refl
