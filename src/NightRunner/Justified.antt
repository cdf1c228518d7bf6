-- ===== src/NightRunner/Justified.antt =====
-- What a task that is planned to READY_FOR_HUMAN has behind it.
use mathlib.Core.Option.{some-injective}
use mihver.Prelude.{
  some, none, inl, inr, ℕ, zero, suc, ◌≡◌, refl, String, Bool, true, false, not, ◌&&◌, ◌||◌, Option,
  List, [], ◌∷◌, arith, all, leb, subst, Option-cases, ◌++◌, Bool-cases,
}
use mihver.NightRunner.{QueueDocument, Invalid, validate_queue_structure}
use mihver.NightRunner.Seconds.{add_seconds}
use mihver.NightRunner.Report.{
  done, Report, blocked, stopped, unauthorized, FinalState, Why, running, retry, ready, Limits,
  Task, TaskResult, Step, is_ready, not_run, build_summary, limits_of, tasks_of,
}
use mihver.NightRunner.Plan.{
  plan_valid, plan_structured, plan_queue, refused_report, initial, attempt_cost, throws, clear,
  blocks, then_look, consider, dependency_lookup, plan_task, plan_from, Lookup, Progress,
  result_by_id, task_by_id, unready_dependency, gated_dependency, out_of_runtime, succeeds,
  out_of_retries, attempts, attempted_result, run_attempts, run_task,
}

abbrev pub ready_result : Option TaskResult → Bool
ready_result none = false
ready_result (some r) = is_ready r.final_state

abbrev pub ungated_task : Option Task → Bool
ungated_task none = false
ungated_task (some t) = not t.human_gated

-- A dependency that is ready for a human among the earlier results, and needs none.
abbrev pub settled_dependency : List Task → List TaskResult → String → Bool
settled_dependency ts rs d = ready_result (result_by_id rs d) && ungated_task (task_by_id ts d)

-- A result is READY_FOR_HUMAN only if its task is authorized, fits the timeout, and has only
-- settled dependencies.
abbrev pub is_backed : Limits → List Task → List TaskResult → Task → TaskResult → Bool
is_backed l ts rs t r =
    not (is_ready r.final_state)
    || (t.authorized
        && leb t.estimated_runtime_seconds l.per_task_timeout_seconds
        && all (settled_dependency ts rs) t.depends_on)

unready_dependency-clear :
    (rs : List TaskResult) (ts : List Task) (deps : List String)
    → unready_dependency rs deps ≡ clear
    → gated_dependency ts deps ≡ clear
    → all (settled_dependency ts rs) deps ≡ true
unfolding unready_dependency gated_dependency all
unready_dependency-clear rs ts [] h k = refl
unready_dependency-clear rs ts (d ∷ deps) h k = ground (arith, unready_dependency-clear rs ts deps)

attempts-fits :
    (l : Limits) (t : Task) (left used runtime : ℕ) (history : List Step)
    → (not (is_ready (attempts l t left used runtime history).final_state)
        || leb t.estimated_runtime_seconds l.per_task_timeout_seconds)
      ≡ true
unfolding attempts out_of_runtime succeeds out_of_retries
attempts-fits l t zero used runtime history = ground arith
attempts-fits l t (suc left) used runtime history = ground (
  arith,
  attempts-fits l t left (suc used) (add_seconds runtime (attempt_cost l t))
      (history ++ running ∷ retry ∷ []),
)

run_task-fits :
    (l : Limits) (p : Progress) (t : Task)
    → (not (is_ready (run_task l p t).1.final_state)
        || leb t.estimated_runtime_seconds l.per_task_timeout_seconds)
      ≡ true
unfolding run_task run_attempts attempted_result not_run
run_task-fits l p t =
    ground (arith, attempts-fits l t l.max_retries 0 p.runtime_used_seconds (ready ∷ []))

run_task-same :
    (l : Limits) (p : Progress) (t : Task)
    → ((run_task l p t).0.results ≡ p.results) × ((run_task l p t).1.task_id ≡ t.task_id)
unfolding run_task attempted_result not_run
run_task-same l p t = ground arith

-- What one task's planning gives.
pub record Planned (l : Limits) (ts : List Task) (p : Progress) (t : Task) (q : Progress)
    (r : TaskResult) : Type 0 where
  pub results : q.results ≡ p.results
  pub same_id : r.task_id ≡ t.task_id
  pub backed : is_backed l ts p.results t r ≡ true

then_look-clear : (a b : Lookup) → then_look a b ≡ clear → (a ≡ clear) × (b ≡ clear)
unfolding then_look
then_look-clear a b h = ground arith

ran :
    (l : Limits) (ts : List Task) (p : Progress) (t : Task)
    → dependency_lookup ts p t ≡ clear
    → t.authorized ≡ true
    → Planned l ts p t (run_task l p t).0 (run_task l p t).1
unfolding dependency_lookup
ran l ts p t h a = record {
  results = (run_task-same l p t).0;
  same_id = (run_task-same l p t).1;
  backed = ground (
    arith,
    run_task-fits l p t,
    unready_dependency-clear p.results ts t.depends_on,
    then_look-clear (unready_dependency p.results t.depends_on) (gated_dependency ts t.depends_on),
  );
}

unready :
    (l : Limits) (ts : List Task) (p : Progress) (t : Task) (state : FinalState) (why : Why)
    → is_ready state ≡ false
    → Planned l ts p t p (not_run t state why)
unfolding not_run
unready l ts p t state why h = record { results = refl; same_id = refl; backed = ground arith }

considered :
    (l : Limits) (ts : List Task) (p q : Progress) (t : Task) (r : TaskResult) (look : Lookup)
    → dependency_lookup ts p t ≡ look
    → consider l p t look ≡ some (q, r)
    → Planned l ts p t q r
unfolding consider
considered l ts p q t r throws e h = absurd (ground arith)
considered l ts p q t r (blocks why) e h =
    subst (λ (x : Progress × TaskResult). Planned l ts p t x.0 x.1) (some-injective _ _ h)
      (unready l ts p t blocked why refl)
considered l ts p q t r clear e h = elim (Bool-cases t.authorized) [
  | inl a ↦
      subst (λ (x : Progress × TaskResult). Planned l ts p t x.0 x.1)
        (some-injective (run_task l p t) (q, r) (ground arith)) (ran l ts p t e a)
  | inr a ↦
      subst (λ (x : Progress × TaskResult). Planned l ts p t x.0 x.1)
        (some-injective (p, not_run t blocked unauthorized) (q, r) (ground arith))
        (unready l ts p t blocked unauthorized refl)
]

pub plan_task-Planned :
    (l : Limits) (ts : List Task) (p q : Progress) (t : Task) (r : TaskResult)
    → plan_task l ts p t ≡ some (q, r)
    → Planned l ts p t q r
unfolding plan_task
plan_task-Planned l ts p q t r h = elim (Option-cases p.limit_tripped) [
  | inl e ↦ considered l ts p q t r (dependency_lookup ts p t) refl (ground arith)
  | inr (why, e) ↦
      subst (λ (x : Progress × TaskResult). Planned l ts p t x.0 x.1)
        (some-injective (p, not_run t stopped why) (q, r) (ground arith))
        (unready l ts p t stopped why refl)
]

-- The results answer the tasks one by one, each backed by the results before it.
abbrev pub Backs : Limits → List Task → List TaskResult → List Task → List TaskResult → Type 0
Backs l ts earlier [] [] = Unit
Backs l ts earlier [] (r ∷ rs) = ⊥
Backs l ts earlier (t ∷ rest) [] = ⊥
Backs l ts earlier (t ∷ rest) (r ∷ rs) =
    (r.task_id ≡ t.task_id)
    × (is_backed l ts earlier t r ≡ true)
    × Backs l ts (earlier ++ r ∷ []) rest rs

plan_from-Backs :
    (l : Limits) (ts : List Task) (p : Progress) (rest : List Task) (rs : List TaskResult)
    → plan_from l ts p rest ≡ some rs
    → Backs l ts p.results rest rs
unfolding plan_from
plan_from-Backs l ts p [] rs h = subst (Backs l ts p.results []) (some-injective [] rs h) tt
plan_from-Backs l ts p (t ∷ rest) rs h = elim (Option-cases (plan_task l ts p t)) [
  | inl e ↦ absurd (ground arith)
  | inr ((q, r), e) ↦
      let next : Progress = record q { results = q.results ++ r ∷ [] } in
      let ok : Planned l ts p t q r = plan_task-Planned l ts p q t r e in
      elim (Option-cases (plan_from l ts next rest)) [
        | inl f ↦ absurd (ground arith)
        | inr (more, f) ↦
            subst (Backs l ts p.results (t ∷ rest)) (some-injective (r ∷ more) rs (ground arith)) (
              ok.same_id,
              ok.backed,
              subst (λ x. Backs l ts (x ++ r ∷ []) rest more) ok.results
                  (plan_from-Backs l ts next rest more f),
            )
      ]
]

plan_valid-Backs :
    (l : Limits) (ts : List Task) (rep : Report)
    → plan_valid l ts false ≡ some rep
    → Backs l ts [] ts rep.tasks
unfolding plan_valid
plan_valid-Backs l ts rep h = elim (Option-cases (plan_from l ts initial ts)) [
  | inl e ↦ absurd (ground arith)
  | inr (rs, e) ↦
      subst (λ (x : Report). Backs l ts [] ts x.tasks)
        (some-injective (record { status = done; tasks = rs; summary = build_summary rs }) rep
          (ground arith))
        (unfold initial in plan_from-Backs l ts initial ts rs e)
]

plan_structured-Backs :
    (d : QueueDocument) (reasons : List Invalid) (rep : Report)
    → plan_structured d false reasons ≡ some rep
    → rep.status ≡ done
    → Backs (limits_of d.limits) (tasks_of d.tasks) [] (tasks_of d.tasks) rep.tasks
unfolding plan_structured refused_report
plan_structured-Backs d [] rep h s = plan_valid-Backs (limits_of d.limits) (tasks_of d.tasks) rep h
plan_structured-Backs d (reason ∷ reasons) rep h s = absurd (ground arith)

-- An OK plan answers the queue's tasks one by one and in order; and a task is planned to
-- READY_FOR_HUMAN only if it is authorized, its estimate fits the timeout of an attempt, and every
-- dependency of it is READY_FOR_HUMAN among the earlier results and not human-gated.
pub plan_queue-Backs :
    (d : QueueDocument) (rep : Report)
    → plan_queue d false ≡ some rep
    → rep.status ≡ done
    → Backs (limits_of d.limits) (tasks_of d.tasks) [] (tasks_of d.tasks) rep.tasks
unfolding plan_queue
plan_queue-Backs d rep h s =
    plan_structured-Backs d (validate_queue_structure d) rep (ground arith) s
