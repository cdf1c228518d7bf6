-- ===== src/NightRunner/Limited.antt =====
-- The bounds of a plan: tasks that run, runtime and retries.
use mihver.NightRunner.Seconds.{exact_below}
use mathlib.Core.Option.{some-injective}
use mihver.NightRunner.{QueueDocument, Invalid, validate_queue_structure}
use mihver.Prelude.{
  All, subst, some, Option-cases, true, false, ℕ, ◌+◌, ◌≤◌, ◌≡◌, refl, List, [], ◌∷◌, ◌++◌, arith,
  inl, inr, map, ◌<◌, ◌⊎◌, Bool-cases, leb,
}
use mihver.NightRunner.Report.{
  kill_switch, not_run, done, Report, TaskResult, build_summary, limits_of, tasks_of, stopped,
  Limits, Task,
}
use mihver.NightRunner.Plan.{
  plan_valid, plan_structured, plan_queue, refused_report, initial, Progress, plan_task, plan_from,
  attempt_cost,
}
use mihver.NightRunner.Charged.{
  attempts_in, charge, started, CountersOk, plan_task-CountersOk, spent, charge-exact,
}

-- The seconds that a plan sums up, from `sum`: its attempts in their order, each for the shorter of
-- estimate and timeout, and every sum rounded to a double.
abbrev pub total_charge : Limits → ℕ → List Task → List TaskResult → ℕ
total_charge l sum [] rs = sum
total_charge l sum (t ∷ ts) [] = sum
total_charge l sum (t ∷ ts) (r ∷ rs) =
    total_charge l (charge (attempt_cost l t) sum r.history) ts rs

-- The seconds that the attempts of a plan take.
abbrev pub total_spent : Limits → List Task → List TaskResult → ℕ
total_spent l [] rs = 0
total_spent l (t ∷ ts) [] = 0
total_spent l (t ∷ ts) (r ∷ rs) = spent (attempt_cost l t) r.history + total_spent l ts rs

total_charge-exact :
    (l : Limits) (sum : ℕ) (ts : List Task) (rs : List TaskResult)
    → total_charge l sum ts rs < exact_below
    → (total_charge l sum ts rs ≡ sum + total_spent l ts rs) × (sum < exact_below)
total_charge-exact l sum [] rs h = (omega arith, h)
total_charge-exact l sum (t ∷ ts) [] h = (omega arith, h)
total_charge-exact l sum (t ∷ ts) (r ∷ rs) h =
    let (equal, below) = total_charge-exact l (charge (attempt_cost l t) sum r.history) ts rs h in
    let (exact, small) = charge-exact (attempt_cost l t) sum r.history below in
    (omega (arith, equal, exact), small)

abbrev pub tasks_started : List TaskResult → ℕ
tasks_started [] = 0
tasks_started (r ∷ rs) = started r + tasks_started rs

abbrev pub Retries : Limits → TaskResult → Type 0
Retries l r = r.retries_used ≤ l.max_retries

pub record WithinLimits (l : Limits) (ts : List Task) (runtime tasks : ℕ) (rs : List TaskResult)
    : Type 0 where
  pub in_runtime : total_charge l runtime ts rs ≤ l.max_runtime_seconds
  pub in_tasks : tasks + tasks_started rs ≤ l.max_tasks
  pub in_retries : All (Retries l) rs

plan_from-WithinLimits :
    (l : Limits) (all : List Task) (p : Progress) (ts : List Task) (rs : List TaskResult)
    → p.runtime_used_seconds ≤ l.max_runtime_seconds
    → p.tasks_run ≤ l.max_tasks
    → plan_from l all p ts ≡ some rs
    → WithinLimits l ts p.runtime_used_seconds p.tasks_run rs
unfolding plan_from
plan_from-WithinLimits l all p [] rs a b h =
    subst (WithinLimits l [] p.runtime_used_seconds p.tasks_run) (some-injective [] rs h)
      (record { in_runtime = omega (arith, a); in_tasks = omega (arith, b); in_retries = tt })
plan_from-WithinLimits l all p (t ∷ ts) rs a b h = elim (Option-cases (plan_task l all p t)) [
  | inl e ↦ absurd (ground arith)
  | inr ((q, r), e) ↦
      let next : Progress = record q { results = q.results ++ r ∷ [] } in
      let ok : CountersOk l t p q r = plan_task-CountersOk l t p a b all q r e in
      elim (Option-cases (plan_from l all next ts)) [
        | inl f ↦ absurd (ground arith)
        | inr (more, f) ↦
            let rest : WithinLimits l ts q.runtime_used_seconds q.tasks_run more =
              plan_from-WithinLimits l all next ts more ok.in_runtime ok.in_tasks f in
            subst (WithinLimits l (t ∷ ts) p.runtime_used_seconds p.tasks_run)
              (some-injective (r ∷ more) rs (ground arith))
              (record {
                in_runtime =
                    subst (λ x. total_charge l x ts more ≤ l.max_runtime_seconds) ok.runtime
                      rest.in_runtime;
                in_tasks = omega (arith, rest.in_tasks, ok.tasks);
                in_retries = (ok.in_retries, rest.in_retries);
              })
      ]
]

plan_valid-WithinLimits :
    (l : Limits) (ts : List Task) (rep : Report)
    → plan_valid l ts false ≡ some rep
    → WithinLimits l ts 0 0 rep.tasks
unfolding plan_valid
plan_valid-WithinLimits l ts rep h = elim (Option-cases (plan_from l ts initial ts)) [
  | inl e ↦ absurd (ground arith)
  | inr (rs, e) ↦
      subst (λ (x : Report). WithinLimits l ts 0 0 x.tasks)
        (some-injective (record { status = done; tasks = rs; summary = build_summary rs }) rep
          (ground arith))
        (unfold initial in plan_from-WithinLimits l ts initial ts rs (omega arith) (omega arith) e)
]

plan_structured-WithinLimits :
    (d : QueueDocument) (reasons : List Invalid) (rep : Report)
    → plan_structured d false reasons ≡ some rep
    → rep.status ≡ done
    → WithinLimits (limits_of d.limits) (tasks_of d.tasks) 0 0 rep.tasks
unfolding plan_structured refused_report
plan_structured-WithinLimits d [] rep h s =
    plan_valid-WithinLimits (limits_of d.limits) (tasks_of d.tasks) rep h
plan_structured-WithinLimits d (reason ∷ reasons) rep h s = absurd (ground arith)

-- What holds of the results of a plan.
pub record PlanOk (l : Limits) (ts : List Task) (rs : List TaskResult) : Type 0 where
  pub within : WithinLimits l ts 0 0 rs
  pub exactly :
      (exact_below ≤ l.max_runtime_seconds) ⊎ (total_spent l ts rs ≤ l.max_runtime_seconds)

-- The runtime of an OK plan is within the limit: its attempts, each for the shorter of estimate and
-- timeout, summed up in their order with every sum rounded to a double, as the code does; and also
-- summed up exactly, if the limit is less than 2 to the power 53 in the unit in which the document's
-- seconds are whole. No more tasks are started than the limit, and none is retried more often than
-- the limit.
pub plan_queue-WithinLimits :
    (d : QueueDocument) (rep : Report)
    → plan_queue d false ≡ some rep
    → rep.status ≡ done
    → PlanOk (limits_of d.limits) (tasks_of d.tasks) rep.tasks
unfolding plan_queue
plan_queue-WithinLimits d rep h s =
    let ok : WithinLimits (limits_of d.limits) (tasks_of d.tasks) 0 0 rep.tasks =
      plan_structured-WithinLimits d (validate_queue_structure d) rep (ground arith) s in
    record {
      within = ok;
      exactly = elim (Bool-cases (leb exact_below (limits_of d.limits).max_runtime_seconds)) [
        | inl e ↦ inl (ground arith)
        | inr e ↦ inr (
            omega (
              arith,
              (total_charge-exact (limits_of d.limits) 0 (tasks_of d.tasks) rep.tasks
                  (ground (arith, ok.in_runtime))).0,
              ok.in_runtime,
            ))
      ];
    }

-- A result of a task that was not attempted.
abbrev pub NeverRan : TaskResult → Type 0
NeverRan r = (attempts_in r.history ≡ 0) × (r.final_state ≡ stopped) × (r.retries_used ≡ 0)

not_run-NeverRan : (ts : List Task) → All NeverRan (map (λ t. not_run t stopped kill_switch) ts)
unfolding not_run attempts_in
not_run-NeverRan [] = tt
not_run-NeverRan (t ∷ ts) = ((refl, refl, refl), not_run-NeverRan ts)

structured-NeverRan :
    (d : QueueDocument) (reasons : List Invalid) (rep : Report)
    → plan_structured d true reasons ≡ some rep
    → All NeverRan rep.tasks
unfolding plan_structured refused_report plan_valid
structured-NeverRan d [] rep h =
    subst (λ (x : Report). All NeverRan x.tasks) (some-injective _ rep h)
      (not_run-NeverRan (tasks_of d.tasks))
structured-NeverRan d (reason ∷ reasons) rep h =
    subst (λ (x : Report). All NeverRan x.tasks) (some-injective _ rep h) tt

-- With the kill switch engaged no task is attempted: every result is STOPPED, without a RUNNING in
-- its history and without a retry.
plan_queue-NeverRan :
    (d : QueueDocument) (rep : Report) → plan_queue d true ≡ some rep → All NeverRan rep.tasks
unfolding plan_queue
plan_queue-NeverRan d rep h = structured-NeverRan d (validate_queue_structure d) rep (ground arith)
