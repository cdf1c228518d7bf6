-- ===== src/NightRunner/Charged.antt =====
-- What the steps of one task charge against the limits.
use mathlib.Core.Option.{some-injective}
use mihver.Prelude.{
  subst, some, Option-cases, true, false, Bool-cases, ℕ, zero, suc, ◌+◌, ◌≤◌, ◌≡◌, refl, Bool, List,
  [], ◌∷◌, ◌++◌, arith, leb, ltb, inl, inr, if◌then◌else◌, ◌<◌,
}
use mihver.NightRunner.Seconds.{add_seconds, exact_below, add_seconds-exact}
use mihver.NightRunner.Report.{
  not_run, FinalState, Why, ready, blocked, unauthorized, max_tasks_reached, TaskResult, ended_as,
  stopped, failed, validating, independent_review, ready_for_human, Limits, Task, Step, running,
  retry,
}
use mihver.NightRunner.Plan.{
  Progress, run_task, run_attempts, attempted_result, throws, clear, blocks, Lookup, consider,
  plan_task, dependency_lookup, Attempted, out_of_runtime, succeeds, out_of_retries, attempts,
  attempt_cost,
}

abbrev is_running : Step → Bool
is_running running = true
is_running _ = false

-- The attempts in a history.
unfoldable pub attempts_in : List Step → ℕ
attempts_in [] = 0
attempts_in (s ∷ ss) = (if is_running s then 1 else 0) + attempts_in ss

-- A sum of seconds with `cost` added for each attempt in a history, in the order of the attempts.
unfoldable pub charge : ℕ → ℕ → List Step → ℕ
charge cost sum [] = sum
charge cost sum (s ∷ ss) = charge cost (if is_running s then add_seconds sum cost else sum) ss

charge-append :
    (cost sum : ℕ) (xs ys : List Step)
    → charge cost sum (xs ++ ys) ≡ charge cost (charge cost sum xs) ys
unfolding charge
charge-append cost sum [] ys = refl
charge-append cost sum (x ∷ xs) ys =
    charge-append cost (if is_running x then add_seconds sum cost else sum) xs ys

-- The seconds of the attempts in a history, `cost` for each.
abbrev pub spent : ℕ → List Step → ℕ
spent cost [] = 0
spent cost (s ∷ ss) = (if is_running s then cost else 0) + spent cost ss

-- A sum that ends below the 53rd power of two was rounded nowhere.
pub charge-exact :
    (cost sum : ℕ) (ss : List Step)
    → charge cost sum ss < exact_below
    → (charge cost sum ss ≡ sum + spent cost ss) × (sum < exact_below)
unfolding charge
charge-exact cost sum [] h = (omega arith, h)
charge-exact cost sum (s ∷ ss) h = elim (Bool-cases (is_running s)) [
  | inl e ↦
      let (equal, below) = charge-exact cost (add_seconds sum cost) ss (ground arith) in
      let (exact, small) = add_seconds-exact sum cost below in ground (arith, equal, exact, small)
  | inr e ↦ ground (arith, charge-exact cost sum ss)
]

-- The attempts of a task stay within the runtime, are charged one by one from `before`, and use no
-- more retries than are left.
record AttemptsOk (l : Limits) (t : Task) (left used before : ℕ) (a : Attempted) : Type 0 where
  pub in_runtime : a.runtime_used ≤ l.max_runtime_seconds
  pub charged : a.runtime_used ≡ charge (attempt_cost l t) before a.history
  pub in_retries : a.retries_used ≤ used + left

module _ (l : Limits) (t : Task) (left used before runtime : ℕ) (history : List Step)
    (charged : runtime ≡ charge (attempt_cost l t) before history) where
  out_of_runtime-Ok :
      runtime ≤ l.max_runtime_seconds
      → AttemptsOk l t left used before (out_of_runtime l used runtime history)
  unfolding out_of_runtime charge
  out_of_runtime-Ok h = record {
    in_runtime = h;
    charged =
        ground
          (arith, charge-append (attempt_cost l t) before history (ended_as stopped ∷ []), charged);
    in_retries = omega arith;
  }

  succeeds-Ok :
      add_seconds runtime (attempt_cost l t) ≤ l.max_runtime_seconds
      → AttemptsOk l t left used before
          (succeeds used (add_seconds runtime (attempt_cost l t)) history)
  unfolding succeeds charge
  succeeds-Ok h = record {
    in_runtime = h;
    charged = ground (
      arith,
      charge-append (attempt_cost l t) before history
          (running ∷ validating ∷ independent_review ∷ ended_as ready_for_human ∷ []),
      charged,
    );
    in_retries = omega arith;
  }

  out_of_retries-Ok :
      add_seconds runtime (attempt_cost l t) ≤ l.max_runtime_seconds
      → AttemptsOk l t left used before
          (out_of_retries l t used (add_seconds runtime (attempt_cost l t)) history)
  unfolding out_of_retries charge
  out_of_retries-Ok h = record {
    in_runtime = h;
    charged = ground (
      arith,
      charge-append (attempt_cost l t) before history (running ∷ ended_as failed ∷ []),
      charged,
    );
    in_retries = omega arith;
  }

  retried :
      add_seconds runtime (attempt_cost l t)
      ≡ charge (attempt_cost l t) before (history ++ running ∷ retry ∷ [])
  unfolding charge
  retried =
      ground
        (arith, charge-append (attempt_cost l t) before history (running ∷ retry ∷ []), charged)

attempts-Ok :
    (l : Limits) (t : Task) (left used before runtime : ℕ) (history : List Step)
    → runtime ≡ charge (attempt_cost l t) before history
    → runtime ≤ l.max_runtime_seconds
    → AttemptsOk l t left used before (attempts l t left used runtime history)
unfolding attempts
attempts-Ok l t zero used before runtime history e h =
    elim (Bool-cases (ltb l.max_runtime_seconds (add_seconds runtime (attempt_cost l t)))) [
      | inl c ↦ rw c (out_of_runtime-Ok l t 0 used before runtime history e h)
      | inr c ↦ elim (Bool-cases (leb t.estimated_runtime_seconds l.per_task_timeout_seconds)) [
        | inl f ↦ rw (c, f) (succeeds-Ok l t 0 used before runtime history e (ground arith))
        | inr f ↦ rw (c, f) (out_of_retries-Ok l t 0 used before runtime history e (ground arith))
      ]
    ]
attempts-Ok l t (suc left) used before runtime history e h =
    elim (Bool-cases (ltb l.max_runtime_seconds (add_seconds runtime (attempt_cost l t)))) [
      | inl c ↦ rw c (out_of_runtime-Ok l t (suc left) used before runtime history e h)
      | inr c ↦ elim (Bool-cases (leb t.estimated_runtime_seconds l.per_task_timeout_seconds)) [
        | inl f ↦
            rw (c, f) (succeeds-Ok l t (suc left) used before runtime history e (ground arith))
        | inr f ↦
            let again : AttemptsOk l t left (suc used) before (
                attempts l t left (suc used) (add_seconds runtime (attempt_cost l t))
                  (history ++ running ∷ retry ∷ [])) =
              attempts-Ok l t left (suc used) before (add_seconds runtime (attempt_cost l t))
                (history ++ running ∷ retry ∷ []) (retried l t left used before runtime history e)
                (ground arith) in
            rw (c, f)
              (record {
                in_runtime = again.in_runtime;
                charged = again.charged;
                in_retries = omega (arith, again.in_retries);
              })
      ]
    ]

abbrev pub started : TaskResult → ℕ
started r = if leb 1 (attempts_in r.history) then 1 else 0

-- What one task's planning does to the counters.
pub record CountersOk (l : Limits) (t : Task) (p q : Progress) (r : TaskResult) : Type 0 where
  pub runtime : q.runtime_used_seconds ≡ charge (attempt_cost l t) p.runtime_used_seconds r.history
  pub in_runtime : q.runtime_used_seconds ≤ l.max_runtime_seconds
  pub tasks : p.tasks_run + started r ≤ q.tasks_run
  pub in_tasks : q.tasks_run ≤ l.max_tasks
  pub in_retries : r.retries_used ≤ l.max_retries

module _ (l : Limits) (t : Task) (p : Progress)
    (in_runtime : p.runtime_used_seconds ≤ l.max_runtime_seconds)
    (in_tasks : p.tasks_run ≤ l.max_tasks) where
  unrun :
      (q : Progress) (state : FinalState) (why : Why)
      → q.runtime_used_seconds ≡ p.runtime_used_seconds
      → q.tasks_run ≡ p.tasks_run
      → CountersOk l t p q (not_run t state why)
  unfolding not_run charge attempts_in
  unrun q state why e f = ground (arith, in_runtime, in_tasks)

  started-le : (r : TaskResult) → started r ≤ 1
  started-le r = ground arith

  run_task-CountersOk : CountersOk l t p (run_task l p t).0 (run_task l p t).1
  unfolding run_task
  run_task-CountersOk = elim (Bool-cases (ltb l.max_tasks (p.tasks_run + 1))) [
    | inl e ↦ rw e (unrun _ stopped (max_tasks_reached l.max_tasks) refl refl)
    | inr e ↦
        let a : AttemptsOk l t l.max_retries 0 p.runtime_used_seconds (run_attempts l p t) =
          unfold run_attempts in
          attempts-Ok l t l.max_retries 0 p.runtime_used_seconds p.runtime_used_seconds (ready ∷ [])
            (unfold charge in refl) in_runtime in
        rw e (
          unfold attempted_result in
          record {
            runtime = a.charged;
            in_runtime = a.in_runtime;
            tasks = omega (arith, started-le (attempted_result t (run_attempts l p t)));
            in_tasks = ground arith;
            in_retries = omega (arith, a.in_retries);
          })
  ]

  considered-CountersOk :
      (look : Lookup) (q : Progress) (r : TaskResult)
      → consider l p t look ≡ some (q, r)
      → CountersOk l t p q r
  unfolding consider
  considered-CountersOk throws q r h = absurd (ground arith)
  considered-CountersOk (blocks why) q r h =
      subst (λ (x : Progress × TaskResult). CountersOk l t p x.0 x.1) (some-injective _ _ h)
        (unrun p blocked why refl refl)
  considered-CountersOk clear q r h = elim (Bool-cases t.authorized) [
    | inl a ↦
        subst (λ (x : Progress × TaskResult). CountersOk l t p x.0 x.1)
          (some-injective (run_task l p t) (q, r) (ground arith)) run_task-CountersOk
    | inr a ↦
        subst (λ (x : Progress × TaskResult). CountersOk l t p x.0 x.1)
          (some-injective (p, not_run t blocked unauthorized) (q, r) (ground arith))
          (unrun p blocked unauthorized refl refl)
  ]

  pub plan_task-CountersOk :
      (ts : List Task) (q : Progress) (r : TaskResult)
      → plan_task l ts p t ≡ some (q, r)
      → CountersOk l t p q r
  unfolding plan_task
  plan_task-CountersOk ts q r h = elim (Option-cases p.limit_tripped) [
    | inl e ↦ considered-CountersOk (dependency_lookup ts p t) q r (ground arith)
    | inr (why, e) ↦
        subst (λ (x : Progress × TaskResult). CountersOk l t p x.0 x.1)
          (some-injective (p, not_run t stopped why) (q, r) (ground arith))
          (unrun p stopped why refl refl)
  ]
