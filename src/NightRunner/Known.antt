-- ===== src/NightRunner/Known.antt =====
-- What the validated structure of a queue gives the lookups of dependencies.
use mihver.Prelude.{
  includes, if◌then◌else◌, eq_iff, none, some, Option, Option-cases, inl, inr, suc, true, false,
  map, subst, ℕ, ◌+◌, ◌≤◌, ◌<◌, ◌≡◌, ◌≢◌, refl, String, Bool, List, [], ◌∷◌, ◌++◌, arith, all, any,
  length, ltb, find, Bool-cases,
}
use mihver.NightRunner.{
  repeated_dependency, depends_on_reasons, QueueTask, Invalid, has_id, find_index,
  resolution_reasons, dependency_reasons,
}
use mihver.NightRunner.Report.{or_no_texts, TaskResult, task_of, or_empty_text}
use mihver.NightRunner.Plan.{
  Lookup, throws, unready_dependency, gated_dependency, then_look, result_by_id, task_by_id,
}

pub append-empty : (a b : List Invalid) → a ++ b ≡ [] → (a ≡ []) × (b ≡ [])
append-empty [] b h = (refl, h)
append-empty (x ∷ a) b h = absurd (ground arith)

-- The dependency is a task of an earlier index.
abbrev pub found_at : List QueueTask → ℕ → String → Bool
found_at tasks index dep = elim (find_index 0 tasks dep) [ none ↦ false | some at ↦ ltb at index ]

resolution-found :
    (tasks : List QueueTask) (index : ℕ) (task : Option String) (dep : String)
    → resolution_reasons tasks index task dep ≡ []
    → found_at tasks index dep ≡ true
unfolding resolution_reasons
resolution-found tasks index task dep h = ground arith

dependencies-found :
    (tasks : List QueueTask) (index : ℕ) (task : Option String) (seen deps : List String)
    → dependency_reasons tasks index task seen deps ≡ []
    → all (found_at tasks index) deps ≡ true
unfolding dependency_reasons all
dependencies-found tasks index task seen [] h = refl
dependencies-found tasks index task seen (dep ∷ deps) h =
    let (a, rest) =
      append-empty (if includes seen dep then repeated_dependency task dep ∷ [] else [])
        (resolution_reasons tasks index task dep
          ++ dependency_reasons tasks index task (dep ∷ seen) deps)
        h in
    let (b, c) =
      append-empty (resolution_reasons tasks index task dep)
        (dependency_reasons tasks index task (dep ∷ seen) deps) rest in
    ground (
      arith,
      resolution-found tasks index task dep b,
      dependencies-found tasks index task (dep ∷ seen) deps c,
    )

find_index-le :
    (k : ℕ) (ts : List QueueTask) (dep : String) (at : ℕ) → find_index k ts dep ≡ some at → k ≤ at
unfolding find_index
find_index-le k [] dep at h = absurd (ground arith)
find_index-le k (t ∷ ts) dep at h = ground (arith, find_index-le (suc k) ts dep at)

found_before :
    (k : ℕ) (pre rest : List QueueTask) (dep : String) (at : ℕ)
    → find_index k (pre ++ rest) dep ≡ some at
    → at < k + length pre
    → any (λ t. has_id t.task_id dep) pre ≡ true
unfolding find_index any
found_before k [] rest dep at h b = absurd (omega (arith, find_index-le k rest dep at h, b))
found_before k (t ∷ pre) rest dep at h b = elim (Bool-cases (has_id t.task_id dep)) [
  | inl e ↦ ground arith
  | inr e ↦ ground (arith, found_before (suc k) pre rest dep at)
]

unfoldable pub ids_of_results : List TaskResult → List String
ids_of_results rs = map (λ r. r.task_id) rs

unfoldable pub ids_of_tasks : List QueueTask → List String
ids_of_tasks ts = map (λ t. (task_of t).task_id) ts

task_of-id :
    (t : QueueTask) (dep : String) → has_id t.task_id dep ≡ true → (task_of t).task_id ≡ dep
unfolding task_of or_empty_text
task_of-id t dep h = elim (Option-cases t.task_id) [
  | inl e ↦ absurd (ground arith)
  | inr (id, e) ↦ ground (arith, eq_iff id dep)
]

result_known :
    (pre : List QueueTask) (rs : List TaskResult) (dep : String)
    → ids_of_results rs ≡ ids_of_tasks pre
    → any (λ t. has_id t.task_id dep) pre ≡ true
    → result_by_id rs dep ≢ none
unfolding ids_of_results ids_of_tasks any result_by_id find
result_known [] rs dep e h = absurd (ground arith)
result_known (t ∷ pre) [] dep e h = absurd (ground arith)
result_known (t ∷ pre) (r ∷ rs) dep e h =
    ground (arith, task_of-id t dep, eq_iff r.task_id dep, result_known pre rs dep)

task_known :
    (k : ℕ) (ts : List QueueTask) (dep : String) (at : ℕ)
    → find_index k ts dep ≡ some at
    → task_by_id (map task_of ts) dep ≢ none
unfolding find_index task_by_id find
task_known k [] dep at h = absurd (ground arith)
task_known k (t ∷ ts) dep at h =
    ground (arith, task_of-id t dep, eq_iff (task_of t).task_id dep, task_known (suc k) ts dep at)

pub unready_dependency-ne-throws :
    (tasks pre rest : List QueueTask) (rs : List TaskResult) (deps : List String)
    → tasks ≡ pre ++ rest
    → ids_of_results rs ≡ ids_of_tasks pre
    → all (found_at tasks (length pre)) deps ≡ true
    → unready_dependency rs deps ≢ throws
unfolding unready_dependency all
unready_dependency-ne-throws tasks pre rest rs [] e same h = λ p. cc
unready_dependency-ne-throws tasks pre rest rs (dep ∷ deps) e same h =
    let ih : unready_dependency rs deps ≢ throws =
      unready_dependency-ne-throws tasks pre rest rs deps e same (ground arith) in
    elim (Option-cases (find_index 0 tasks dep)) [
      | inl n ↦ absurd (ground arith)
      | inr (at, f) ↦
          let known : result_by_id rs dep ≢ none = result_known pre rs dep same (
            found_before 0 pre rest dep at (subst (λ x. find_index 0 x dep ≡ some at) e f)
              (ground arith)) in
          ground (arith, ih, known)
    ]

pub gated_dependency-ne-throws :
    (tasks : List QueueTask) (index : ℕ) (deps : List String)
    → all (found_at tasks index) deps ≡ true
    → gated_dependency (map task_of tasks) deps ≢ throws
unfolding gated_dependency all
gated_dependency-ne-throws tasks index [] h = λ p. cc
gated_dependency-ne-throws tasks index (dep ∷ deps) h =
    let ih : gated_dependency (map task_of tasks) deps ≢ throws =
      gated_dependency-ne-throws tasks index deps (ground arith) in
    elim (Option-cases (find_index 0 tasks dep)) [
      | inl n ↦ absurd (ground arith)
      | inr (at, f) ↦ ground (arith, ih, task_known 0 tasks dep at f)
    ]

pub depends_on-found :
    (tasks : List QueueTask) (index : ℕ) (t : QueueTask)
    → depends_on_reasons tasks index t.task_id t.depends_on ≡ []
    → all (found_at tasks index) (task_of t).depends_on ≡ true
unfolding depends_on_reasons task_of or_no_texts
depends_on-found tasks index t h = elim (Option-cases t.depends_on) [
  | inl e ↦ absurd (ground arith)
  | inr (deps, e) ↦ rw e (dependencies-found tasks index t.task_id [] deps (ground arith))
]

pub then_look-ne-throws : (a b : Lookup) → a ≢ throws → b ≢ throws → then_look a b ≢ throws
unfolding then_look
then_look-ne-throws a b h k = ground arith
