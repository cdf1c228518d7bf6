-- ===== src/NightRunner.antt =====
-- scripts/dev/night-runner.mjs: the queue document and its structural validation.
-- A field of the wrong type, or of a value that its test refuses for its sign, fraction or
-- infinity, is `none`; seconds are counted in a unit (Seconds) in which the doubles of the document
-- are whole numbers. A task that is no object has only `none`. Reasons are values instead of
-- messages; what a message does that cannot be written is `prints`. Dependencies are texts: of
-- another dependency nothing is said.
pub mod Report
pub mod Seconds
pub mod Plan
pub mod Known
pub mod Validated
pub mod Charged
pub mod Limited
pub mod Justified
use mihver.Prelude.{
  ℕ, suc, ◌+◌, String, Bool, true, false, Option, none, some, List, [], ◌∷◌, ◌++◌, ◌==◌, leb,
  nonempty, includes, if◌then◌else◌, any, not, ◌&&◌, ◌||◌,
}

pub record QueueLimits : Type 0 where
  pub max_runtime_seconds : Option ℕ
  pub max_tasks : Option ℕ
  pub per_task_timeout_seconds : Option ℕ
  pub max_retries : Option ℕ

-- `id_prints` says of a `task_id` that is no text whether a template literal turns it into one:
-- `{"toString": 1}` it cannot, and throws a TypeError.
pub record QueueTask : Type 0 where
  pub task_id : Option String
  pub id_prints : Bool
  pub branch : Option String
  pub authorized : Option Bool
  pub human_gated : Option Bool
  pub estimated_runtime_seconds : Option ℕ
  pub depends_on : Option (List String)

pub record QueueDocument : Type 0 where
  pub queue_id : Option String
  pub limits : Option QueueLimits
  pub tasks : Option (List QueueTask)

pub data Invalid : Type 0 where
  queue_id_empty limits_missing tasks_missing : Invalid
  max_runtime_invalid max_tasks_invalid timeout_invalid max_retries_invalid : Invalid
  task_id_invalid : ℕ → Invalid
  task_id_repeated : String → Invalid
  branch_invalid : ℕ → Option String → Invalid
  branch_main authorized_invalid human_gated_invalid : Option String → Invalid
  runtime_invalid depends_on_invalid : Option String → Invalid
  repeated_dependency unresolved_dependency late_dependency : Option String → String → Invalid

abbrev pub reason_unless : Bool → Invalid → List Invalid
reason_unless ok reason = if ok then [] else reason ∷ []

-- A text that is not empty.
abbrev pub is_named : Option String → Bool
is_named none = false
is_named (some s) = nonempty s

abbrev pub is_positive : Option ℕ → Bool
is_positive none = false
is_positive (some n) = leb 1 n

abbrev pub is_given {ℓ} : {A : Type ℓ} → Option A → Bool
is_given none = false
is_given (some a) = true

unfoldable pub limits_reasons : Option QueueLimits → List Invalid
limits_reasons none = limits_missing ∷ []
limits_reasons (some l) =
    reason_unless (is_positive l.max_runtime_seconds) max_runtime_invalid
    ++ (reason_unless (is_positive l.max_tasks) max_tasks_invalid
        ++ (reason_unless (is_positive l.per_task_timeout_seconds) timeout_invalid
            ++ reason_unless (is_given l.max_retries) max_retries_invalid))

abbrev pub has_id : Option String → String → Bool
has_id none id = false
has_id (some i) id = i == id

-- `tasks.findIndex(...)`, counted from `index`
unfoldable pub find_index : ℕ → List QueueTask → String → Option ℕ
find_index index [] id = none
find_index index (t ∷ ts) id =
    if has_id t.task_id id then some index else find_index (suc index) ts id

-- The reasons of one dependency that was not seen before.
unfoldable pub resolution_reasons : List QueueTask → ℕ → Option String → String → List Invalid
resolution_reasons tasks index task dep = elim (find_index 0 tasks dep) [
  | none ↦ unresolved_dependency task dep ∷ []
  | some at ↦ if leb index at then late_dependency task dep ∷ [] else []
]

unfoldable pub dependency_reasons :
    List QueueTask → ℕ → Option String → List String → List String → List Invalid
dependency_reasons tasks index task seen [] = []
dependency_reasons tasks index task seen (dep ∷ deps) =
    (if includes seen dep then repeated_dependency task dep ∷ [] else [])
    ++ (resolution_reasons tasks index task dep
        ++ dependency_reasons tasks index task (dep ∷ seen) deps)

unfoldable pub id_reasons : ℕ → List String → Option String → List Invalid
id_reasons index seen none = task_id_invalid index ∷ []
id_reasons index seen (some id) =
    if nonempty id
    then (if includes seen id then task_id_repeated id ∷ [] else [])
    else task_id_invalid index ∷ []

unfoldable pub branch_reasons : ℕ → Option String → Option String → List Invalid
branch_reasons index task none = branch_invalid index task ∷ []
branch_reasons index task (some branch) =
    if nonempty branch
    then (if branch == "main" then branch_main task ∷ [] else [])
    else branch_invalid index task ∷ []

unfoldable pub depends_on_reasons :
    List QueueTask → ℕ → Option String → Option (List String) → List Invalid
depends_on_reasons tasks index task none = depends_on_invalid task ∷ []
depends_on_reasons tasks index task (some deps) = dependency_reasons tasks index task [] deps

unfoldable pub task_reasons : List QueueTask → ℕ → List String → QueueTask → List Invalid
task_reasons tasks index seen t =
    id_reasons index seen t.task_id
    ++ (branch_reasons index t.task_id t.branch
        ++ (reason_unless (is_given t.authorized) (authorized_invalid t.task_id)
            ++ (reason_unless (is_given t.human_gated) (human_gated_invalid t.task_id)
                ++ (reason_unless (is_given t.estimated_runtime_seconds) (runtime_invalid t.task_id)
                    ++ depends_on_reasons tasks index t.task_id t.depends_on))))

-- `seenIds` behind a task
unfoldable pub seen_after : List String → Option String → List String
seen_after seen none = seen
seen_after seen (some id) = if nonempty id then id ∷ seen else seen

unfoldable pub tasks_reasons_from : List QueueTask → ℕ → List String → List QueueTask → List Invalid
tasks_reasons_from tasks index seen [] = []
tasks_reasons_from tasks index seen (t ∷ ts) =
    task_reasons tasks index seen t
    ++ tasks_reasons_from tasks (suc index) (seen_after seen t.task_id) ts

unfoldable pub tasks_reasons : Option (List QueueTask) → List Invalid
tasks_reasons none = tasks_missing ∷ []
tasks_reasons (some tasks) = tasks_reasons_from tasks 0 [] tasks

-- `validateQueueStructure`: the reasons; the document is valid if there are none.
unfoldable pub validate_queue_structure : QueueDocument → List Invalid
validate_queue_structure d =
    reason_unless (is_named d.queue_id) queue_id_empty
    ++ (limits_reasons d.limits ++ tasks_reasons d.tasks)

-- The messages with the `task_id` of a task.
unfoldable pub mentions_id : Invalid → Bool
mentions_id (branch_invalid index task) = true
mentions_id (branch_main task) = true
mentions_id (authorized_invalid task) = true
mentions_id (human_gated_invalid task) = true
mentions_id (runtime_invalid task) = true
mentions_id (depends_on_invalid task) = true
mentions_id (repeated_dependency task dep) = true
mentions_id (unresolved_dependency task dep) = true
mentions_id (late_dependency task dep) = true
mentions_id other = false

-- The messages of a task can be written.
unfoldable pub task_prints : List QueueTask → ℕ → List String → QueueTask → Bool
task_prints tasks index seen t =
    is_given t.task_id || t.id_prints || not (any mentions_id (task_reasons tasks index seen t))

unfoldable pub prints_from : List QueueTask → ℕ → List String → List QueueTask → Bool
prints_from tasks index seen [] = true
prints_from tasks index seen (t ∷ ts) =
    task_prints tasks index seen t && prints_from tasks (suc index) (seen_after seen t.task_id) ts

-- `validateQueueStructure` comes to its end: no message throws a TypeError.
unfoldable pub prints : Option (List QueueTask) → Bool
prints none = true
prints (some tasks) = prints_from tasks 0 [] tasks
