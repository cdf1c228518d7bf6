-- ===== src/Authorization/Lock.antt =====
-- `AsyncReaderWriterLock` of scripts/dev/authorization-ledger-simulator.mjs, and the tasks that
-- take it through `read` and `write`.
-- A call of `resolve` lets a waiting task go on; the tasks are told apart by numbers.
pub mod Exclusion
use mihver.Prelude.{
  ℕ, ◌+◌, ◌-◌, Bool, true, false, not, ◌&&◌, ◌||◌, List, [], ◌∷◌, ◌++◌, any, ltb, eqb,
  if◌then◌else◌,
}

pub data Access : Type 0 where
  read write : Access

-- An entry of `#queue`.
pub record Waiter : Type 0 where
  pub access : Access
  pub task : ℕ

pub record Lock : Type 0 where
  pub readers : ℕ
  pub writer : Bool
  pub queue : List Waiter

abbrev pub is_read : Access → Bool
is_read read = true
is_read write = false

-- `this.#queue[0]?.type === "write"`
unfoldable pub next_writes : List Waiter → Bool
next_writes [] = false
next_writes (w ∷ queue) = not (is_read w.access)

-- The lock and the waiters that were let go on.
pub record Drained : Type 0 where
  pub lock : Lock
  pub resolved : List Waiter

-- `while (this.#queue[0]?.type === "read" && !this.#writer)`, with no writer.
unfoldable pub admit_readers : ℕ → List Waiter → Drained
admit_readers readers [] = record {
  lock = record { readers = readers; writer = false; queue = [] };
  resolved = [];
}
admit_readers readers (w ∷ queue) =
    let rest = admit_readers (readers + 1) queue in
    if is_read w.access then record rest { resolved = w ∷ rest.resolved } else record {
      lock = record { readers = readers; writer = false; queue = w ∷ queue };
      resolved = [];
    }

unfoldable pub drain_free : ℕ → List Waiter → Drained
drain_free readers [] = admit_readers readers []
drain_free readers (w ∷ queue) =
    if not (is_read w.access)
    then record {
      lock = record { readers = readers; writer = true; queue = queue };
      resolved = w ∷ [];
    }
    else admit_readers readers (w ∷ queue)

-- `#drain`
unfoldable pub drain : Lock → Drained
drain l =
    if l.writer || ltb 0 l.readers && next_writes l.queue
    then record { lock = l; resolved = [] }
    else drain_free l.readers l.queue

-- `#acquire`
unfoldable pub acquire : Lock → Waiter → Drained
acquire l w = drain (record l { queue = l.queue ++ w ∷ [] })

-- `#release`
unfoldable pub release : Lock → Access → Drained
release l read = drain (record l { readers = l.readers - 1 })
release l write = drain (record l { writer = false })

-- The lock with the tasks that hold it, in the order in which they were let go on, and all that
-- ever were.
pub record System : Type 0 where
  pub lock : Lock
  pub holders : List Waiter
  pub admitted : List Waiter
  pub arrived : List Waiter

unfoldable pub fresh : System
fresh = record {
  lock = record { readers = 0; writer = false; queue = [] };
  holders = [];
  admitted = [];
  arrived = [];
}

abbrev pub same_access : Access → Access → Bool
same_access read read = true
same_access write write = true
same_access _ _ = false

unfoldable pub same_waiter : Waiter → Waiter → Bool
same_waiter a b = same_access a.access b.access && eqb a.task b.task

unfoldable pub remove : Waiter → List Waiter → List Waiter
remove w [] = []
remove w (x ∷ xs) = if same_waiter x w then xs else x ∷ remove w xs

-- A task calls `read` or `write`, or its function ends and the lock is released.
pub data Turn : Type 0 where
  arrives leaves : Waiter → Turn

-- Only a task that holds the lock releases it.
unfoldable pub turn : System → Turn → System
turn s (arrives w) =
    let d = acquire s.lock w in
    record {
      lock = d.lock;
      holders = s.holders ++ d.resolved;
      admitted = s.admitted ++ d.resolved;
      arrived = s.arrived ++ w ∷ [];
    }
turn s (leaves w) =
    let d = release s.lock w.access in
    if any (λ x. same_waiter x w) s.holders
    then record s {
      lock = d.lock;
      holders = remove w s.holders ++ d.resolved;
      admitted = s.admitted ++ d.resolved;
    }
    else s

unfoldable pub turns : System → List Turn → System
turns s [] = s
turns s (t ∷ ts) = turns (turn s t) ts
