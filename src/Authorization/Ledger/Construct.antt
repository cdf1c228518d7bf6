-- ===== src/Authorization/Ledger/Construct.antt =====
-- The constructor of `LedgerSimulation` (scripts/dev/authorization-ledger-simulator.mjs). Its
-- lists may be absent, which is []. The entries of the proofs are those of a Map or an object.
pub mod Kept
use mihver.Prelude.{
  ℕ, String, Bool, true, false, Option, none, some, List, [], ◌∷◌, ◌==◌, nonempty, if◌then◌else◌,
}
use mihver.Council.Types.{Shaped, exact, malformed, DecisionRecord}
use mihver.Council.Proof.{Registry}
use mihver.Council.Proof.Verify.{Submitted}
use mihver.Authorization.Records.{
  External, TaskRecord, Context, valid_decision_record, valid_task_record,
}
use mihver.Authorization.Ledger.{Simulation, record_by_id}

pub record Sources : Type 0 where
  pub decision_records : List (Shaped DecisionRecord)
  pub task_records : List (Shaped TaskRecord)
  pub council_quorum_proofs : List (String × Submitted)
  pub trusted_registry : Registry
  pub current_context : Context
  pub current_stop_epoch : ℕ
  pub policy_version : String
  pub privileged_approver_identity : String

-- `this.#decisionRecords.set(record.decisionRequestId, record)`
unfoldable pub set_record : DecisionRecord → List DecisionRecord → List DecisionRecord
set_record r [] = r ∷ []
set_record r (x ∷ xs) =
    if x.body.decision_request_id == r.body.decision_request_id then r ∷ xs else x ∷ set_record r xs

unfoldable pub set_proof :
    String → Submitted → List (String × Submitted) → List (String × Submitted)
set_proof identity p [] = (identity, p) ∷ []
set_proof identity p ((i, q) ∷ rest) =
    if i == identity then (identity, p) ∷ rest else (i, q) ∷ set_proof identity p rest

unfoldable pub load_proofs :
    List (String × Submitted) → List (String × Submitted) → Option (List (String × Submitted))
load_proofs loaded [] = some loaded
load_proofs loaded ((identity, p) ∷ rest) =
    let more = load_proofs (set_proof identity p loaded) rest in
    if nonempty identity then more else none

-- The state of the new object, if nothing was thrown.
unfoldable pub assemble :
    Sources
    → Option (List DecisionRecord)
    → Option (List (String × Submitted))
    → Option (List TaskRecord)
    → Option Simulation
assemble given (some decisions) (some proofs) (some tasks) = some (record {
  decision_records = decisions;
  council_quorum_proofs = proofs;
  task_records = tasks;
  grants = [];
  ledger = [];
  current_context = given.current_context;
  current_stop_epoch = given.current_stop_epoch;
  policy_version = given.policy_version;
  privileged_approver_identity = given.privileged_approver_identity;
  trusted_registry = given.trusted_registry;
})
assemble given none proofs tasks = none
assemble given (some decisions) none tasks = none
assemble given (some decisions) (some proofs) none = none

module _ (ext : External) where
  -- A record of an identity that is there already must have the same hash.
  unfoldable pub load_records :
      List DecisionRecord → List (Shaped DecisionRecord) → Option (List DecisionRecord)
  load_records loaded [] = some loaded
  load_records loaded (malformed ∷ rest) = none
  load_records loaded (exact r ∷ rest) =
      let more = load_records (set_record r loaded) rest in
      if valid_decision_record ext r
      then elim (record_by_id loaded r.body.decision_request_id) [
        | none ↦ more
        | some existing ↦ if existing.record_hash == r.record_hash then more else none
      ]
      else none

  unfoldable pub load_tasks : List (Shaped TaskRecord) → Option (List TaskRecord)
  load_tasks [] = some []
  load_tasks (malformed ∷ rest) = none
  load_tasks (exact t ∷ rest) =
      let more = load_tasks rest in
      if valid_task_record ext t then elim more [ none ↦ none | some ts ↦ some (t ∷ ts) ] else none

  -- The constructor; `none` if it throws.
  unfoldable pub new_simulation : Sources → Option Simulation
  new_simulation given =
      if nonempty given.privileged_approver_identity
      then assemble given (load_records [] given.decision_records)
          (load_proofs [] given.council_quorum_proofs) (load_tasks given.task_records)
      else none
