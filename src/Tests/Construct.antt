-- ===== src/Tests/Construct.antt =====
-- Witness of the theorem on the constructor of the ledger.
use mihver.Council.Hashes.{compute_decision_record_hash}
use mihver.Prelude.{◌≡◌, refl, some, [], ◌∷◌, nonempty, is_hash64, set_size, any, find}
use mihver.Council.Types.{exact}
use mihver.Council.Proof.Verify.{shaped}
use mihver.Authorization.Records.{
  supported_policy, terminal_pair, council_consistent, valid_task_record, compute_task_record_hash,
}
use mihver.Authorization.Ledger.{Simulation, record_by_id}
use mihver.Authorization.Ledger.Construct.{
  Sources, new_simulation, assemble, load_records, set_record, load_proofs, load_tasks, set_proof,
}
use mihver.Authorization.Ledger.Construct.Kept.{Keeps, new_simulation-Keeps}
use mihver.Tests.Proofs.{decision, proof, registry}
use mihver.Tests.Binding.{ext, task, context}

-- The same decision record twice.
abbrev given : Sources
given = record {
  decision_records = exact decision ∷ exact decision ∷ [];
  task_records = exact task ∷ [];
  council_quorum_proofs = ("identity", shaped proof) ∷ [];
  trusted_registry = registry;
  current_context = context;
  current_stop_epoch = 7;
  policy_version = supported_policy;
  privileged_approver_identity = "human";
}

abbrev constructed : Simulation
constructed = record {
  decision_records = decision ∷ [];
  council_quorum_proofs = ("identity", shaped proof) ∷ [];
  task_records = task ∷ [];
  grants = [];
  ledger = [];
  current_context = context;
  current_stop_epoch = 7;
  policy_version = supported_policy;
  privileged_approver_identity = "human";
  trusted_registry = registry;
}

constructs : new_simulation ext given ≡ some constructed
unfolding new_simulation nonempty assemble load_records
    mihver.Authorization.Records.valid_decision_record terminal_pair council_consistent is_hash64
    set_size any compute_decision_record_hash record_by_id find set_record load_proofs load_tasks
    valid_task_record compute_task_record_hash set_proof
constructs = refl

new_simulation-Keeps_example : Keeps ext given constructed
new_simulation-Keeps_example = new_simulation-Keeps ext given constructed constructs
