-- ===== src/Firewall/Dispatch/Stopping.antt =====
-- When the hook at the end of a turn holds it back.
use mihver.Firewall.Dispatch.{
  Installation, settle, on_exception, answer_stop, stop_on, stop_decision, handle, run_hook,
}
use mihver.Firewall.Hooks.{HookInput, Files, Answer, block_stop, stop_hook, ledger_of, appended}
use mihver.Firewall.Machine.{Machine, in_scope}
use mihver.Firewall.Policy.{classify, main_orchestrator}
use mihver.Firewall.StopGate.{StopDecision, allow, block}
use mihver.Firewall.Receipts.{delegation_json}
use mihver.Firewall.Chain.{verify_chain, append_record}
use mihver.Council.Hashes.{Sha}
use mihver.Prelude.{
  ◌≡◌, refl, String, Bool, true, Option, none, some, if◌then◌else◌, Bool-cases, inl, inr,
}

module _ (sha256 : Sha) (le : String → String → Bool) (install : Installation) (m : Machine)
    (input : HookInput) where
  -- What is printed at a decision, over a ledger that verifies or not.
  abbrev pub stop_answer : StopDecision → Bool → Option Answer
  stop_answer allow verifies = none
  stop_answer (block reason) verifies = if verifies then some (block_stop reason) else none

  answer_stop-settled :
      (files : Files) (decision : StopDecision)
      → (settle sha256 le install m input stop_hook
          (answer_stop sha256 le install m input files decision)).0
        ≡ stop_answer decision (verify_chain sha256 delegation_json (ledger_of input files))
  unfolding settle on_exception answer_stop appended append_record
  answer_stop-settled files allow = refl
  answer_stop-settled files (block reason) =
      elim (Bool-cases (verify_chain sha256 delegation_json (ledger_of input files))) [
        | inl e ↦ rw e refl
        | inr e ↦ rw e refl
      ]

  -- The end of a turn of the main thread is held back when the stop gate decides so, with its
  -- reason, but only if the ledger of the prompt verifies: over a ledger that does not verify,
  -- whose receipts all count as missing, nothing is printed.
  pub run_hook-stop_answer :
      (files : Files)
      → in_scope m input.cwd install.canonical_root ≡ true
      → classify input.agent_id ≡ main_orchestrator
      → (run_hook sha256 le install m input stop_hook files).0
        ≡ stop_answer
            (stop_decision sha256 le install m input
              (files.prompts input.session_id input.prompt_id))
            (verify_chain sha256 delegation_json (ledger_of input files))
  unfolding run_hook handle stop_on
  run_hook-stop_answer files scope main = rw (scope, main) (answer_stop-settled files _)
