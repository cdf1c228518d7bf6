-- ===== src/Firewall/Hooks.antt =====
-- The hooks of tools/orchestrator-firewall/bin/mihver-firewall.mjs: their handlers and the
-- dispatcher.
-- The runtime directory is the record `Files`. The directory of a session and a prompt is named by
-- the pair; a write that the code makes succeeds. A handler that throws is `threw`.
use mihver.Prelude.{
  ℕ, String, Bool, false, ◌&&◌, ◌||◌, Option, none, some, ◌==◌, nonempty, if◌then◌else◌,
}
use mihver.Json.{Json}
use mihver.Firewall.Chain.{Entry, Store}
use mihver.Firewall.Receipts.{DelegationRecord, StartInput, Ledger}
use mihver.Firewall.Threads.{ThreadRecord}
use mihver.Firewall.StopGate.{StopReason, implementer_required, verifier_required, verifier_stale}
use mihver.Firewall.Delegation.{Meta, ToolInput}

-- The input of a hook whose session, prompt and tool use are named by texts. What `tool_response`
-- and `error` are hashed as is given, and `threadId` of the response, if it is a text.
pub record HookInput : Type 0 where
  pub cwd : Option String
  pub agent_id : Option String
  pub session_id : String
  pub prompt_id : String
  pub tool_use_id : String
  pub tool_name : String
  pub tool_input : ToolInput
  pub response_text : String
  pub error_text : String
  pub response_thread : Option String
  pub source : String
  pub file_path : String

pub data HookEvent : Type 0 where
  pre_tool_use post_tool_use post_tool_use_failure user_prompt_submit stop_hook config_change :
      HookEvent
  other_event : HookEvent

-- What is printed, or the exit code 2 of a change that is refused.
pub data Answer : Type 0 where
  deny : String → Answer
  deny_internal_error : Answer
  block_stop : StopReason → Answer
  config_denied : Answer

pub record Baseline : Type 0 where
  pub repository_head : String
  pub fingerprint : String

pub record PromptFiles : Type 0 where
  pub ledger : Ledger
  pub baseline : Option Baseline
  pub block_count : ℕ

pub record Files : Type 0 where
  pub prompts : String → String → PromptFiles
  pub threads : Store ThreadRecord

pub data Handled : Type 0 where
  returned : Files → Option Answer → Handled
  threw : Files → Handled

unfoldable pub put_prompt : String → String → PromptFiles → Files → Files
put_prompt session prompt pf files = record files {
  prompts = λ s p. if s == session && p == prompt then pf else files.prompts s p;
}

abbrev pub ledger_of : HookInput → Files → Ledger
ledger_of input files = (files.prompts input.session_id input.prompt_id).ledger

unfoldable pub put_ledger : HookInput → Ledger → Files → Files
put_ledger input ledger files =
    put_prompt input.session_id input.prompt_id
      (record (files.prompts input.session_id input.prompt_id) { ledger = ledger }) files

abbrev pub is_codex : String → Bool
is_codex tool = tool == "mcp__codex__codex" || tool == "mcp__codex__codex-reply"

-- A thread id of the input, if it is truthy.
abbrev truthy : Option String → Option String
truthy none = none
truthy (some t) = if nonempty t then some t else none

unfoldable pub start_input : HookInput → Meta → String → StartInput
start_input input meta scope_hash = record {
  session_id = input.session_id;
  prompt_id = input.prompt_id;
  tool_use_id = input.tool_use_id;
  tool_name = input.tool_name;
  task_id = meta.task_id;
  role = meta.role;
  scope_hash = scope_hash;
  base_sha = meta.base_sha;
  audit = input.tool_input.audit;
  thread_id = truthy input.tool_input.thread_id;
}

-- The end of an append to a ledger, or its exception.
unfoldable pub appended :
    HookInput → Files → Option Answer → Option (Ledger × Entry DelegationRecord) → Handled
appended input files answer none = threw files
appended input files answer (some (ledger, entry)) = returned (put_ledger input ledger files) answer

unfoldable pub same_base_sha : Json → Json → Bool
same_base_sha (Json.str a) (Json.str b) = a == b
same_base_sha _ _ = false

-- `parsed` has the authority of a bound thread.
unfoldable pub same_authority : ThreadRecord → Meta → String → Bool
same_authority bound meta scope_hash =
    bound.binding.role == meta.role
    && bound.binding.task_id == meta.task_id
    && bound.binding.scope_hash == scope_hash
    && same_base_sha bound.binding.base_sha meta.base_sha

unfoldable pub has_authority : Option ThreadRecord → Meta → String → Bool
has_authority none meta scope_hash = false
has_authority (some bound) meta scope_hash = same_authority bound meta scope_hash

unfoldable pub stop_reason_text : StopReason → String
stop_reason_text implementer_required = "IMPLEMENTER_REQUIRED"
stop_reason_text verifier_required = "VERIFIER_REQUIRED"
stop_reason_text verifier_stale = "VERIFIER_STALE"
