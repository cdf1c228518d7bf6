-- ===== src/Firewall/Dispatch.antt =====
-- The handlers and the dispatcher of tools/orchestrator-firewall/bin/mihver-firewall.mjs.
pub mod Permitted
pub mod Stopping
pub mod Traced
use mihver.Prelude.{
  suc, String, Bool, true, false, not, ◌&&◌, Option, none, some, List, [], map, ◌==◌, any, nonempty,
  trim, if◌then◌else◌,
}
use Prim.Native.String
use mihver.Json.{str}
use mihver.Council.Hashes.{Sha}
use mihver.Firewall.Chain.{Entry, Store, verify_chain, append_record}
use mihver.Firewall.Receipts.{
  DelegationRecord, delegation_json, EndInput, Ledger, is_started, append_started,
  append_completion, append_invalid, stop_record,
}
use mihver.Firewall.Threads.{
  Binding, ThreadRecord, append_thread_binding, find_thread_binding, Sandbox, given, undefined,
}
use mihver.Firewall.StopGate.{StopDecision, allow, block, decide_stop}
use mihver.Firewall.Policy.{
  Caller, subagent, main_orchestrator, classify, main_tool_verdict, ToolVerdict,
}
use mihver.Firewall.Machine.{Machine, in_scope}
use mihver.Firewall.Protection.{Protection, protected_tool_verdict}
use mihver.Firewall.Delegation.{
  Meta, Delegation, delegated, metadata_refused, parse_delegation, params_refusal,
}
use mihver.Firewall.Settings.{OwnedEntry, config_change_denied}
use mihver.Firewall.Hooks.{
  HookInput, HookEvent, pre_tool_use, post_tool_use, post_tool_use_failure, user_prompt_submit,
  stop_hook, config_change, other_event, Answer, deny, deny_internal_error, block_stop,
  config_denied, Baseline, PromptFiles, Files, Handled, returned, threw, put_prompt, ledger_of,
  put_ledger, is_codex, start_input, appended, has_authority, stop_reason_text,
}

-- What an installation fixes.
pub record Installation : Type 0 where
  pub canonical_root : String
  pub home : String
  pub protection : Protection
  pub owned_entries : List OwnedEntry

abbrev no_meta : Meta
no_meta = record { task_id = ""; role = ""; scope = ""; base_sha = str "" }

abbrev pub thread_of_response : Option String → Option String
thread_of_response none = none
thread_of_response (some t) = if nonempty (trim t) then some t else none

abbrev pub text_or_empty : Option String → String
text_or_empty none = ""
text_or_empty (some t) = t

module _ (sha256 : Sha) (le : String → String → Bool) (install : Installation) (m : Machine)
    (input : HookInput) where
  -- `preTool`, once the authority of a reply is known
  unfoldable pub start_use : Files → Meta → String → Handled
  start_use files meta scope_hash =
      appended input files none
        (append_started sha256 (ledger_of input files) (start_input input meta scope_hash) m.now)

  unfoldable pub check_reply : Files → Meta → String → Option (Option ThreadRecord) → Handled
  check_reply files meta scope_hash none = threw files
  check_reply files meta scope_hash (some bound) =
      if has_authority bound meta scope_hash
      then start_use files meta scope_hash
      else returned files (
          some (
            deny
              "DELEGATION_THREAD_AUTHORITY_MISMATCH: reply authority does not match a known bound thread"))

  abbrev pub is_reply : Bool
  is_reply = input.tool_name == "mcp__codex__codex-reply"

  unfoldable pub check_params : Files → Meta → String → Option String → Handled
  check_params files meta scope_hash (some detail) =
      returned files (some (deny (String.◌++◌ "DELEGATION_PARAMS_INVALID: " detail)))
  check_params files meta scope_hash none =
      if is_reply
      then check_reply files meta scope_hash
          (find_thread_binding sha256 files.threads (text_or_empty input.tool_input.thread_id))
      else start_use files meta scope_hash

  unfoldable pub delegate : Files → Delegation → Handled
  delegate files (metadata_refused detail) =
      appended input files (some (deny (String.◌++◌ "DELEGATION_METADATA_INVALID: " detail)))
        (append_invalid sha256 (ledger_of input files) (start_input input no_meta "") detail m.now)
  delegate files (delegated meta scope_hash) =
      check_params files meta scope_hash
        (params_refusal m meta input.tool_input install.canonical_root is_reply)

  -- The verdict on the main thread.
  unfoldable pub main_verdict : Caller → Option ToolVerdict
  main_verdict subagent = none
  main_verdict main_orchestrator = main_tool_verdict input.tool_name

  unfoldable pub after_verdicts : Files → Option ToolVerdict → Option ToolVerdict → Handled
  after_verdicts files (some v) main = returned files (some (deny v.reason))
  after_verdicts files none (some v) = returned files (some (deny v.reason))
  after_verdicts files none none =
      if is_codex input.tool_name
      then delegate files (parse_delegation sha256 m input.tool_input.prompt)
      else returned files none

  -- `preTool`
  unfoldable pub pre_tool : Files → Handled
  pre_tool files =
      after_verdicts files
        (protected_tool_verdict m input.tool_name input.tool_input.file_path
          input.tool_input.command install.protection install.home)
        (main_verdict (classify input.agent_id))

  unfoldable pub sandbox_given : Option String → Sandbox
  sandbox_given none = undefined
  sandbox_given (some s) = given s

  unfoldable pub binding_of : DelegationRecord → Binding
  binding_of r = record {
    thread_id = thread_of_response input.response_thread;
    role = r.role;
    task_id = r.task_id;
    scope_hash = r.scope_hash;
    base_sha = r.base_sha;
    sandbox = sandbox_given input.tool_input.sandbox;
    session_id = r.session_id;
    prompt_id = r.prompt_id;
    started_at = r.started_at;
  }

  unfoldable pub bound_thread : Files → Option (Store ThreadRecord × Entry ThreadRecord) → Handled
  bound_thread files none = threw files
  bound_thread files (some (threads, entry)) = returned (record files { threads = threads }) none

  -- The end of `postTool`, behind the completion.
  unfoldable pub bind_thread : Files → Bool → DelegationRecord → Handled
  bind_thread files failed completed =
      if input.tool_name == "mcp__codex__codex" && not failed
      then bound_thread files (append_thread_binding sha256 files.threads (binding_of completed))
      else returned files none

  unfoldable pub complete_use : Files → Bool → Option (Ledger × Entry DelegationRecord) → Handled
  complete_use files failed none = threw files
  complete_use files failed (some (ledger, entry)) =
      bind_thread (put_ledger input ledger files) failed entry.fields

  unfoldable pub end_input : Bool → EndInput
  end_input failed = record {
    tool_use_id = input.tool_use_id;
    succeeded = not failed;
    hashed_text = if failed then input.error_text else input.response_text;
    workspace_fingerprint = if failed then none else some m.workspace_fingerprint;
  }

  unfoldable pub has_started : Ledger → Bool
  has_started ledger =
      verify_chain sha256 delegation_json ledger
      && any (λ e. is_started e.fields.status && e.fields.tool_use_id == input.tool_use_id)
          ledger.records

  -- `postTool`
  unfoldable pub post_tool : Files → Bool → Handled
  post_tool files failed =
      if is_codex input.tool_name && has_started (ledger_of input files)
      then complete_use files failed
          (append_completion sha256 (ledger_of input files) (end_input failed) m.now)
      else returned files none

  -- `userPrompt`
  unfoldable pub user_prompt : Files → Handled
  user_prompt files =
      returned
        (put_prompt input.session_id input.prompt_id
          (record (files.prompts input.session_id input.prompt_id) {
            baseline = some (record {
              repository_head = m.workspace_head;
              fingerprint = m.workspace_fingerprint;
            });
            block_count = 0;
          })
          files)
        none

  unfoldable pub baseline_text : Option Baseline → String
  baseline_text none = "MISSING_BASELINE"
  baseline_text (some b) = b.fingerprint

  abbrev pub receipts_of : Ledger → List DelegationRecord
  receipts_of ledger =
      if verify_chain sha256 delegation_json ledger
      then map (λ (e : Entry DelegationRecord). e.fields) ledger.records
      else []

  -- The decision of `stop`
  unfoldable pub stop_decision : PromptFiles → StopDecision
  stop_decision pf =
      decide_stop le (baseline_text pf.baseline) m.workspace_fingerprint (receipts_of pf.ledger)
        input.session_id input.prompt_id

  unfoldable pub count_block : Files → Files
  count_block files =
      let pf = files.prompts input.session_id input.prompt_id in
      put_prompt input.session_id input.prompt_id (record pf { block_count = suc pf.block_count })
        files

  unfoldable pub answer_stop : Files → StopDecision → Handled
  answer_stop files allow = returned files none
  answer_stop files (block reason) = appended input (count_block files) (some (block_stop reason)) (
      append_record sha256 delegation_json (ledger_of input files)
        (stop_record input.session_id input.prompt_id (stop_reason_text reason) m.now))

  -- `stop`
  unfoldable pub stop_on : Files → Caller → Handled
  stop_on files subagent = returned files none
  stop_on files main_orchestrator =
      answer_stop files (stop_decision (files.prompts input.session_id input.prompt_id))

  unfoldable pub handle : HookEvent → Files → Handled
  handle pre_tool_use files = pre_tool files
  handle post_tool_use files = post_tool files false
  handle post_tool_use_failure files = post_tool files true
  handle user_prompt_submit files = user_prompt files
  handle stop_hook files = stop_on files (classify input.agent_id)
  handle config_change files = returned files (
      if config_change_denied m install.owned_entries input.source input.file_path
      then some config_denied
      else none)
  handle other_event files = returned files none

  -- An exception is a denial before a tool, and otherwise nothing.
  unfoldable pub on_exception : HookEvent → Option Answer
  on_exception pre_tool_use = some deny_internal_error
  on_exception _ = none

  unfoldable pub settle : HookEvent → Handled → Option Answer × Files
  settle event (returned files answer) = (answer, files)
  settle event (threw files) = (on_exception event, files)

  -- One run of the hook.
  unfoldable pub run_hook : HookEvent → Files → Option Answer × Files
  run_hook event files =
      if in_scope m input.cwd install.canonical_root
      then settle event (handle event files)
      else (none, files)
