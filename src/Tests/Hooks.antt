-- ===== src/Tests/Hooks.antt =====
-- Runs of the hooks of the orchestrator firewall: a scout is delegated, a turn ends, and a working
-- directory lies outside.
use mihver.Firewall.Settings.Kept.{Kept, config_change_denied-Kept}
use mihver.Firewall.Settings.{
  config_change_denied, change_denied, read_settings, parsed_settings, settings_affect_firewall,
  is_true, walk, names_firewall, OwnedEntry, hooks_have, holds_entry, items_have,
}
use mihver.Firewall.Dispatch.Stopping.{run_hook-stop_answer}
use mihver.Firewall.Dispatch.Permitted.{Permit, run_hook-Permit}
use mihver.Firewall.StopGate.{implementer_required, decide_stop, decide_implementer, latest}
use mihver.Firewall.Delegation.Header.{Header, parse_delegation-Header}
use mihver.Firewall.Delegation.Confined.{Confined, params_refusal-Confined}
use mihver.Firewall.Machine.Outside.{Outside, in_scope-Outside}
use mihver.Firewall.Chain.{append_record, verify_chain, chain_from, head_matches}
use mihver.Firewall.Receipts.{append_started}
use mihver.Firewall.Policy.{classify, main_tool_verdict, denied_code, main_orchestrator}
use Prim.Native.String
use mihver.Prelude.{
  ◌≡◌, refl, String, Bool, false, none, some, [], ◌∷◌, ◌==◌, if◌then◌else◌, starts_with, nonempty,
  trim, trim_end, trim_start, includes, strip_prefix, cut, codes, true, List, ap, keep, any, occurs,
  lower_codes, same_codes,
}
use mihver.Json.{Json, str, object, canonicalize_json, arr, cons, nil}
use mihver.Tests.Fixtures.{fixed_sha, zeros, head}
use mihver.Firewall.Machine.{Machine, found, in_scope, scope_of, cwd_in_scope, beneath}
use mihver.Firewall.Protection.{protected_paths, protected_tool_verdict}
use mihver.Firewall.Delegation.{
  ToolInput, no_config, undefined, parse_delegation, delegated, parse_header, first_line,
  decode_payload, first_of, decoded_as, check_canonical, meta_of, meta_of_fields, text_value,
  value_at, is_hex40_any_case, spelled, params_refusal, or_else, config_refusal, approval_refusal,
  place_refusal, delegation_cwd_in_scope, sandbox_refusal, Meta,
}
use mihver.Firewall.Hooks.{
  HookInput, pre_tool_use, appended, HookEvent, user_prompt_submit, post_tool_use, stop_hook, Files,
  block_stop,
}
use mihver.Firewall.Dispatch.{
  Installation, run_hook, settle, handle, pre_tool, after_verdicts, main_verdict, delegate,
  check_params, start_use, stop_decision, baseline_text,
}
use mihver.Firewall.Dispatch.Traced.{no_files, Hook, Accountable, run_hooks, run_hooks-Accountable}

abbrev payload : String
payload =
    "{\"baseSha\":\"bbbbbbbbbbbbbbbbbbbbbbbbbbbbbbbbbbbbbbbb\",\"protocolVersion\":\"1\",\"role\":\"SCOUT\",\"scope\":\"s\",\"taskId\":\"t\"}"

abbrev value : Json
value = object (
    ("baseSha", str "bbbbbbbbbbbbbbbbbbbbbbbbbbbbbbbbbbbbbbbb")
    ∷ ("protocolVersion", str "1")
    ∷ ("role", str "SCOUT")
    ∷ ("scope", str "s")
    ∷ ("taskId", str "t")
    ∷ [])

abbrev machine : Machine
machine = record {
  resolve = λ path. path;
  join = λ a b. String.◌++◌ a (String.◌++◌ "/" b);
  relative = λ root path. if starts_with path root then "" else "..";
  is_absolute = λ path. starts_with path "/";
  sep = "/";
  realpath = λ path. found path;
  read_file = λ path. none;
  parse_json = λ s. if s == payload then some value else none;
  base64url_decode = λ s. s;
  now = "1";
  workspace_head = head;
  workspace_fingerprint = zeros;
}

abbrev prompt : String
prompt = String.◌++◌ "MIHVER_DELEGATION_V1:" payload

abbrev scout_input : ToolInput
scout_input = record {
  prompt = some prompt;
  file_path = none;
  command = none;
  thread_id = none;
  cwd = some "/r/a";
  sandbox = some "read-only";
  config = no_config;
  approval_policy = undefined;
  audit = [];
}

abbrev hook_input : HookInput
hook_input = record {
  cwd = some "/r";
  agent_id = none;
  session_id = "s";
  prompt_id = "p";
  tool_use_id = "u";
  tool_name = "mcp__codex__codex";
  tool_input = scout_input;
  response_text = "{}";
  error_text = "";
  response_thread = some "x";
  source = "";
  file_path = "";
}

abbrev installation : Installation
installation = record {
  canonical_root = "/r";
  home = "/h";
  protection = protected_paths machine "/h" "/h/t" "/r" [];
  owned_entries = [];
}

abbrev never : String → String → Bool
never a b = false

delegates :
    (run_hook fixed_sha never installation machine hook_input pre_tool_use no_files).0 ≡ none
unfolding run_hook in_scope nonempty scope_of trim trim_end trim_start cwd_in_scope beneath settle
    handle pre_tool after_verdicts protected_tool_verdict includes main_verdict classify
    main_tool_verdict denied_code delegate parse_delegation parse_header strip_prefix first_line cut
    decode_payload first_of decoded_as check_canonical meta_of object meta_of_fields text_value
    value_at is_hex40_any_case codes spelled same_codes canonicalize_json check_params
    params_refusal or_else config_refusal approval_refusal place_refusal delegation_cwd_in_scope
    sandbox_refusal start_use appended append_started append_record verify_chain chain_from
    head_matches
delegates = refl

accepts_header :
    parse_delegation fixed_sha machine scout_input.prompt
    ≡ delegated
        (record {
          task_id = "t";
          role = "SCOUT";
          scope = "s";
          base_sha = str "bbbbbbbbbbbbbbbbbbbbbbbbbbbbbbbbbbbbbbbb";
        })
        (fixed_sha [])
unfolding parse_delegation parse_header strip_prefix first_line cut decode_payload first_of
    decoded_as check_canonical meta_of object meta_of_fields text_value value_at is_hex40_any_case
    codes spelled nonempty includes same_codes canonicalize_json
accepts_header = refl

abbrev scout : Meta
scout = record {
  task_id = "t";
  role = "SCOUT";
  scope = "s";
  base_sha = str "bbbbbbbbbbbbbbbbbbbbbbbbbbbbbbbbbbbbbbbb";
}

abbrev delegated_files : Files
delegated_files = (run_hook fixed_sha never installation machine hook_input pre_tool_use no_files).1

within_root : in_scope machine (some "/r") "/r" ≡ true
unfolding in_scope nonempty scope_of trim trim_end trim_start cwd_in_scope beneath
within_root = refl

outside_root : in_scope machine (some "/x") "/r" ≡ false
unfolding in_scope nonempty scope_of trim trim_end trim_start cwd_in_scope beneath
outside_root = refl

accepts_params : params_refusal machine scout scout_input "/r" false ≡ none
unfolding params_refusal or_else config_refusal approval_refusal place_refusal nonempty trim
    trim_end trim_start delegation_cwd_in_scope beneath sandbox_refusal
accepts_params = refl

is_main : classify none ≡ main_orchestrator
unfolding classify
is_main = refl

run_hook-Permit_example :
    Permit fixed_sha never installation machine hook_input no_files delegated_files
run_hook-Permit_example =
    run_hook-Permit fixed_sha never installation machine hook_input no_files delegated_files
      within_root (ap (λ a. (a, delegated_files)) delegates)

parse_delegation-Header_example : Header machine fixed_sha prompt scout zeros
parse_delegation-Header_example =
    parse_delegation-Header machine fixed_sha prompt scout zeros accepts_header

params_refusal-Confined_example : Confined machine scout scout_input "/r"
params_refusal-Confined_example =
    params_refusal-Confined machine scout scout_input "/r" accepts_params

in_scope-Outside_example : Outside machine (some "/x") "/r"
in_scope-Outside_example = in_scope-Outside machine (some "/x") "/r" outside_root

run_hook-stop_answer_example :
    (run_hook fixed_sha never installation machine hook_input stop_hook no_files).0
    ≡ some (block_stop implementer_required)
unfolding stop_decision decide_stop baseline_text decide_implementer latest keep verify_chain
    chain_from head_matches
run_hook-stop_answer_example =
    run_hook-stop_answer fixed_sha never installation machine hook_input no_files within_root
      is_main

abbrev hook_of : HookEvent → Hook
hook_of event = record { machine = machine; input = hook_input; event = event }

abbrev hooks : List Hook
hooks =
    hook_of user_prompt_submit
    ∷ hook_of pre_tool_use
    ∷ hook_of post_tool_use
    ∷ hook_of stop_hook
    ∷ []

run_hooks-Accountable_example :
    Accountable fixed_sha never installation
      ((run_hooks fixed_sha never installation no_files hooks).prompts "s" "p").ledger
run_hooks-Accountable_example = run_hooks-Accountable fixed_sha never installation hooks "s" "p"

abbrev owned : List OwnedEntry
owned =
    (record { event = some "Stop"; entry = object (("command", str "node audit.mjs") ∷ []) }) ∷ []

-- Settings that hold the owned entry under its event.
abbrev settings_machine : Machine
settings_machine = record machine {
  read_file = λ path. some "settings";
  parse_json = λ s. some (
      object (
        ("theme", str "dark")
        ∷ (
          "hooks",
          object (("Stop", arr (cons (object (("command", str "node audit.mjs") ∷ [])) nil)) ∷ []),
        )
        ∷ []));
}

known_source :
    includes ("user_settings" ∷ "project_settings" ∷ "local_settings" ∷ []) "user_settings" ≡ true
unfolding includes
known_source = refl

allows_change : config_change_denied settings_machine owned "user_settings" "/h/s" ≡ false
unfolding config_change_denied includes change_denied read_settings parsed_settings object
    settings_affect_firewall is_true value_at any hooks_have holds_entry items_have same_codes
    canonicalize_json walk names_firewall occurs lower_codes
allows_change = refl

kept : Kept settings_machine owned "/h/s"
kept =
    (config_change_denied-Kept settings_machine owned "user_settings" "/h/s" known_source).0
      allows_change

-- Without the owned entry the change is denied.
denies_change :
    config_change_denied
      (record settings_machine { parse_json = λ s. some (object (("theme", str "dark") ∷ [])) })
      owned
      "user_settings"
      "/h/s"
    ≡ true
unfolding config_change_denied includes change_denied read_settings parsed_settings object
    settings_affect_firewall is_true value_at any hooks_have
denies_change = refl
