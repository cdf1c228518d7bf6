-- ===== src/Firewall/Dispatch/Permitted.antt =====
-- What a tool use that the hook does not deny rests on.
use mihver.Firewall.Dispatch.{
  Installation, is_reply, text_or_empty, start_use, check_reply, has_authority, check_params,
  delegate, main_verdict, after_verdicts, pre_tool, handle, settle, run_hook, on_exception,
}
use mihver.Firewall.Hooks.{
  HookInput, Files, Answer, returned, ledger_of, put_ledger, is_codex, start_input, same_authority,
  appended, pre_tool_use, Handled, threw, has_authority,
}
use mihver.Firewall.Delegation.{
  Meta, delegated, parse_delegation, params_refusal, Delegation, metadata_refused,
}
use mihver.Firewall.Protection.{protected_tool_verdict}
use mihver.Firewall.Machine.{Machine, in_scope}
use mihver.Firewall.Threads.{ThreadRecord, find_thread_binding}
use mihver.Firewall.Receipts.{DelegationRecord, Ledger, append_started}
use mihver.Firewall.Chain.{Entry}
use mihver.Council.Hashes.{Sha}
use mihver.Prelude.{
  ◌≡◌, String, false, none, arith, includes, refl, ◌⊎◌, Bool, true, Option, some, inl, inr,
  Bool-cases,
}
use mihver.Firewall.Policy.{
  main_denied_tools, denied_code, main_tool_verdict, main_orchestrator, classify, Caller, subagent,
  ToolVerdict,
}

-- The list of denied tools and the map of their codes agree.
main_tool_verdict-none :
    (tool : String) → main_tool_verdict tool ≡ none → includes main_denied_tools tool ≡ false
unfolding main_tool_verdict denied_code includes
main_tool_verdict-none tool h = ground arith

module _ (sha256 : Sha) (le : String → String → Bool) (install : Installation) (m : Machine)
    (input : HookInput) where
  -- The start of a delegation from `before` to `after`: its header and its parameters are valid, a
  -- reply has the authority of the one binding of its thread, and a STARTED receipt is written.
  pub record Started (before after : Files) : Type 0 where
    pub meta : Meta
    pub scope_hash : String
    pub header : parse_delegation sha256 m input.tool_input.prompt ≡ delegated meta scope_hash
    pub valid_params :
        params_refusal m meta input.tool_input install.canonical_root
          (is_reply sha256 le install m input)
        ≡ none
    pub authority :
        is_reply sha256 le install m input ≡ true
        → (bound : ThreadRecord) × (find_thread_binding sha256 before.threads
              (text_or_empty input.tool_input.thread_id)
            ≡ some (some bound))
          × (same_authority bound meta scope_hash ≡ true)
    pub ledger : Ledger
    pub receipt : Entry DelegationRecord
    pub appends :
        append_started sha256 (ledger_of input before) (start_input input meta scope_hash) m.now
        ≡ some (ledger, receipt)
    pub files_after : after ≡ put_ledger input ledger before

  -- A tool use that is not denied: it passes the scan for protected paths, its tool is not denied to the
  -- main thread, and it is no delegation and changes nothing, or one that is started.
  pub record Permit (before after : Files) : Type 0 where
    pub unprotected :
        protected_tool_verdict m input.tool_name input.tool_input.file_path input.tool_input.command
          install.protection install.home
        ≡ none
    pub main_tool :
        classify input.agent_id ≡ main_orchestrator
        → includes main_denied_tools input.tool_name ≡ false
    pub starts_or_keeps :
        ((is_codex input.tool_name ≡ false) × (after ≡ before))
        ⊎ ((is_codex input.tool_name ≡ true) × Started before after)

  appended-silent :
      (files after : Files) (answer : Option Answer) (r : Option (Ledger × Entry DelegationRecord))
      → appended input files answer r ≡ returned after none
      → (answer ≡ none)
        × ((ledger : Ledger) × (receipt : Entry DelegationRecord) × (r ≡ some (ledger, receipt))
            × (after ≡ put_ledger input ledger files))
  unfolding appended
  appended-silent files after answer none h = absurd (ground arith)
  appended-silent files after answer (some (ledger, receipt)) h =
      (ground arith, (ledger, receipt, refl, ground arith))

  start_use-Started :
      (files after : Files) (meta : Meta) (scope_hash : String)
      → parse_delegation sha256 m input.tool_input.prompt ≡ delegated meta scope_hash
      → params_refusal m meta input.tool_input install.canonical_root
          (is_reply sha256 le install m input)
        ≡ none
      → (is_reply sha256 le install m input ≡ true
          → (bound : ThreadRecord) × (find_thread_binding sha256 files.threads
                (text_or_empty input.tool_input.thread_id)
              ≡ some (some bound))
            × (same_authority bound meta scope_hash ≡ true))
      → start_use sha256 le install m input files meta scope_hash ≡ returned after none
      → Started files after
  unfolding start_use
  start_use-Started files after meta scope_hash header params authority h =
      let (silent, (ledger, receipt, appends, changed)) = appended-silent files after none _ h in
      record {
        meta = meta;
        scope_hash = scope_hash;
        header = header;
        valid_params = params;
        authority = authority;
        ledger = ledger;
        receipt = receipt;
        appends = appends;
        files_after = changed;
      }

  -- A reply that is not denied has the authority of its thread.
  check_reply-authorized :
      (files after : Files) (meta : Meta) (scope_hash : String)
      (found : Option (Option ThreadRecord))
      → check_reply sha256 le install m input files meta scope_hash found ≡ returned after none
      → ((bound : ThreadRecord) × (found ≡ some (some bound))
          × (same_authority bound meta scope_hash ≡ true))
        × (start_use sha256 le install m input files meta scope_hash ≡ returned after none)
  unfolding check_reply has_authority
  check_reply-authorized files after meta scope_hash none h = absurd (ground arith)
  check_reply-authorized files after meta scope_hash (some none) h = absurd (ground arith)
  check_reply-authorized files after meta scope_hash (some (some bound)) h =
      elim (Bool-cases (same_authority bound meta scope_hash)) [
        | inl e ↦ ((bound, refl, e), ground arith)
        | inr e ↦ absurd (ground arith)
      ]

  check_params-Started :
      (files after : Files) (meta : Meta) (scope_hash : String) (refusal : Option String)
      → parse_delegation sha256 m input.tool_input.prompt ≡ delegated meta scope_hash
      → params_refusal m meta input.tool_input install.canonical_root
          (is_reply sha256 le install m input)
        ≡ refusal
      → check_params sha256 le install m input files meta scope_hash refusal ≡ returned after none
      → Started files after
  unfolding check_params
  check_params-Started files after meta scope_hash (some detail) header params h =
      absurd (ground arith)
  check_params-Started files after meta scope_hash none header params h =
      elim (Bool-cases (is_reply sha256 le install m input)) [
        | inl e ↦
            let (authority, started) =
              check_reply-authorized files after meta scope_hash _ (ground arith) in
            start_use-Started files after meta scope_hash header params (λ r. authority) started
        | inr e ↦
            start_use-Started files after meta scope_hash header params (λ r. absurd (ground arith))
              (ground arith)
      ]

  delegate-Started :
      (files after : Files) (d : Delegation)
      → parse_delegation sha256 m input.tool_input.prompt ≡ d
      → delegate sha256 le install m input files d ≡ returned after none
      → Started files after
  unfolding delegate
  delegate-Started files after (metadata_refused detail) header h =
      let (silent, rest) = appended-silent files after _ _ h in absurd (ground arith)
  delegate-Started files after (delegated meta scope_hash) header h =
      check_params-Started files after meta scope_hash _ header refl h

  main_tool-allowed :
      (caller : Caller)
      → main_verdict sha256 le install m input caller ≡ none
      → caller ≡ main_orchestrator
      → includes main_denied_tools input.tool_name ≡ false
  unfolding main_verdict
  main_tool-allowed subagent h e = absurd (ground arith)
  main_tool-allowed main_orchestrator h e = main_tool_verdict-none input.tool_name h

  after_verdicts-Permit :
      (files after : Files) (guarded main : Option ToolVerdict)
      → protected_tool_verdict m input.tool_name input.tool_input.file_path input.tool_input.command
          install.protection install.home
        ≡ guarded
      → main_verdict sha256 le install m input (classify input.agent_id) ≡ main
      → after_verdicts sha256 le install m input files guarded main ≡ returned after none
      → Permit files after
  unfolding after_verdicts
  after_verdicts-Permit files after (some v) main guard verdict h = absurd (ground arith)
  after_verdicts-Permit files after none (some v) guard verdict h = absurd (ground arith)
  after_verdicts-Permit files after none none guard verdict h = record {
    unprotected = guard;
    main_tool = main_tool-allowed (classify input.agent_id) verdict;
    starts_or_keeps = elim (Bool-cases (is_codex input.tool_name)) [
      | inl e ↦ inr (e, delegate-Started files after _ refl (ground arith))
      | inr e ↦ inl (e, ground arith)
    ];
  }

  settled-returned :
      (after : Files) (h : Handled)
      → settle sha256 le install m input pre_tool_use h ≡ (none, after)
      → h ≡ returned after none
  unfolding settle on_exception
  settled-returned after (returned files answer) h = ground arith
  settled-returned after (threw files) h = absurd (ground arith)

  -- A tool use in the scope of the firewall that is not denied passes the scan for protected paths, a
  -- heuristic on the texts of its input that a shell command can evade, and is not denied to the
  -- main thread. It is no delegation and changes no file, or its header and its
  -- parameters are valid, a reply has the authority of the binding of its thread, and a STARTED
  -- receipt is appended.
  pub run_hook-Permit :
      (before after : Files)
      → in_scope m input.cwd install.canonical_root ≡ true
      → run_hook sha256 le install m input pre_tool_use before ≡ (none, after)
      → Permit before after
  unfolding run_hook handle pre_tool
  run_hook-Permit before after scope h =
      after_verdicts-Permit before after _ _ refl refl (settled-returned after _ (ground arith))
