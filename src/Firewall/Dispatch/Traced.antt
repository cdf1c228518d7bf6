-- ===== src/Firewall/Dispatch/Traced.antt =====
-- Of hooks that run one after another, each ledger is the outcome of operations on receipts.
use mihver.Firewall.StopGate.{StopDecision, allow, block}
use mihver.Firewall.Receipts.Backed.{Backed, perform_all-empty_ledger-Sound}
use mihver.Firewall.Dispatch.{
  Installation, start_use, check_reply, is_reply, check_params, delegate, after_verdicts, run_hook,
  pre_tool, handle, settle, bound_thread, bind_thread, complete_use, has_started, post_tool,
  user_prompt, count_block, answer_stop, stop_on, end_input,
}
use mihver.Firewall.Hooks.{
  HookInput, HookEvent, PromptFiles, Files, Answer, Handled, returned, threw, ledger_of, put_ledger,
  put_prompt, is_codex, start_input, has_authority, appended, pre_tool_use, post_tool_use,
  post_tool_use_failure, user_prompt_submit, stop_hook, config_change, other_event,
  stop_reason_text, block_stop,
}
use mihver.Firewall.Delegation.{Meta, Delegation, delegated, metadata_refused}
use mihver.Firewall.Machine.{Machine, in_scope}
use mihver.Firewall.Policy.{ToolVerdict, Caller, subagent, main_orchestrator, classify}
use mihver.Firewall.Threads.{ThreadRecord}
use mihver.Firewall.Receipts.Once.{
  after, Operation, starts, rejects, perform, perform_all, empty_ledger, ends, stops, endings,
  endings-le_one,
}
use mihver.Firewall.Receipts.{DelegationRecord, Ledger, delegation_json, stop_record}
use mihver.Firewall.Chain.{Entry, missing, Store, verify_chain, append_record}
use mihver.Council.Hashes.{Sha}
use mihver.Prelude.{
  ◌≡◌, refl, sym, ap, inl, inr, Bool, true, Option, none, some, List, [], ◌∷◌, ◌++◌, arith, String,
  Bool-cases, ◌∙◌, ◌==◌, ◌&&◌, eq_iff, subst, not, ◌≤◌, false, suc, if◌then◌else◌,
}

-- One run of the hook: the machine at that time, what it is given and for which event.
pub record Hook : Type 0 where
  pub machine : Machine
  pub input : HookInput
  pub event : HookEvent

abbrev pub no_prompt : PromptFiles
no_prompt = record { ledger = empty_ledger; baseline = none; block_count = 0 }

abbrev pub no_files : Files
no_files = record { prompts = λ s p. no_prompt; threads = record { records = []; head = missing } }

abbrev files_of : Handled → Files
files_of (returned files answer) = files
files_of (threw files) = files

module _ (sha256 : Sha) (le : String → String → Bool) (install : Installation) where
  abbrev pub run_hooks : Files → List Hook → Files
  run_hooks files [] = files
  run_hooks files (h ∷ hooks) =
      run_hooks (run_hook sha256 le install h.machine h.input h.event files).1 hooks

  -- Each ledger of the second has come from that of the first.
  abbrev Traced : Files → Files → Type 0
  Traced a b =
      (session prompt : String)
      → (os : List Operation) × ((b.prompts session prompt).ledger
          ≡ perform_all sha256 (a.prompts session prompt).ledger os)

  Traced-refl : (a : Files) → Traced a a
  unfolding perform_all
  Traced-refl a session prompt = ([], refl)

  perform_all-append :
      (s : Ledger) (os ps : List Operation)
      → perform_all sha256 s (os ++ ps) ≡ perform_all sha256 (perform_all sha256 s os) ps
  unfolding perform_all
  perform_all-append s [] ps = refl
  perform_all-append s (o ∷ os) ps = perform_all-append (perform sha256 s o) os ps

  Traced-trans : (a b c : Files) → Traced a b → Traced b c → Traced a c
  Traced-trans a b c first second session prompt =
      let (os, h) = first session prompt in
      let (ps, k) = second session prompt in
      (
        os ++ ps,
        k
            ∙ ap (λ s. perform_all sha256 s ps) h
            ∙ sym (perform_all-append (a.prompts session prompt).ledger os ps),
      )

  module _ (m : Machine) (input : HookInput) where
    put_prompt-Traced :
        (files : Files) (pf : PromptFiles) (os : List Operation)
        → pf.ledger ≡ perform_all sha256 (ledger_of input files) os
        → Traced files (put_prompt input.session_id input.prompt_id pf files)
    unfolding put_prompt
    put_prompt-Traced files pf os h session prompt =
        elim (Bool-cases (session == input.session_id && prompt == input.prompt_id)) [
          | inl e ↦ rw e (os, h ∙ ap (λ q. perform_all sha256 q.ledger os) (same_prompt e))
          | inr e ↦ rw e (Traced-refl files session prompt)
        ]
      where
        same_prompt :
            (session == input.session_id && prompt == input.prompt_id) ≡ true
            → files.prompts input.session_id input.prompt_id ≡ files.prompts session prompt
        same_prompt e =
            let a : (session == input.session_id) ≡ true = ground arith in
            let b : (prompt == input.prompt_id) ≡ true = ground arith in
            ap (λ s. files.prompts s input.prompt_id) (sym ((eq_iff session input.session_id).0 a))
            ∙ ap (files.prompts session) (sym ((eq_iff prompt input.prompt_id).0 b))

    -- One operation on the ledger of the input.
    operation-Traced :
        (files : Files) (ledger : Ledger) (o : Operation)
        → ledger ≡ perform sha256 (ledger_of input files) o
        → Traced files (put_ledger input ledger files)
    unfolding put_ledger perform_all
    operation-Traced files ledger o h =
        put_prompt-Traced files
          (record (files.prompts input.session_id input.prompt_id) { ledger = ledger }) (o ∷ []) h

    appended-Traced :
        (files : Files) (answer : Option Answer) (r : Option (Ledger × Entry DelegationRecord))
        (o : Operation)
        → after (ledger_of input files) r ≡ perform sha256 (ledger_of input files) o
        → Traced files (files_of (appended input files answer r))
    unfolding appended
    appended-Traced files answer none o h = Traced-refl files
    appended-Traced files answer (some (ledger, entry)) o h = operation-Traced files ledger o h

    start_use-Traced :
        (files : Files) (meta : Meta) (scope_hash : String)
        → Traced files (files_of (start_use sha256 le install m input files meta scope_hash))
    unfolding start_use perform
    start_use-Traced files meta scope_hash =
        appended-Traced files none _ (starts (start_input input meta scope_hash) m.now) refl

    check_reply-Traced :
        (files : Files) (meta : Meta) (scope_hash : String) (found : Option (Option ThreadRecord))
        → Traced files
            (files_of (check_reply sha256 le install m input files meta scope_hash found))
    unfolding check_reply
    check_reply-Traced files meta scope_hash none = Traced-refl files
    check_reply-Traced files meta scope_hash (some bound) =
        elim (Bool-cases (has_authority bound meta scope_hash)) [
          | inl e ↦ rw e (start_use-Traced files meta scope_hash)
          | inr e ↦ rw e (Traced-refl files)
        ]

    check_params-Traced :
        (files : Files) (meta : Meta) (scope_hash : String) (refusal : Option String)
        → Traced files
            (files_of (check_params sha256 le install m input files meta scope_hash refusal))
    unfolding check_params
    check_params-Traced files meta scope_hash (some detail) = Traced-refl files
    check_params-Traced files meta scope_hash none =
        elim (Bool-cases (is_reply sha256 le install m input)) [
          | inl e ↦ rw e (check_reply-Traced files meta scope_hash _)
          | inr e ↦ rw e (start_use-Traced files meta scope_hash)
        ]

    delegate-Traced :
        (files : Files) (d : Delegation)
        → Traced files (files_of (delegate sha256 le install m input files d))
    unfolding delegate perform
    delegate-Traced files (metadata_refused detail) =
        appended-Traced files _ _ (rejects _ detail m.now) refl
    delegate-Traced files (delegated meta scope_hash) = check_params-Traced files meta scope_hash _

    after_verdicts-Traced :
        (files : Files) (guarded main : Option ToolVerdict)
        → Traced files (files_of (after_verdicts sha256 le install m input files guarded main))
    unfolding after_verdicts
    after_verdicts-Traced files (some v) main = Traced-refl files
    after_verdicts-Traced files none (some v) = Traced-refl files
    after_verdicts-Traced files none none = elim (Bool-cases (is_codex input.tool_name)) [
      | inl e ↦ rw e (delegate-Traced files _)
      | inr e ↦ rw e (Traced-refl files)
    ]

    -- The binding of a thread leaves the ledgers as they are.
    bound_thread-Traced :
        (files : Files) (r : Option (Store ThreadRecord × Entry ThreadRecord))
        → Traced files (files_of (bound_thread sha256 le install m input files r))
    unfolding bound_thread perform_all
    bound_thread-Traced files none session prompt = ([], refl)
    bound_thread-Traced files (some (threads, entry)) session prompt = ([], refl)

    bind_thread-Traced :
        (files : Files) (failed : Bool) (completed : DelegationRecord)
        → Traced files (files_of (bind_thread sha256 le install m input files failed completed))
    unfolding bind_thread
    bind_thread-Traced files failed completed =
        elim (Bool-cases (input.tool_name == "mcp__codex__codex" && not failed)) [
          | inl e ↦ rw e (bound_thread-Traced files _)
          | inr e ↦ rw e (Traced-refl files)
        ]

    complete_use-Traced :
        (files : Files) (failed : Bool) (r : Option (Ledger × Entry DelegationRecord))
        (o : Operation)
        → after (ledger_of input files) r ≡ perform sha256 (ledger_of input files) o
        → Traced files (files_of (complete_use sha256 le install m input files failed r))
    unfolding complete_use
    complete_use-Traced files failed none o h = Traced-refl files
    complete_use-Traced files failed (some (ledger, entry)) o h =
        Traced-trans files (put_ledger input ledger files)
          (files_of (
            bind_thread sha256 le install m input (put_ledger input ledger files) failed
              entry.fields))
          (operation-Traced files ledger o h)
          (bind_thread-Traced (put_ledger input ledger files) failed entry.fields)

    post_tool-Traced :
        (files : Files) (failed : Bool)
        → Traced files (files_of (post_tool sha256 le install m input files failed))
    unfolding post_tool perform
    post_tool-Traced files failed =
        elim (Bool-cases (
          is_codex input.tool_name
          && has_started sha256 le install m input (ledger_of input files))) [
            | inl e ↦ rw e (
                complete_use-Traced files failed _
                  (ends (end_input sha256 le install m input failed) m.now) refl)
            | inr e ↦ rw e (Traced-refl files)
          ]

    count_block-ledger :
        (files : Files)
        → ledger_of input (count_block sha256 le install m input files) ≡ ledger_of input files
    unfolding count_block put_prompt
    count_block-ledger files =
        kept (input.session_id == input.session_id && input.prompt_id == input.prompt_id)
      where
        kept :
            (b : Bool)
            → (let pf = files.prompts input.session_id input.prompt_id in
                (if b then record pf { block_count = suc pf.block_count } else pf).ledger
                ≡ pf.ledger)
        kept true = refl
        kept false = refl

    count_block-Traced :
        (files : Files) → Traced files (count_block sha256 le install m input files)
    unfolding count_block perform_all
    count_block-Traced files = put_prompt-Traced files _ [] refl

    answer_stop-Traced :
        (files : Files) (decision : StopDecision)
        → Traced files (files_of (answer_stop sha256 le install m input files decision))
    unfolding answer_stop perform
    answer_stop-Traced files allow = Traced-refl files
    answer_stop-Traced files (block reason) =
        let counted = count_block sha256 le install m input files in
        let o = stops input.session_id input.prompt_id (stop_reason_text reason) m.now in
        let written =
          append_record sha256 delegation_json (ledger_of input files)
            (stop_record input.session_id input.prompt_id (stop_reason_text reason) m.now) in
        Traced-trans files counted
          (files_of (appended input counted (some (block_stop reason)) written))
          (count_block-Traced files)
          (appended-Traced counted (some (block_stop reason)) written o (
            subst (λ l. after l written ≡ perform sha256 l o) (sym (count_block-ledger files))
              refl))

    handle-Traced :
        (event : HookEvent) (files : Files)
        → Traced files (files_of (handle sha256 le install m input event files))
    unfolding handle pre_tool user_prompt stop_on perform_all
    handle-Traced pre_tool_use files = after_verdicts-Traced files _ _
    handle-Traced post_tool_use files = post_tool-Traced files false
    handle-Traced post_tool_use_failure files = post_tool-Traced files true
    handle-Traced user_prompt_submit files = put_prompt-Traced files _ [] refl
    handle-Traced stop_hook files = stopped (classify input.agent_id)
      where
        stopped : (c : Caller) → Traced files (files_of (stop_on sha256 le install m input files c))
        stopped subagent = Traced-refl files
        stopped main_orchestrator = answer_stop-Traced files _
    handle-Traced config_change files = Traced-refl files
    handle-Traced other_event files = Traced-refl files

    settle-Traced :
        (event : HookEvent) (files : Files) (h : Handled)
        → Traced files (files_of h)
        → Traced files (settle sha256 le install m input event h).1
    unfolding settle
    settle-Traced event files (returned after answer) t = t
    settle-Traced event files (threw after) t = t

    run_hook-Traced :
        (event : HookEvent) (files : Files)
        → Traced files (run_hook sha256 le install m input event files).1
    unfolding run_hook
    run_hook-Traced event files = elim (Bool-cases (in_scope m input.cwd install.canonical_root)) [
      | inl e ↦ rw e (settle-Traced event files _ (handle-Traced event files))
      | inr e ↦ rw e (Traced-refl files)
    ]

  run_hooks-from : (files : Files) (hooks : List Hook) → Traced files (run_hooks files hooks)
  run_hooks-from files [] = Traced-refl files
  run_hooks-from files (h ∷ hooks) =
      Traced-trans files (run_hook sha256 le install h.machine h.input h.event files).1
        (run_hooks files (h ∷ hooks)) (run_hook-Traced h.machine h.input h.event files)
        (run_hooks-from (run_hook sha256 le install h.machine h.input h.event files).1 hooks)

  -- What holds of the ledger of a prompt: its chain verifies, no tool use has ended twice, and each
  -- end has its start.
  pub record Accountable (ledger : Ledger) : Type 0 where
    pub verified : verify_chain sha256 delegation_json ledger ≡ true
    pub ends_once : (id : String) → endings id ledger.records ≤ 1
    pub backed : Backed ledger.records

  -- Of hooks that run one after another, whose inputs name session, prompt and tool use by texts, for
  -- whatever sessions and on whatever machines: the ledger of every prompt verifies, no tool use in
  -- it has two COMPLETED or FAILED receipts, and each of these has a STARTED receipt of the same tool
  -- use, session, prompt, role, task, scope and base.
  pub run_hooks-Accountable :
      (hooks : List Hook) (session prompt : String)
      → Accountable ((run_hooks no_files hooks).prompts session prompt).ledger
  run_hooks-Accountable hooks session prompt =
      let (os, h) = run_hooks-from no_files hooks session prompt in
      let (verified, backed) = perform_all-empty_ledger-Sound sha256 os in
      subst Accountable (sym h) (record {
        verified = verified;
        ends_once = λ id. endings-le_one sha256 id os;
        backed = backed;
      })
