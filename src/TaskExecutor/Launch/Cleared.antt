-- ===== src/TaskExecutor/Launch/Cleared.antt =====
-- What the guards of `executeTask` have checked of a process that is started.
use mihver.TaskExecutor.Launch.{
  not_a_number_type, nan, infinite, finite, is_positive_finite, invalid_task, Site, Descriptor,
  Options, ProcessStart, canonical_tools, canonical_mode, approved_tool, allowed_branch, has_flags,
  is_isolated, supported, discover, discover_from, discover_fallback, Probe, probe_not_found,
  probe_failed, answered, arguments_of, same_ignoring_case, start_command, check_tools,
  check_timeout, Decision, check_task, check_workspace, decide_launch, Timeout, starts,
  normalize_tools, refused, check_created, workspace_invalid, RefusalReason, unauthorized,
  main_branch_forbidden, stop_active,
}
use mihver.Prelude.{
  ◌≡◌, refl, inl, inr, String, Bool, true, false, Option, none, some, List, [], ◌∷◌, arith,
  Bool-cases, Option-cases, if◌then◌else◌, subst, ℕ, ◌≢◌, ap, ◌∙◌, sym, not, ◌≤◌,
}

-- The tools that a process may be given.
pub data IsApproved : List String → Type 0 where
  no_tool : IsApproved []
  read_tool : {ts : List String} → IsApproved ts → IsApproved ("Read" ∷ ts)
  write_tool : {ts : List String} → IsApproved ts → IsApproved ("Write" ∷ ts)
  edit_tool : {ts : List String} → IsApproved ts → IsApproved ("Edit" ∷ ts)

-- The command that is tried first, which was probed with the flags that its arguments need.
pub record IsSupported (site : Site) (command : String) : Type 0 where
  pub help : String
  pub answer : site.probe command ≡ answered help
  pub flags : has_flags help ≡ true

-- A finite number above 0.
pub data PositiveFinite : Timeout → Type 0 where
  positive_finite :
      {significand places : ℕ} → 1 ≤ significand → PositiveFinite (finite false significand places)

PositiveFinite-of_test : (t : Timeout) → is_positive_finite t ≡ true → PositiveFinite t
unfolding is_positive_finite
PositiveFinite-of_test not_a_number_type h = absurd (ground arith)
PositiveFinite-of_test nan h = absurd (ground arith)
PositiveFinite-of_test (infinite negative) h = absurd (ground arith)
PositiveFinite-of_test (finite true n k) h = absurd (ground arith)
PositiveFinite-of_test (finite false n k) h = positive_finite (ground arith)

pub record IsCleared (site : Site) (task : Descriptor) (options : Options) (s : ProcessStart)
    : Type 0 where
  pub repo_root : String
  pub created : String
  pub tool : String
  pub tools : List String
  pub workspace_created : site.new_workspace ≡ some created
  pub workspace_real : site.real created ≡ some s.workspace
  pub repo_root_real : site.real options.repo_root ≡ some repo_root
  pub isolated : is_isolated site repo_root s.workspace ≡ true
  pub no_stop : site.exists (site.join (site.join repo_root ".project") "STOP") ≡ false
  pub is_authorized : task.authorized ≡ true
  pub branch_allowed : allowed_branch task.branch ≡ true
  pub limit_given : task.timeout ≡ s.limit
  pub limited : PositiveFinite s.limit
  pub approved : IsApproved (tool ∷ tools)
  pub command_supported : IsSupported site s.command
  pub arguments_built : s.arguments ≡ arguments_of site task options "acceptEdits" (tool ∷ tools)

approved_tool-IsApproved :
    (t tool : String) (ts : List String)
    → approved_tool t ≡ some tool
    → IsApproved ts
    → IsApproved (tool ∷ ts)
unfolding approved_tool
approved_tool-IsApproved t tool ts h rest =
    by_tool (same_ignoring_case t "Read") (same_ignoring_case t "Write")
      (same_ignoring_case t "Edit") h
  where
    named :
        (name : String) → some name ≡ some tool → IsApproved (name ∷ ts) → IsApproved (tool ∷ ts)
    named name e = subst (λ n. IsApproved (n ∷ ts)) (ground arith)

    by_tool :
        (read write edit : Bool)
        → (if read
            then some "Read"
            else if write
            then some "Write"
            else if edit
            then some "Edit"
            else none)
          ≡ some tool
        → IsApproved (tool ∷ ts)
    by_tool true write edit e = named _ e (read_tool rest)
    by_tool false true edit e = named _ e (write_tool rest)
    by_tool false false true e = named _ e (edit_tool rest)
    by_tool false false false e = absurd (ground arith)

canonical_tools-IsApproved :
    (ts tools : List String) → canonical_tools ts ≡ some tools → IsApproved tools
unfolding canonical_tools
canonical_tools-IsApproved [] tools h = subst IsApproved (ground arith) no_tool
canonical_tools-IsApproved (t ∷ ts) tools h = elim (Option-cases (approved_tool t)) [
  | inl e ↦ absurd (ground arith)
  | inr (tool, e) ↦ elim (Option-cases (canonical_tools ts)) [
    | inl f ↦ absurd (ground arith)
    | inr (rest, f) ↦
        subst IsApproved (ground arith)
          (approved_tool-IsApproved t tool rest e (canonical_tools-IsApproved ts rest f))
  ]
]

canonical_mode-accept :
    (o : Option (Option String)) (mode : String)
    → canonical_mode o ≡ some mode
    → mode ≡ "acceptEdits"
unfolding canonical_mode
canonical_mode-accept none mode h = ground arith
canonical_mode-accept (some none) mode h = absurd (ground arith)
canonical_mode-accept (some (some m)) mode h = by_case (same_ignoring_case m "acceptEdits") h
  where
    by_case :
        (b : Bool) → (if b then some "acceptEdits" else none) ≡ some mode → mode ≡ "acceptEdits"
    by_case true e = ground arith
    by_case false e = absurd (ground arith)

true_of_not : (b : Bool) → not b ≡ false → b ≡ true
true_of_not b h = ground arith

module _ (site : Site) where
  supported-IsSupported :
      (command found : String) (p : Probe)
      → site.probe command ≡ p
      → supported site command p ≡ some found
      → IsSupported site found
  unfolding supported
  supported-IsSupported command found probe_not_found e h = absurd (ground arith)
  supported-IsSupported command found probe_failed e h = absurd (ground arith)
  supported-IsSupported command found (answered help) e h = elim (Bool-cases (has_flags help)) [
    | inl f ↦
        subst (IsSupported site) (ground arith) (record { help = help; answer = e; flags = f })
    | inr f ↦ absurd (ground arith)
  ]

  discover-IsSupported :
      (program found : String) → discover site program ≡ some found → IsSupported site found
  unfolding discover
  discover-IsSupported program found h = by_probe (site.probe program) refl h
    where
      by_fallback :
          (o : Option String)
          → discover_fallback site program o ≡ some found
          → IsSupported site found
      by_fallback none e = absurd (unfold discover_fallback in ground arith)
      by_fallback (some command) e =
          supported-IsSupported command found (site.probe command) refl
            (unfold discover_fallback in e)

      by_probe :
          (p : Probe)
          → site.probe program ≡ p
          → discover_from site program p ≡ some found
          → IsSupported site found
      by_probe probe_not_found e k =
          by_fallback (site.executable program) (unfold discover_from in k)
      by_probe probe_failed e k = absurd (unfold discover_from in ground arith)
      by_probe (answered help) e k =
          supported-IsSupported program found (answered help) e (unfold discover_from in k)

  module _ (task : Descriptor) (options : Options) (s : ProcessStart) where
    -- What a start after the checks of the task says.
    record IsPlanned (workspace : String) : Type 0 where
      planned_workspace : s.workspace ≡ workspace
      planned_limit : task.timeout ≡ s.limit
      planned_tool : String
      planned_tools : List String
      planned_approved : IsApproved (planned_tool ∷ planned_tools)
      planned_command : IsSupported site s.command
      planned_arguments :
          s.arguments ≡ arguments_of site task options "acceptEdits" (planned_tool ∷ planned_tools)

    start_command-IsPlanned :
        (workspace : String) (limit : Timeout) (mode tool : String) (tools : List String)
        (found : Option String)
        → task.timeout ≡ limit
        → mode ≡ "acceptEdits"
        → IsApproved (tool ∷ tools)
        → ((command : String) → found ≡ some command → IsSupported site command)
        → start_command site task options workspace limit mode (tool ∷ tools) found ≡ starts s
        → IsPlanned workspace
    unfolding start_command
    start_command-IsPlanned workspace limit mode tool tools none t m a c h = absurd (ground arith)
    start_command-IsPlanned workspace limit mode tool tools (some command) t m a c h =
        let same = ap (λ d. elim d [ refused r ↦ s | starts other ↦ other ]) h in
        record {
          planned_workspace = sym (ap (λ x. x.workspace) same);
          planned_limit = t ∙ ap (λ x. x.limit) same;
          planned_tool = tool;
          planned_tools = tools;
          planned_approved = a;
          planned_command = subst (IsSupported site) (ap (λ x. x.command) same) (c command refl);
          planned_arguments =
              sym (ap (λ x. x.arguments) same)
              ∙ ap (λ n. arguments_of site task options n (tool ∷ tools)) m;
        }

    check_tools-IsPlanned :
        (workspace : String) (limit : Timeout) (mode : Option String) (tools : Option (List String))
        → task.timeout ≡ limit
        → ((m : String) → mode ≡ some m → m ≡ "acceptEdits")
        → ((ts : List String) → tools ≡ some ts → IsApproved ts)
        → check_tools site task options workspace limit mode tools ≡ starts s
        → IsPlanned workspace
    unfolding check_tools
    check_tools-IsPlanned workspace limit none tools t m a h = absurd (ground arith)
    check_tools-IsPlanned workspace limit (some mode) none t m a h = absurd (ground arith)
    check_tools-IsPlanned workspace limit (some mode) (some []) t m a h = absurd (ground arith)
    check_tools-IsPlanned workspace limit (some mode) (some (tool ∷ tools)) t m a h =
        start_command-IsPlanned workspace limit mode tool tools (discover site options.program) t
          (m mode refl) (a (tool ∷ tools) refl) (discover-IsSupported options.program) h

    refused-starts : (r : RefusalReason) → refused r ≢ starts s
    refused-starts r e = ground arith

    -- A test that has not refused.
    passed :
        (b : Bool) (r : RefusalReason) (next : Decision)
        → (if b then refused r else next) ≡ starts s
        → (b ≡ false) × (next ≡ starts s)
    passed true r next h = absurd (refused-starts r h)
    passed false r next h = (refl, h)

    check_timeout-IsPlanned :
        (workspace : String)
        → check_timeout site task options workspace task.timeout ≡ starts s
        → IsPlanned workspace × (is_positive_finite task.timeout ≡ true)
    unfolding check_timeout
    check_timeout-IsPlanned workspace h =
        let (above, rest) =
          passed (not (is_positive_finite task.timeout)) invalid_task
            (check_tools site task options workspace task.timeout
              (canonical_mode options.permission_mode)
              (canonical_tools (normalize_tools options.tools)))
            h in
        (
          check_tools-IsPlanned workspace task.timeout (canonical_mode options.permission_mode)
              (canonical_tools (normalize_tools options.tools)) refl
              (canonical_mode-accept options.permission_mode)
              (canonical_tools-IsApproved (normalize_tools options.tools)) rest,
          true_of_not (is_positive_finite task.timeout) above,
        )

    check_task-IsCleared :
        (repo_root created workspace : String)
        → site.new_workspace ≡ some created
        → site.real created ≡ some workspace
        → site.real options.repo_root ≡ some repo_root
        → is_isolated site repo_root workspace ≡ true
        → check_task site task options repo_root workspace ≡ starts s
        → IsCleared site task options s
    unfolding check_task
    check_task-IsCleared repo_root created workspace c w r i h =
        let then_timeout = check_timeout site task options workspace task.timeout in
        let then_branch =
          if not (allowed_branch task.branch)
          then refused main_branch_forbidden
          else then_timeout in
        let (stop, h1) =
          passed (site.exists (site.join (site.join repo_root ".project") "STOP")) stop_active
            (if not task.authorized then refused unauthorized else then_branch) h in
        let (authorized, h2) = passed (not task.authorized) unauthorized then_branch h1 in
        let (branch, h3) =
          passed (not (allowed_branch task.branch)) main_branch_forbidden then_timeout h2 in
        let (p, above) = check_timeout-IsPlanned workspace h3 in
        record {
          repo_root = repo_root;
          created = created;
          tool = p.planned_tool;
          tools = p.planned_tools;
          workspace_created = c;
          workspace_real = w ∙ ap some (sym p.planned_workspace);
          repo_root_real = r;
          isolated = subst (λ v. is_isolated site repo_root v ≡ true) (sym p.planned_workspace) i;
          no_stop = stop;
          is_authorized = true_of_not task.authorized authorized;
          branch_allowed = true_of_not (allowed_branch task.branch) branch;
          limit_given = p.planned_limit;
          limited =
              subst PositiveFinite p.planned_limit (PositiveFinite-of_test task.timeout above);
          approved = p.planned_approved;
          command_supported = p.planned_command;
          arguments_built = p.planned_arguments;
        }

    check_workspace-IsCleared :
        (repo_root workspace : Option String) (created : String)
        → site.new_workspace ≡ some created
        → site.real created ≡ workspace
        → site.real options.repo_root ≡ repo_root
        → check_workspace site task options repo_root workspace ≡ starts s
        → IsCleared site task options s
    unfolding check_workspace
    check_workspace-IsCleared none workspace created c w r h = absurd (ground arith)
    check_workspace-IsCleared (some repo_root) none created c w r h = absurd (ground arith)
    check_workspace-IsCleared (some repo_root) (some workspace) created c w r h =
        elim (Bool-cases (is_isolated site repo_root workspace)) [
          | inl i ↦ check_task-IsCleared repo_root created workspace c w r i (
              subst
                (λ b.
                  (if b
                    then check_task site task options repo_root workspace
                    else refused workspace_invalid)
                  ≡ starts s)
                i h)
          | inr i ↦ absurd (ground arith)
        ]

    -- A task is handed to a process only behind all guards, and then they hold: the new workspace and
    -- the repository are isolated from each other, the STOP file is absent, the task is authorized, on
    -- a branch other than main and limited by a finite number of seconds above 0, the permission mode
    -- of the arguments is `acceptEdits`, their tools are at least one and only Read, Write and Edit,
    -- and the command that is tried first has answered a probe with every required flag. The
    -- executable that stands in for a command that cannot be spawned is not probed.
    pub decide_launch-IsCleared :
        decide_launch site task options ≡ starts s → IsCleared site task options s
    unfolding decide_launch
    decide_launch-IsCleared h = by_created site.new_workspace refl h
      where
        by_created :
            (o : Option String)
            → site.new_workspace ≡ o
            → check_created site task options o ≡ starts s
            → IsCleared site task options s
        by_created none c e = absurd (unfold check_created in ground arith)
        by_created (some created) c e =
            check_workspace-IsCleared (site.real options.repo_root) (site.real created) created c
              refl refl (unfold check_created in e)
