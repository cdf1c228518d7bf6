-- ===== src/TaskExecutor/Launch.antt =====
-- What `executeTask` of scripts/dev/night-runner-executor.mjs checks before it starts a process.
-- The file system, the paths and the probes of the command line are a parameter.
pub mod Cleared
use Prim.Native.String
use mihver.Prelude.{
  ℕ, String, Bool, true, false, not, ◌&&◌, ◌||◌, Option, none, some, List, [], ◌∷◌, ◌++◌, ◌==◌, any,
  keep, nonempty, starts_with, has_text, eqb, is_space, words, lower_codes, same_codes,
  if◌then◌else◌, leb,
}

-- What `spawnSync` with `--help` gives: ENOENT, any other failure, or the text of a success.
pub data Probe : Type 0 where
  probe_not_found probe_failed : Probe
  answered : String → Probe

pub record Site : Type 0 where
  -- `realpathSync(mkdtempSync(…))` and `realpathSync(resolve(…))`, `none` if they throw
  pub new_workspace : Option String
  pub real : String → Option String
  pub relative : String → String → String
  pub is_absolute : String → Bool
  pub sep : String
  pub join : String → String → String
  pub exists : String → Bool
  pub probe : String → Probe
  -- `executableResolver`
  pub executable : String → Option String

pub data Tools : Type 0 where
  default_tools other_tools : Tools
  tool_list : List String → Tools
  tool_text : String → Tools

-- `timeout_seconds`: no number, NaN, an infinity of a sign, or a finite number as a sign, a
-- significand and the number of its binary places: a double is such a number.
pub data Timeout : Type 0 where
  not_a_number_type nan : Timeout
  infinite : Bool → Timeout
  finite : Bool → ℕ → ℕ → Timeout

-- `typeof value === "number" && Number.isFinite(value) && value > 0`
unfoldable pub is_positive_finite : Timeout → Bool
is_positive_finite (finite negative significand places) = not negative && leb 1 significand
is_positive_finite _ = false

pub record Descriptor : Type 0 where
  -- whether `authorized === true`
  pub authorized : Bool
  pub branch : Option String
  pub timeout : Timeout
  pub prompt : String

-- The options; a permission mode that is no text is `some none`.
pub record Options : Type 0 where
  pub repo_root : String
  pub program : String
  pub program_arguments : List String
  pub permission_mode : Option (Option String)
  pub tools : Tools

pub data RefusalReason : Type 0 where
  workspace_invalid stop_active unauthorized main_branch_forbidden invalid_task invalid_options
        cli_discovery_failed :
      RefusalReason

-- What is started: the command, its arguments and its working directory.
pub record ProcessStart : Type 0 where
  pub command : String
  pub arguments : List String
  pub workspace : String
  pub limit : Timeout

pub data Decision : Type 0 where
  refused : RefusalReason → Decision
  starts : ProcessStart → Decision

abbrev pub required_flags : List String
required_flags =
    "--print" ∷ "--output-format" ∷ "--permission-mode" ∷ "--no-session-persistence" ∷ "--tools"
    ∷ "--strict-mcp-config" ∷ []

is_tool_separator : ℕ → Bool
is_tool_separator c = is_space c || eqb c b','

all_words : List String → List String
unfolding is_tool_separator
all_words [] = []
all_words (t ∷ ts) = words is_tool_separator t ++ all_words ts

-- `normalizeTools`
unfoldable pub normalize_tools : Tools → List String
unfolding all_words
normalize_tools default_tools = "Read" ∷ "Write" ∷ "Edit" ∷ []
normalize_tools other_tools = []
normalize_tools (tool_list ts) = all_words ts
normalize_tools (tool_text t) = all_words (t ∷ [])

unfoldable pub same_ignoring_case : String → String → Bool
same_ignoring_case a b = same_codes (lower_codes a) (lower_codes b)

-- `approvedTools.get(tool.toLowerCase())`
unfoldable pub approved_tool : String → Option String
approved_tool t =
    if same_ignoring_case t "Read"
    then some "Read"
    else if same_ignoring_case t "Write"
    then some "Write"
    else if same_ignoring_case t "Edit"
    then some "Edit"
    else none

-- The canonical tools, if each is approved.
unfoldable pub canonical_tools : List String → Option (List String)
canonical_tools [] = some []
canonical_tools (t ∷ ts) = elim (approved_tool t) [
  | none ↦ none
  | some tool ↦ elim (canonical_tools ts) [ none ↦ none | some rest ↦ some (tool ∷ rest) ]
]

mode_of : Option String → Option String
mode_of none = none
mode_of (some mode) = if same_ignoring_case mode "acceptEdits" then some "acceptEdits" else none

unfoldable pub canonical_mode : Option (Option String) → Option String
unfolding mode_of
canonical_mode none = some "acceptEdits"
canonical_mode (some mode) = mode_of mode

unfoldable pub allowed_branch : Option String → Bool
allowed_branch none = false
allowed_branch (some branch) = nonempty branch && not (branch == "main")

unfoldable pub has_flags : String → Bool
has_flags help = not (any (λ flag. not (has_text flag help)) required_flags)

unfoldable pub comma_separated : List String → String
comma_separated [] = ""
comma_separated (t ∷ []) = t
comma_separated (t ∷ u ∷ ts) = String.◌++◌ t (String.◌++◌ "," (comma_separated (u ∷ ts)))

module _ (site : Site) where
  unfoldable pub contains_or_equals : String → String → Bool
  contains_or_equals parent candidate =
      let relation = site.relative parent candidate in
      relation == ""
      || not (starts_with relation (String.◌++◌ ".." site.sep))
        && not (relation == "..")
        && not (site.is_absolute relation)

  unfoldable pub is_isolated : String → String → Bool
  is_isolated repo_root workspace =
      not (contains_or_equals repo_root workspace) && not (contains_or_equals workspace repo_root)

  -- The command whose help has every flag.
  unfoldable pub supported : String → Probe → Option String
  supported command probe_not_found = none
  supported command probe_failed = none
  supported command (answered help) = if has_flags help then some command else none

  unfoldable pub discover_fallback : String → Option String → Option String
  discover_fallback program none = none
  discover_fallback program (some command) = supported command (site.probe command)

  unfoldable pub discover_from : String → Probe → Option String
  discover_from program probe_not_found = discover_fallback program (site.executable program)
  discover_from program probe_failed = none
  discover_from program (answered help) = supported program (answered help)

  -- `discoverWithResolver`
  unfoldable pub discover : String → Option String
  discover program = discover_from program (site.probe program)

  module _ (task : Descriptor) (options : Options) where
    unfoldable pub arguments_of : String → List String → List String
    arguments_of mode tools =
        options.program_arguments
        ++ ("--print"
            ∷ "--output-format"
            ∷ "json"
            ∷ "--permission-mode"
            ∷ mode
            ∷ "--no-session-persistence"
            ∷ "--tools"
            ∷ comma_separated tools
            ∷ "--strict-mcp-config"
            ∷ task.prompt
            ∷ [])

    unfoldable pub start_command :
        String → Timeout → String → List String → Option String → Decision
    start_command workspace limit mode tools none = refused cli_discovery_failed
    start_command workspace limit mode tools (some command) = starts (record {
      command = command;
      arguments = arguments_of mode tools;
      workspace = workspace;
      limit = limit;
    })

    unfoldable pub check_tools : String → Timeout → Option String → Option (List String) → Decision
    check_tools workspace limit (some mode) (some (t ∷ tools)) =
        start_command workspace limit mode (t ∷ tools) (discover options.program)
    check_tools workspace limit _ _ = refused invalid_options

    unfoldable pub check_timeout : String → Timeout → Decision
    check_timeout workspace timeout =
        if not (is_positive_finite timeout)
        then refused invalid_task
        else check_tools workspace timeout (canonical_mode options.permission_mode)
            (canonical_tools (normalize_tools options.tools))

    unfoldable pub check_task : String → String → Decision
    check_task repo_root workspace =
        if site.exists (site.join (site.join repo_root ".project") "STOP")
        then refused stop_active
        else if not task.authorized
        then refused unauthorized
        else if not (allowed_branch task.branch)
        then refused main_branch_forbidden
        else check_timeout workspace task.timeout

    unfoldable pub check_workspace : Option String → Option String → Decision
    check_workspace (some repo_root) (some workspace) =
        if is_isolated repo_root workspace
        then check_task repo_root workspace
        else refused workspace_invalid
    check_workspace _ _ = refused workspace_invalid

    unfoldable pub check_created : Option String → Decision
    check_created none = refused workspace_invalid
    check_created (some workspace) =
        check_workspace (site.real options.repo_root) (site.real workspace)

    -- `executeTask` up to the start of the process
    unfoldable pub decide_launch : Decision
    decide_launch = check_created site.new_workspace
