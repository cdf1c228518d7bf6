-- ===== src/Firewall/Policy.antt =====
-- Who calls a tool and which tools the main thread is denied:
-- tools/orchestrator-firewall/src/identity.mjs and policy.mjs.
-- An `agent_id` that is absent or no text is `none`.
use Prim.Native.String
use mihver.Prelude.{
  String, ◌||◌, Option, none, some, List, [], ◌∷◌, ◌==◌, nonempty, trim, if◌then◌else◌,
}

pub data Caller : Type 0 where
  subagent main_orchestrator : Caller

pub record ToolVerdict : Type 0 where
  pub code : String
  pub reason : String

-- `classify`
unfoldable pub classify : Option String → Caller
classify none = main_orchestrator
classify (some id) = if nonempty (trim id) then subagent else main_orchestrator

-- `MAIN_DENIED_TOOLS`
abbrev pub main_denied_tools : List String
main_denied_tools =
    "Read" ∷ "Grep" ∷ "Glob" ∷ "Edit" ∷ "Write" ∷ "NotebookEdit" ∷ "Bash" ∷ "WebSearch" ∷ "WebFetch"
    ∷ "Agent" ∷ []

-- The map `codes`
unfoldable pub denied_code : String → Option String
denied_code tool =
    if "Read" == tool || "Grep" == tool || "Glob" == tool
    then some "MAIN_DIRECT_READ_DENIED"
    else if "Edit" == tool || "Write" == tool || "NotebookEdit" == tool
    then some "MAIN_DIRECT_WRITE_DENIED"
    else if "Bash" == tool
    then some "MAIN_DIRECT_BASH_DENIED"
    else if "WebSearch" == tool || "WebFetch" == tool
    then some "MAIN_DIRECT_RESEARCH_DENIED"
    else if "Agent" == tool
    then some "MAIN_NATIVE_SUBAGENT_DENIED"
    else none

denial_text : String → String
denial_text tool =
    if tool == "Agent"
    then "native subagents cannot produce Codex delegation receipts and would launder direct work"
    else String.◌++◌ "Claude MAIN must delegate " (String.◌++◌ tool " work through Codex MCP")

-- `mainToolVerdict`
unfoldable pub main_tool_verdict : String → Option ToolVerdict
unfolding denial_text
main_tool_verdict tool = elim (denied_code tool) [
  | none ↦ none
  | some code ↦
      some (record { code = code; reason = String.◌++◌ code (String.◌++◌ ": " (denial_text tool)) })
]
