-- ===== src/Firewall/Receipts.antt =====
-- The receipts of tools/orchestrator-firewall/src/ledger.mjs: `appendStarted`, `appendCompletion`
-- and `appendInvalid`, and the record of a stop that is blocked
-- (tools/orchestrator-firewall/bin/mihver-firewall.mjs).
-- Times are given, as the callers may; `undefined` and empty optional fields are `none`. The base
-- commit of a delegation is the JSON value that its metadata hold.
pub mod Once
pub mod Backed
use Prim.Native.String
use mihver.Prelude.{
  String, Bool, true, false, ◌&&◌, Option, none, some, List, [], ◌∷◌, ◌++◌, map, ◌==◌, any,
  if◌then◌else◌,
}
use mihver.Json.{Json, null, str, units}
use mihver.Council.Hashes.{Sha}
use mihver.Firewall.Chain.{Entry, Store, verify_chain, append_record}

pub data ReceiptStatus : Type 0 where
  started completed failed metadata_invalid stop_blocked : ReceiptStatus

pub record DelegationRecord : Type 0 where
  pub session_id : String
  pub prompt_id : String
  pub tool_use_id : String
  pub task_id : String
  pub role : String
  pub scope_hash : String
  pub base_sha : Json
  pub started_at : String
  pub completed_at : Option String
  pub status : ReceiptStatus
  pub tool_name : String
  pub result_hash : Option String
  pub audit_hashes : List (String × String)
  pub thread_id : Option String
  pub workspace_fingerprint : Option String
  pub reason : Option String

status_name : ReceiptStatus → String
status_name started = "STARTED"
status_name completed = "COMPLETED"
status_name failed = "FAILED"
status_name metadata_invalid = "DELEGATION_METADATA_INVALID"
status_name stop_blocked = "STOP_BLOCKED"

text_or_null : Option String → Json
text_or_null none = null
text_or_null (some s) = str s

optional_text : String → Option String → List (String × Json)
optional_text key none = []
optional_text key (some s) = (key, str s) ∷ []

audit_json : List (String × String) → List (String × Json)
audit_json [] = []
audit_json ((key, hash) ∷ rest) = (key, str hash) ∷ audit_json rest

unfoldable pub delegation_json : DelegationRecord → List (String × Json)
unfolding status_name text_or_null optional_text audit_json
delegation_json r =
    ("protocolVersion", str "1")
    ∷ ("sessionId", str r.session_id)
    ∷ ("promptId", str r.prompt_id)
    ∷ ("toolUseId", str r.tool_use_id)
    ∷ ("taskId", str r.task_id)
    ∷ ("role", str r.role)
    ∷ ("scopeHash", str r.scope_hash)
    ∷ ("baseSha", r.base_sha)
    ∷ ("startedAt", str r.started_at)
    ∷ ("completedAt", text_or_null r.completed_at)
    ∷ ("status", str (status_name r.status))
    ∷ ("toolName", str r.tool_name)
    ∷ ("resultHash", text_or_null r.result_hash)
    ∷ (audit_json r.audit_hashes
        ++ (optional_text "threadId" r.thread_id
            ++ (optional_text "workspaceFingerprint" r.workspace_fingerprint
                ++ optional_text "reason" r.reason)))

-- The input of the hook before a tool runs, with the delegation that was parsed from it. `audit`
-- holds the inputs that are hashed for audit, those that are given.
pub record StartInput : Type 0 where
  pub session_id : String
  pub prompt_id : String
  pub tool_use_id : String
  pub tool_name : String
  pub task_id : String
  pub role : String
  pub scope_hash : String
  pub base_sha : Json
  pub audit : List (String × String)
  pub thread_id : Option String

-- The input of the hook behind a tool: the text that is hashed is that of the response or of the
-- error.
pub record EndInput : Type 0 where
  pub tool_use_id : String
  pub succeeded : Bool
  pub hashed_text : String
  pub workspace_fingerprint : Option String

abbrev pub Ledger : Type 0
Ledger = Store DelegationRecord

abbrev pub is_started : ReceiptStatus → Bool
is_started started = true
is_started _ = false

-- `["COMPLETED", "FAILED"].includes(status)`
abbrev pub is_ended : ReceiptStatus → Bool
is_ended completed = true
is_ended failed = true
is_ended _ = false

-- `[...records].reverse().find(...)`: the last STARTED record of the tool use.
unfoldable pub last_started : List (Entry DelegationRecord) → String → Option DelegationRecord
last_started [] id = none
last_started (e ∷ es) id = elim (last_started es id) [
  | some r ↦ some r
  | none ↦ if is_started e.fields.status && e.fields.tool_use_id == id then some e.fields else none
]

unfoldable pub ends_use : String → Entry DelegationRecord → Bool
ends_use id e = is_ended e.fields.status && e.fields.tool_use_id == id

module _ (sha256 : Sha) where
  hashed_audit : List (String × String) → List (String × String)
  hashed_audit [] = []
  hashed_audit ((key, text) ∷ rest) =
      (String.◌++◌ key "Hash", sha256 (units text)) ∷ hashed_audit rest

  unfoldable pub started_record : StartInput → String → DelegationRecord
  unfolding hashed_audit
  started_record input at = record {
    session_id = input.session_id;
    prompt_id = input.prompt_id;
    tool_use_id = input.tool_use_id;
    task_id = input.task_id;
    role = input.role;
    scope_hash = input.scope_hash;
    base_sha = input.base_sha;
    started_at = at;
    completed_at = none;
    status = started;
    tool_name = input.tool_name;
    result_hash = none;
    audit_hashes = hashed_audit input.audit;
    thread_id = input.thread_id;
    workspace_fingerprint = none;
    reason = none;
  }

  -- `appendStarted`
  unfoldable pub append_started :
      Ledger → StartInput → String → Option (Ledger × Entry DelegationRecord)
  append_started s input at = append_record sha256 delegation_json s (started_record input at)

  unfoldable pub ended_record : DelegationRecord → EndInput → String → DelegationRecord
  ended_record r input at = record r {
    completed_at = some at;
    status = if input.succeeded then completed else failed;
    result_hash = some (sha256 (units input.hashed_text));
    audit_hashes = [];
    workspace_fingerprint = if r.role == "VERIFIER" then input.workspace_fingerprint else none;
    reason = none;
  }

  -- `appendCompletion`; `none` if it throws.
  unfoldable pub append_completion :
      Ledger → EndInput → String → Option (Ledger × Entry DelegationRecord)
  append_completion s input at =
      if verify_chain sha256 delegation_json s
      then elim (last_started s.records input.tool_use_id) [
        | none ↦ none
        | some r ↦
            if any (ends_use input.tool_use_id) s.records
            then none
            else append_record sha256 delegation_json s (ended_record r input at)
      ]
      else none

  unfoldable pub invalid_record : StartInput → String → String → DelegationRecord
  invalid_record input detail now = record {
    session_id = input.session_id;
    prompt_id = input.prompt_id;
    tool_use_id = input.tool_use_id;
    task_id = "";
    role = "";
    scope_hash = "";
    base_sha = str "";
    started_at = now;
    completed_at = some now;
    status = metadata_invalid;
    tool_name = input.tool_name;
    result_hash = some (sha256 (units detail));
    audit_hashes = [];
    thread_id = none;
    workspace_fingerprint = none;
    reason = none;
  }

  -- `appendInvalid`
  unfoldable pub append_invalid :
      Ledger → StartInput → String → String → Option (Ledger × Entry DelegationRecord)
  append_invalid s input detail now =
      append_record sha256 delegation_json s (invalid_record input detail now)

-- What `stop` appends when it blocks.
unfoldable pub stop_record : String → String → String → String → DelegationRecord
stop_record session prompt reason now = record {
  session_id = session;
  prompt_id = prompt;
  tool_use_id = "";
  task_id = "";
  role = "";
  scope_hash = "";
  base_sha = str "";
  started_at = now;
  completed_at = some now;
  status = stop_blocked;
  tool_name = "Stop";
  result_hash = some "";
  audit_hashes = [];
  thread_id = none;
  workspace_fingerprint = none;
  reason = some reason;
}
