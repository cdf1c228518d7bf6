-- ===== src/Firewall/Threads.antt =====
-- The thread bindings of tools/orchestrator-firewall/src/ledger.mjs: `appendThreadBinding` and
-- `findThreadBinding`, with the bindings that the hook behind a tool makes
-- (tools/orchestrator-firewall/bin/mihver-firewall.mjs). An empty thread id is `none`, and a
-- sandbox is a text or `undefined`. `canonicalJson` writes `undefined` into the text that is hashed,
-- and `JSON.stringify` leaves the key out of the line, so that it is absent when the line is read.
pub mod Sole
use mihver.Prelude.{
  String, Bool, true, false, ◌&&◌, Option, none, some, List, [], ◌∷◌, ◌++◌, ◌==◌, any, keep, find,
  if◌then◌else◌,
}
use mihver.Json.{Json, null, num, str}
use mihver.Council.Hashes.{Sha}
use mihver.Firewall.Chain.{Entry, Store, verify_chain, append_record}

pub data Sandbox : Type 0 where
  given : String → Sandbox
  undefined absent : Sandbox

pub record Binding : Type 0 where
  pub thread_id : Option String
  pub role : String
  pub task_id : String
  pub scope_hash : String
  pub base_sha : Json
  pub sandbox : Sandbox
  pub session_id : String
  pub prompt_id : String
  pub started_at : String

pub data BindingStatus : Type 0 where
  unbound bound conflict : BindingStatus

pub record ThreadRecord : Type 0 where
  pub binding : Binding
  pub status : BindingStatus

binding_status_name : BindingStatus → String
binding_status_name unbound = "UNBOUND"
binding_status_name bound = "BOUND"
binding_status_name conflict = "THREAD_BINDING_CONFLICT"

thread_json : Option String → Json
thread_json none = null
thread_json (some t) = str t

sandbox_json : Sandbox → List (String × Json)
sandbox_json (given s) = ("sandbox", str s) ∷ []
sandbox_json undefined = ("sandbox", num "undefined") ∷ []
sandbox_json absent = []

unfoldable pub binding_json : ThreadRecord → List (String × Json)
unfolding binding_status_name thread_json sandbox_json
binding_json r =
    ("threadId", thread_json r.binding.thread_id)
    ∷ ("role", str r.binding.role)
    ∷ ("taskId", str r.binding.task_id)
    ∷ ("scopeHash", str r.binding.scope_hash)
    ∷ ("baseSha", r.binding.base_sha)
    ∷ ("sessionId", str r.binding.session_id)
    ∷ ("promptId", str r.binding.prompt_id)
    ∷ ("startedAt", str r.binding.started_at)
    ∷ ("status", str (binding_status_name r.status))
    ∷ sandbox_json r.binding.sandbox

abbrev pub is_bound_status : BindingStatus → Bool
is_bound_status bound = true
is_bound_status _ = false

abbrev pub is_conflict : BindingStatus → Bool
is_conflict conflict = true
is_conflict _ = false

-- `["BOUND", "THREAD_BINDING_CONFLICT"].includes(status)`
abbrev pub claims_thread : BindingStatus → Bool
claims_thread unbound = false
claims_thread _ = true

unfoldable pub names_thread : String → Option String → Bool
names_thread t none = false
names_thread t (some u) = u == t

unfoldable pub of_thread : String → Entry ThreadRecord → Bool
of_thread t e = names_thread t e.fields.binding.thread_id

unfoldable pub claims : String → Entry ThreadRecord → Bool
claims t e = of_thread t e && claims_thread e.fields.status

-- The first that is bound, unless one is in conflict.
unfoldable pub find_in : List (Entry ThreadRecord) → Option ThreadRecord
find_in matching =
    if any (λ e. is_conflict e.fields.status) matching
    then none
    else elim (find (λ e. is_bound_status e.fields.status) matching) [
      | none ↦ none
      | some e ↦ some e.fields
    ]

-- A record as it is read from the line that `JSON.stringify` wrote of it.
unfoldable pub sandbox_as_read : Sandbox → Sandbox
sandbox_as_read (given s) = given s
sandbox_as_read other = absent

unfoldable pub as_read : Entry ThreadRecord → Entry ThreadRecord
as_read e = record e {
  fields = record e.fields {
    binding = record e.fields.binding { sandbox = sandbox_as_read e.fields.binding.sandbox };
  };
}

-- `appendRecord`, of a thread: the store is what will be read.
unfoldable pub store_as_read :
    Store ThreadRecord
    → Option (Store ThreadRecord × Entry ThreadRecord)
    → Option (Store ThreadRecord × Entry ThreadRecord)
store_as_read before none = none
store_as_read before (some (after, e)) =
    some (record after { records = before.records ++ as_read e ∷ [] }, e)

module _ (sha256 : Sha) where
  unfoldable pub append_thread_record :
      Store ThreadRecord → ThreadRecord → Option (Store ThreadRecord × Entry ThreadRecord)
  append_thread_record s r = store_as_read s (append_record sha256 binding_json s r)

  -- `appendThreadBinding`; `none` if it throws.
  unfoldable pub append_thread_binding :
      Store ThreadRecord → Binding → Option (Store ThreadRecord × Entry ThreadRecord)
  append_thread_binding s b = elim b.thread_id [
    | none ↦ append_thread_record s (record { binding = b; status = unbound })
    | some t ↦
        if verify_chain sha256 binding_json s
        then if any (claims t) s.records
          then append_thread_record s (record { binding = b; status = conflict })
          else append_thread_record s (record { binding = b; status = bound })
        else none
  ]

  -- `findThreadBinding`; the outer `none` if it throws.
  unfoldable pub find_thread_binding : Store ThreadRecord → String → Option (Option ThreadRecord)
  find_thread_binding s t =
      if verify_chain sha256 binding_json s
      then some (find_in (keep (of_thread t) s.records))
      else none
