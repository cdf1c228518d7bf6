-- ===== src/Firewall/Delegation.antt =====
-- The delegations of tools/orchestrator-firewall/src/delegation.mjs.
-- On what `JSON.parse` gives, `canonicalJson` writes the text that `canonicalizeJson` writes.
pub mod Header
pub mod Confined
use Prim.Native.String
use mihver.Prelude.{
  ℕ, String, Bool, true, false, not, ◌&&◌, ◌||◌, Option, none, some, List, [], ◌∷◌, ◌==◌, includes,
  nonempty, leb, eqb, length, codes, cut, strip_prefix, strip_suffix, trim, if◌then◌else◌,
  same_codes,
}
use mihver.Json.{
  Json, Items, Fields, str, arr, obj, nil, cons, end, field, units, canonicalize_json,
}
use mihver.Council.Hashes.{Sha}
use mihver.Firewall.Machine.{Machine, RealPath, found, beneath}

pub record Meta : Type 0 where
  pub task_id : String
  pub role : String
  pub scope : String
  pub base_sha : Json

pub data Delegation : Type 0 where
  delegated : Meta → String → Delegation
  -- DELEGATION_METADATA_INVALID, with its detail
  metadata_refused : String → Delegation

-- A value of the input that may be absent or of another type.
pub data Given : Type 0 where
  undefined other_type : Given
  text : String → Given

pub data Config : Type 0 where
  no_config not_an_object : Config
  overrides : List String → Config

-- `tool_input`. A field is `none` if it is no text.
pub record ToolInput : Type 0 where
  pub prompt : Option String
  pub file_path : Option String
  pub command : Option String
  pub thread_id : Option String
  pub cwd : Option String
  pub sandbox : Option String
  pub config : Config
  pub approval_policy : Given
  -- those of `base-instructions`, `developer-instructions` and `model` that are given
  pub audit : List (String × String)

unfoldable pub value_at : String → Fields → Option Json
value_at key end = none
value_at key (field k v rest) = let later = value_at key rest in if k == key then some v else later

unfoldable pub text_value : Option Json → Option String
text_value (some (str s)) = some s
text_value _ = none

-- `String(value)`, as far as it can consist of forty digits: an array of one value is its text.
unfoldable mutual
  pub spelled : Json → String
  spelled (str s) = s
  spelled (arr items) = spelled_items items
  spelled _ = ""

  pub spelled_items : Items → String
  spelled_items (cons v nil) = spelled v
  spelled_items _ = ""

is_hex_digit : ℕ → Bool
is_hex_digit c = leb b'0' c && leb c b'9' || leb b'a' c && leb c b'f' || leb b'A' c && leb c b'F'

all_digits : List ℕ → Bool
all_digits [] = true
all_digits (c ∷ cs) = is_hex_digit c && all_digits cs

-- `/^[0-9a-fA-F]{40}$/`
unfoldable pub is_hex40_any_case : String → Bool
unfolding is_hex_digit all_digits
is_hex40_any_case s = eqb (length (codes s)) 40 && all_digits (codes s)

base_sha_of : Option Json → Option Json
base_sha_of none = none
base_sha_of (some v) = if is_hex40_any_case (spelled v) then some v else none

abbrev pub roles : List String
roles = "SCOUT" ∷ "IMPLEMENTER" ∷ "REVIEWER" ∷ "VERIFIER" ∷ []

-- The fields of the metadata, if they are what is required.
unfoldable pub meta_of_fields :
    Option String → Option String → Option String → Option String → Option Json → Option Meta
meta_of_fields (some version) (some task) (some role) (some scope) (some base) =
    if version == "1" && nonempty task && includes roles role && nonempty scope
    then some (record { task_id = task; role = role; scope = scope; base_sha = base })
    else none
meta_of_fields _ _ _ _ _ = none

unfoldable pub meta_of : Json → Option Meta
unfolding base_sha_of
meta_of (obj fields) =
    meta_of_fields (text_value (value_at "protocolVersion" fields))
      (text_value (value_at "taskId" fields)) (text_value (value_at "role" fields))
      (text_value (value_at "scope" fields)) (base_sha_of (value_at "baseSha" fields))
meta_of _ = none

without_return : String → String
without_return line = elim (strip_suffix "\r" line) [ none ↦ line | some rest ↦ rest ]

first_line_of : String × Option String → String
first_line_of (line, none) = line
first_line_of (line, some rest) = without_return line

-- `prompt.split(/\r?\n/, 1)[0]`
unfoldable pub first_line : String → String
unfolding without_return first_line_of
first_line prompt = first_line_of (cut 10 prompt)

unfoldable pub decoded_as : String → Option Json → Option (Json × String)
decoded_as decoded none = none
decoded_as decoded (some v) = some (v, decoded)

unfoldable pub first_of : Option (Json × String) → Option (Json × String) → Option (Json × String)
first_of (some d) other = some d
first_of none other = other

-- The JSON value of a payload, with the text that it was parsed from.
unfoldable pub decode_payload : Machine → String → Option (Json × String)
decode_payload m payload =
    first_of (decoded_as payload (m.parse_json payload))
      (decoded_as (m.base64url_decode payload) (m.parse_json (m.base64url_decode payload)))

module _ (sha256 : Sha) (m : Machine) where
  unfoldable pub check_canonical : Json → String → Option Meta → Delegation
  check_canonical v decoded none = metadata_refused "required metadata fields are invalid"
  check_canonical v decoded (some meta) =
      if same_codes (canonicalize_json v) (units decoded)
      then delegated meta (sha256 (units meta.scope))
      else metadata_refused "metadata JSON is not canonical"

  unfoldable pub parse_header : Option String → Delegation
  parse_header none = metadata_refused "exact first-line header is missing"
  parse_header (some payload) = elim (decode_payload m payload) [
    | none ↦ metadata_refused "payload is not JSON or base64url JSON"
    | some vd ↦ check_canonical vd.0 vd.1 (meta_of vd.0)
  ]

  -- `parseDelegation`
  unfoldable pub parse_delegation : Option String → Delegation
  parse_delegation none = metadata_refused "prompt is missing"
  parse_delegation (some prompt) =
      parse_header (strip_prefix "MIHVER_DELEGATION_V1:" (first_line prompt))

module _ (m : Machine) where
  under_root : RealPath → RealPath → Bool
  under_root (found candidate) (found root) = beneath m candidate root
  under_root _ _ = false

  -- `delegationCwdInScope`
  unfoldable pub delegation_cwd_in_scope : String → String → Bool
  unfolding under_root
  delegation_cwd_in_scope cwd canonical_root =
      m.is_absolute cwd && under_root (m.realpath cwd) (m.realpath canonical_root)

  joined : List String → String
  joined [] = ""
  joined (k ∷ []) = k
  joined (k ∷ l ∷ ks) = String.◌++◌ k (String.◌++◌ ", " (joined (l ∷ ks)))

  -- The keys of a config: none is allowed.
  unfoldable pub config_refusal : Config → Option String
  unfolding joined
  config_refusal no_config = none
  config_refusal not_an_object = some "config must be an object"
  config_refusal (overrides []) = none
  config_refusal (overrides (k ∷ ks)) =
      some (String.◌++◌ "config overrides are forbidden: " (joined (k ∷ ks)))

  unfoldable pub approval_refusal : Given → Option String
  approval_refusal undefined = none
  approval_refusal other_type = some "approval-policy is invalid"
  approval_refusal (text p) =
      if p == "never" || p == "on-request" then none else some "approval-policy is invalid"

  unfoldable pub thread_refusal : Option String → Option String
  thread_refusal none = some "codex-reply threadId is missing"
  thread_refusal (some t) =
      if nonempty (trim t) then none else some "codex-reply threadId is missing"

  abbrev pub required_sandbox : String → String
  required_sandbox role = if role == "IMPLEMENTER" then "workspace-write" else "read-only"

  unfoldable pub sandbox_refusal : String → Option String → Option String
  sandbox_refusal role none =
      some (String.◌++◌ role (String.◌++◌ " requires " (required_sandbox role)))
  sandbox_refusal role (some sandbox) =
      if sandbox == "danger-full-access"
      then some "danger-full-access is forbidden"
      else if sandbox == required_sandbox role
      then none
      else some (String.◌++◌ role (String.◌++◌ " requires " (required_sandbox role)))

  unfoldable pub place_refusal : String → Option String → Option String → String → Option String
  place_refusal role none sandbox root = some "delegation cwd is required"
  place_refusal role (some cwd) sandbox root =
      if not (nonempty (trim cwd))
      then some "delegation cwd is required"
      else if not (delegation_cwd_in_scope cwd root)
      then some "delegation cwd is not a resolvable path inside the canonical repository"
      else sandbox_refusal role sandbox

  unfoldable pub or_else : Option String → Option String → Option String
  or_else (some detail) next = some detail
  or_else none next = next

  -- `validateDelegationParams`: the detail of a refusal, `none` if the parameters are valid.
  unfoldable pub params_refusal : Meta → ToolInput → String → Bool → Option String
  params_refusal meta input root reply = or_else (config_refusal input.config) (
      or_else (approval_refusal input.approval_policy) (
        if reply
        then thread_refusal input.thread_id
        else place_refusal meta.role input.cwd input.sandbox root))
