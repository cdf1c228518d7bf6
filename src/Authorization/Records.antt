-- ===== src/Authorization/Records.antt =====
-- The records of scripts/dev/authorization-binder.mjs, authorization-ledger-simulator.mjs and
-- canonical-record-hash.mjs, their digests and their tests.
use Prim.Native.String
use mihver.Prelude.{
  ℕ, String, Bool, true, false, not, ◌&&◌, Option, none, some, List, [], ◌∷◌, ◌++◌, map, ◌==◌,
  length, any, includes, set_size, leb, eqb, nonempty, is_hash64, is_hex40, if◌then◌else◌,
}
use mihver.Json.{Json, Items, null, bool, nat, str, arr, nil, cons, object, units}
use mihver.Council.Types.{
  RiskClass, r0, r1, r2, r3, r4, voted, missing, State, council_not_required, decided, no_quorum,
  denied, Disposition, not_required, council_approved, human_approval_required, without_quorum,
  hard_denied, RecordVote, DecisionRecord,
}
use mihver.Council.Hashes.{Sha, risk_name, digest, compute_decision_record_hash}

pub data TaskDisposition : Type 0 where
  in_progress complete_pending_human_review blocked : TaskDisposition

pub record TaskBody : Type 0 where
  pub task_id : String
  pub objective : String
  pub branch : String
  pub base_commit : String
  pub allowed_scope : List String
  pub forbidden_scope : Option (List String)
  pub disposition : TaskDisposition
  pub unresolved_risks : List String
  pub human_action_requested : String

pub record TaskRecord : Type 0 where
  pub body : TaskBody
  pub open body use *
  pub task_record_hash : String

-- `currentContext`, an own object with both texts.
pub record Context : Type 0 where
  pub context_hash : String
  pub repository_head : String

-- Code that is not in the repository: SHA-256 of node:crypto, the two ajv validators compiled from
-- the JSON schemas (on records of the right keys and types), and `Date.parse`, whose instants are
-- counted in milliseconds from the earliest one; `none` is NaN.
pub record External : Type 0 where
  pub sha256 : Sha
  pub validate_decision_record_shape : DecisionRecord → Bool
  pub validate_task_record_shape : TaskRecord → Bool
  pub date_parse : String → Option ℕ

pub data EnvelopeDisposition : Type 0 where
  pending_human_approval policy_satisfied : EnvelopeDisposition

pub record EnvelopeBody : Type 0 where
  pub protocol_version : String
  pub authorization_id : String
  pub decision_request_id : String
  pub record_hash : String
  pub candidate_hash : Option String
  pub task_id : String
  pub risk_class : RiskClass
  pub context_hash : String
  pub repository_head : String
  pub council_epoch_id : String
  pub stop_epoch : ℕ
  pub policy_version : String
  pub action_type : String
  pub allowed_scope : List String
  pub prohibited_effects : List String
  pub human_approval_required : Bool
  pub single_use : Bool
  pub disposition : EnvelopeDisposition

pub record Envelope : Type 0 where
  pub body : EnvelopeBody
  pub open body use *
  pub envelope_hash : String

-- `POLICY_VERSION`
abbrev pub supported_policy : String
supported_policy = "authorization-policy/v1"

abbrev pub prohibited : List String
prohibited =
    "GIT_PUSH" ∷ "GIT_FORCE_PUSH" ∷ "PR_CREATE" ∷ "PR_MERGE" ∷ "MAIN_BRANCH_MUTATION"
    ∷ "PUBLICATION_BROKER_INVOCATION" ∷ "CREDENTIAL_ACCESS" ∷ "TOOL_EXECUTION"
    ∷ "COUNCIL_SCOPE_SELF_EXPANSION" ∷ "EXECUTION_GATEWAY_BYPASS" ∷ []

unfoldable pub texts_json : List String → Items
texts_json [] = nil
texts_json (s ∷ rest) = cons (str s) (texts_json rest)

text_or_null : Option String → Json
text_or_null none = null
text_or_null (some s) = str s

task_disposition_name : TaskDisposition → String
task_disposition_name in_progress = "IN_PROGRESS"
task_disposition_name complete_pending_human_review = "COMPLETE_PENDING_HUMAN_REVIEW"
task_disposition_name blocked = "BLOCKED"

optional_scope : Option (List String) → List (String × Json)
optional_scope none = []
optional_scope (some tokens) = ("forbiddenScope", arr (texts_json tokens)) ∷ []

unfoldable pub task_json : TaskBody → Json
unfolding task_disposition_name optional_scope
task_json t = object (
    ("taskId", str t.task_id)
    ∷ ("objective", str t.objective)
    ∷ ("branch", str t.branch)
    ∷ ("baseCommit", str t.base_commit)
    ∷ ("allowedScope", arr (texts_json t.allowed_scope))
    ∷ ("disposition", str (task_disposition_name t.disposition))
    ∷ ("unresolvedRisks", arr (texts_json t.unresolved_risks))
    ∷ ("humanActionRequested", str t.human_action_requested)
    ∷ optional_scope t.forbidden_scope)

-- `computeTaskRecordHash` of the record without its hash
unfoldable pub compute_task_record_hash : Sha → TaskBody → String
compute_task_record_hash sha256 t = digest sha256 "MIHVER:TaskRecord:v1\0" (task_json t)

abbrev pub envelope_disposition_name : EnvelopeDisposition → String
envelope_disposition_name pending_human_approval = "PENDING_HUMAN_APPROVAL"
envelope_disposition_name policy_satisfied = "POLICY_SATISFIED"

unfoldable pub envelope_json : EnvelopeBody → Json
unfolding text_or_null
envelope_json e = object (
    ("protocolVersion", str e.protocol_version)
    ∷ ("authorizationId", str e.authorization_id)
    ∷ (
      "decisionRecordRef",
      object (
          ("decisionRequestId", str e.decision_request_id)
          ∷ ("recordHash", str e.record_hash)
          ∷ []),
    )
    ∷ ("candidateHash", text_or_null e.candidate_hash)
    ∷ ("taskId", str e.task_id)
    ∷ ("riskClass", str (risk_name e.risk_class))
    ∷ ("contextHash", str e.context_hash)
    ∷ ("repositoryHead", str e.repository_head)
    ∷ ("councilEpochId", str e.council_epoch_id)
    ∷ ("stopEpoch", nat e.stop_epoch)
    ∷ ("policyVersion", str e.policy_version)
    ∷ ("actionType", str e.action_type)
    ∷ ("allowedScope", arr (texts_json e.allowed_scope))
    ∷ ("prohibitedEffects", arr (texts_json e.prohibited_effects))
    ∷ (
      "humanApproval",
      object (("required", bool e.human_approval_required) ∷ ("grantRef", null) ∷ []),
    )
    ∷ ("singleUse", bool e.single_use)
    ∷ ("disposition", str (envelope_disposition_name e.disposition))
    ∷ [])

unfoldable pub compute_authorization_envelope_hash : Sha → EnvelopeBody → String
compute_authorization_envelope_hash sha256 e =
    digest sha256 "MIHVER:AuthorizationEnvelope:v1\0" (envelope_json e)

-- The identity of an authorization: the digest of `${decisionRequestId}\0${recordHash}`.
unfoldable pub compute_authorization_id : Sha → String → String → String
compute_authorization_id sha256 request_id record_hash = String.◌++◌ "sha256:" (
    sha256 (
      units "MIHVER:AuthorizationEnvelope:AuthorizationId:v1\0"
      ++ units (String.◌++◌ request_id (String.◌++◌ "\0" record_hash))))

-- `RISK_DISPOSITIONS`
unfoldable pub risk_disposition : RiskClass → Disposition
risk_disposition r0 = not_required
risk_disposition r1 = council_approved
risk_disposition r2 = council_approved
risk_disposition r3 = human_approval_required
risk_disposition r4 = hard_denied

abbrev pub same_disposition : Disposition → Disposition → Bool
same_disposition not_required not_required = true
same_disposition council_approved council_approved = true
same_disposition human_approval_required human_approval_required = true
same_disposition without_quorum without_quorum = true
same_disposition hard_denied hard_denied = true
same_disposition _ _ = false

-- Whether state and disposition are the terminal pair that the risk class expects.
unfoldable pub terminal_pair : RiskClass → State → Disposition → Bool
unfolding risk_disposition
terminal_pair r0 council_not_required not_required = true
terminal_pair r0 _ _ = false
terminal_pair r4 denied hard_denied = true
terminal_pair r4 _ _ = false
terminal_pair risk no_quorum without_quorum = true
terminal_pair risk decided d = same_disposition d (risk_disposition risk)
terminal_pair risk _ _ = false

abbrev is_immediate : RiskClass → Bool
is_immediate r0 = true
is_immediate r4 = true
is_immediate _ = false

abbrev is_none {ℓ} : {A : Type ℓ} → Option A → Bool
is_none none = true
is_none (some a) = false

abbrev no_items : List RecordVote → Bool
no_items [] = true
no_items (v ∷ vs) = false

null_or_equal : Option String → Option String → Bool
null_or_equal none none = true
null_or_equal (some a) (some b) = a == b
null_or_equal _ _ = false

-- A missing vote has no candidate; a cast one names the record's.
unfoldable pub vote_consistent : Option String → RecordVote → Bool
unfolding null_or_equal
vote_consistent candidate v = elim v.vote_value [
  | missing ↦ is_none v.candidate_hash
  | voted _ ↦ null_or_equal v.candidate_hash candidate
]

some_and : (String → Bool) → Option String → Bool
some_and test none = false
some_and test (some s) = test s

unfoldable pub council_consistent : DecisionRecord → Bool
unfolding some_and vote_consistent
council_consistent r =
    some_and is_hash64 r.body.candidate_hash
    && some_and nonempty r.body.proposer_seat_id
    && eqb (length r.body.votes) 3
    && eqb (set_size (map (λ v. v.seat_id) r.body.votes)) 3
    && not (any (λ v. not (vote_consistent r.body.candidate_hash v)) r.body.votes)

module _ (ext : External) where
  -- `validDecisionRecord`, the same in both files
  unfoldable pub valid_decision_record : DecisionRecord → Bool
  valid_decision_record r =
      ext.validate_decision_record_shape r
      && terminal_pair r.body.risk_class r.body.state r.body.disposition
      && (if is_immediate r.body.risk_class
          then is_none r.body.candidate_hash
            && is_none r.body.proposer_seat_id
            && no_items r.body.votes
          else council_consistent r)
      && compute_decision_record_hash ext.sha256 r.body == r.record_hash

  unfoldable pub valid_task_record : TaskRecord → Bool
  valid_task_record t =
      ext.validate_task_record_shape t
      && compute_task_record_hash ext.sha256 t.body == t.task_record_hash

unfoldable pub valid_context : Context → Bool
valid_context c = is_hash64 c.context_hash && is_hex40 c.repository_head

-- `Number.isSafeInteger(value) && value >= 0`; `none` is a value that is no non-negative integer.
unfoldable pub valid_stop_epoch : Option ℕ → Bool
valid_stop_epoch none = false
valid_stop_epoch (some n) = leb n 9007199254740991

unfoldable pub scope_from : List String → List String → List String → List String
scope_from forbidden seen [] = []
scope_from forbidden seen (token ∷ tokens) =
    let rest = scope_from forbidden seen tokens in
    let more = token ∷ scope_from forbidden (token ∷ seen) tokens in
    if not (includes forbidden token) && not (includes seen token) then more else rest

unfoldable pub or_empty : Option (List String) → List String
or_empty none = []
or_empty (some tokens) = tokens

-- `deriveScope` of the binder: the allowed tokens in order, without the
-- forbidden ones and without repetitions.
unfoldable pub derive_scope : TaskBody → List String
unfolding scope_from or_empty
derive_scope t = scope_from (or_empty t.forbidden_scope) [] t.allowed_scope
