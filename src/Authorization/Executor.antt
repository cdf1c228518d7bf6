-- ===== src/Authorization/Executor.antt =====
-- scripts/dev/fake-executor.mjs and scripts/dev/authorization-verifier.mjs.
-- A receipt has the executor's keys and types. The run's identity and the iteration that the
-- verifier is asked about are a text and a number, as the loop passes them. An action that is no
-- text is refused like a text that is no action.
pub mod Verified
use Prim.Native.String
use mihver.Prelude.{
  ℕ, String, Bool, true, false, not, ◌&&◌, Option, none, some, List, [], ◌∷◌, ◌++◌, ◌==◌, leb, eqb,
  nonempty, includes, codes, if◌then◌else◌, same_codes,
}
use mihver.Json.{Json, nat, str, object, quote}
use mihver.Council.Hashes.{Sha, digest}
use mihver.Council.Proof.Verify.{}

-- `FAKE_ACTIONS`
abbrev pub fake_actions : List String
fake_actions = "FAKE_WRITE_ARTIFACT" ∷ "FAKE_COMPUTE" ∷ "FAKE_NOOP" ∷ []

pub record DeterministicResult : Type 0 where
  pub simulation : String
  pub would_perform : String
  pub result_hash : String

pub record ReceiptBody : Type 0 where
  pub protocol_version : String
  pub kind : String
  pub loop_run_id : String
  pub iteration : ℕ
  pub authorization_id : String
  pub action : String
  pub input_hash : String
  pub deterministic_result : DeterministicResult

pub record Receipt : Type 0 where
  pub body : ReceiptBody
  pub open body use *
  pub receipt_hash : String

unfoldable pub compute_fake_input_hash : Sha → Json → String
compute_fake_input_hash sha256 input = digest sha256 "MIHVER:FakeExecutionInput:v1\0" input

unfoldable pub receipt_json : ReceiptBody → Json
receipt_json b = object (
    ("protocolVersion", str b.protocol_version)
    ∷ ("kind", str b.kind)
    ∷ ("loopRunId", str b.loop_run_id)
    ∷ ("iteration", nat b.iteration)
    ∷ ("authorizationId", str b.authorization_id)
    ∷ ("action", str b.action)
    ∷ ("inputHash", str b.input_hash)
    ∷ (
      "deterministicResult",
      object (
          ("simulation", str b.deterministic_result.simulation)
          ∷ ("wouldPerform", str b.deterministic_result.would_perform)
          ∷ ("resultHash", str b.deterministic_result.result_hash)
          ∷ []),
    )
    ∷ [])

unfoldable pub compute_fake_receipt_hash : Sha → ReceiptBody → String
compute_fake_receipt_hash sha256 b =
    digest sha256 "MIHVER:FakeExecutionReceipt:v1\0" (receipt_json b)

unfoldable pub would_perform_of : String → String
would_perform_of action =
    if action == "FAKE_WRITE_ARTIFACT"
    then "DESCRIBE_ARTIFACT_WRITE_ONLY"
    else if action == "FAKE_COMPUTE"
    then "DESCRIBE_COMPUTATION_ONLY"
    else "NO_OPERATION"

-- `none` is the TypeError of an action that is not known.
unfoldable pub compute_fake_deterministic_result :
    Sha → String → String → Option DeterministicResult
compute_fake_deterministic_result sha256 action input_hash =
    if not (includes fake_actions action)
    then none
    else some (record {
      simulation = action;
      would_perform = would_perform_of action;
      result_hash =
          digest sha256 "MIHVER:FakeExecutionResult:v1\0"
            (object (("action", str action) ∷ ("inputHash", str input_hash) ∷ []));
    })

unfoldable pub receipt_body :
    String → ℕ → String → String → String → DeterministicResult → ReceiptBody
receipt_body run_id iteration id action input_hash result = record {
  protocol_version = "1.0.0";
  kind = "FakeExecutionReceipt";
  loop_run_id = run_id;
  iteration = iteration;
  authorization_id = id;
  action = action;
  input_hash = input_hash;
  deterministic_result = result;
}

unfoldable pub execute_on : Sha → String → ℕ → String → String → Json → Option Receipt
execute_on sha256 run_id iteration id action input =
    let input_hash = compute_fake_input_hash sha256 input in
    elim (compute_fake_deterministic_result sha256 action input_hash) [
      | none ↦ none
      | some result ↦
          let body = receipt_body run_id iteration id action input_hash result in
          some (record { body = body; receipt_hash = compute_fake_receipt_hash sha256 body })
    ]

-- `executeFakeAction`. The input is `some` its canonicalizable value, or `none` if
-- `canonicalizeJson` throws on it; the result `none` is the TypeError.
unfoldable pub execute_fake_action :
    Sha → String → ℕ → String → String → Option Json → Option Receipt
execute_fake_action sha256 run_id iteration id action input =
    if not (nonempty run_id && leb 1 iteration && nonempty id && includes fake_actions action)
    then none
    else elim input [ none ↦ none | some json ↦ execute_on sha256 run_id iteration id action json ]

pub data ReceiptError : Type 0 where
  receipt_missing authorization_mismatch loop_run_mismatch iteration_mismatch : ReceiptError
  action_mismatch input_hash_mismatch deterministic_result_mismatch : ReceiptError
  receipt_hash_mismatch receipt_not_canonical : ReceiptError

unfoldable pub unless : Bool → ReceiptError → List ReceiptError
unless ok e = if ok then [] else e ∷ []

-- `JSON.stringify` of a deterministic result
unfoldable pub stringify_result : DeterministicResult → List ℕ
stringify_result d =
    codes "{\"simulation\":"
    ++ quote d.simulation
    ++ codes ",\"wouldPerform\":"
    ++ quote d.would_perform
    ++ codes ",\"resultHash\":"
    ++ quote d.result_hash
    ++ codes "}"

unfoldable pub is_id : Option String → String → Bool
is_id none id = false
is_id (some i) id = i == id

-- What the verifier is asked about.
pub record Requested : Type 0 where
  pub loop_run_id : String
  pub iteration : ℕ
  pub action : String
  pub input : Option Json
  -- `authorizationEnvelope?.authorizationId` and `allowance?.canonicalAuthorizationId`
  pub envelope_authorization_id : Option String
  pub canonical_authorization_id : Option String

module _ (sha256 : Sha) where
  unfoldable pub result_errors : Receipt → Option DeterministicResult → List ReceiptError
  result_errors r none = receipt_not_canonical ∷ []
  result_errors r (some d) =
      unless (same_codes (stringify_result r.body.deterministic_result) (stringify_result d))
        deterministic_result_mismatch
      ++ unless (r.receipt_hash == compute_fake_receipt_hash sha256 r.body) receipt_hash_mismatch

  unfoldable pub content_errors : Receipt → String → Option Json → List ReceiptError
  content_errors r action none = receipt_not_canonical ∷ []
  content_errors r action (some input) =
      let expected = compute_fake_input_hash sha256 input in
      unless (r.body.input_hash == expected) input_hash_mismatch
      ++ result_errors r (compute_fake_deterministic_result sha256 action expected)

  -- `verifyFakeExecutionReceipt`: the errors; the receipt is verified if there are none.
  unfoldable pub verify_fake_execution_receipt : Option Receipt → Requested → List ReceiptError
  verify_fake_execution_receipt none q = receipt_missing ∷ []
  verify_fake_execution_receipt (some r) q =
      unless
        (is_id q.envelope_authorization_id r.body.authorization_id
          && is_id q.canonical_authorization_id r.body.authorization_id)
        authorization_mismatch
      ++ (unless (r.body.loop_run_id == q.loop_run_id) loop_run_mismatch
          ++ (unless (eqb r.body.iteration q.iteration) iteration_mismatch
              ++ (unless (includes fake_actions q.action && r.body.action == q.action)
                    action_mismatch
                  ++ content_errors r q.action q.input)))
