-- ===== src/Authorization/Executor/Verified.antt =====
-- Receipts of the executor and the verifier.
use mathlib.Core.Option.{some-injective}
use mihver.Prelude.{
  ◌∙◌, false, none, ◌++◌, Bool, includes, ap, ℕ, String, ◌≡◌, refl, true, some, List, [], ◌∷◌,
  arith, Option-cases, Option, inl, inr, eq_iff, eq_refl, same_codes,
}
use mihver.Json.{Json}
use mihver.Council.Hashes.{Sha}
use mihver.Council.Proof.Verify.{}
use mihver.Authorization.Executor.{
  fake_actions, Receipt, execute_on, execute_fake_action, Requested,
  compute_fake_deterministic_result, DeterministicResult, verify_fake_execution_receipt, is_id,
  unless, compute_fake_input_hash, content_errors, ReceiptError, receipt_body, result_errors,
  compute_fake_receipt_hash, stringify_result,
}

same_codes_refl : (xs : List ℕ) → same_codes xs xs ≡ true
unfolding same_codes
same_codes_refl [] = refl
same_codes_refl (x ∷ xs) = ground (arith, same_codes_refl xs)

-- What the executor's receipt contains.
pub executed :
    (sha256 : Sha) (run_id : String) (n : ℕ) (id action : String) (input : Option Json)
    (r : Receipt)
    → execute_fake_action sha256 run_id n id action input ≡ some r
    → (json : Json) × (input ≡ some json) × (execute_on sha256 run_id n id action json ≡ some r)
unfolding execute_fake_action
executed sha256 run_id n id action input r h = elim (Option-cases input) [
  | inl e ↦ absurd (ground arith)
  | inr (json, e) ↦ (json, e, ground arith)
]

-- The request that a receipt answers.
abbrev pub request_of : String → ℕ → String → String → Option Json → Requested
request_of run_id n id action input = record {
  loop_run_id = run_id;
  iteration = n;
  action = action;
  input = input;
  envelope_authorization_id = some id;
  canonical_authorization_id = some id;
}

known_action :
    (sha256 : Sha) (action hash : String) (d : DeterministicResult)
    → compute_fake_deterministic_result sha256 action hash ≡ some d
    → includes fake_actions action ≡ true
unfolding compute_fake_deterministic_result
known_action sha256 action hash d h = ground arith

result_of :
    (sha256 : Sha) (run_id : String) (n : ℕ) (id action : String) (json : Json) (r : Receipt)
    → execute_on sha256 run_id n id action json ≡ some r
    → (d : DeterministicResult) × (compute_fake_deterministic_result sha256 action
          (compute_fake_input_hash sha256 json)
        ≡ some d)
      × (r.body ≡ receipt_body run_id n id action (compute_fake_input_hash sha256 json) d)
      × (r.receipt_hash ≡ compute_fake_receipt_hash sha256 r.body)
unfolding execute_on
result_of sha256 run_id n id action json r h =
    elim (Option-cases
      (compute_fake_deterministic_result sha256 action (compute_fake_input_hash sha256 json))) [
        | inl e ↦ absurd (ground arith)
        | inr (d, e) ↦ (d, e, ground arith, ground arith)
      ]

-- Whatever the executor does, the verifier accepts: a receipt verifies against the request that it
-- was made for, for any digest function.
pub verify-execute_fake_action :
    (sha256 : Sha) (run_id : String) (n : ℕ) (id action : String) (input : Option Json)
    (r : Receipt)
    → execute_fake_action sha256 run_id n id action input ≡ some r
    → verify_fake_execution_receipt sha256 (some r) (request_of run_id n id action input) ≡ []
unfolding verify_fake_execution_receipt content_errors result_errors unless is_id receipt_body
verify-execute_fake_action sha256 run_id n id action input r h =
    let (json, is_json, on) = executed sha256 run_id n id action input r h in
    let (d, is_d, body, hashed) = result_of sha256 run_id n id action json r on in
    ground (
      arith,
      eq_refl run_id,
      eq_refl id,
      eq_refl action,
      eq_refl (compute_fake_input_hash sha256 json),
      eq_iff r.receipt_hash (compute_fake_receipt_hash sha256 r.body),
      same_codes_refl (stringify_result d),
      known_action sha256 action (compute_fake_input_hash sha256 json) d is_d,
    )

-- A receipt that the verifier accepts for a canonicalizable input names the run, the iteration, the
-- action and the authorization of the request, in which envelope and allowance agree, and carries
-- the digests of the request's input and of its own content.
pub record Faithful (sha256 : Sha) (r : Receipt) (q : Requested) (json : Json) : Type 0 where
  pub run : r.body.loop_run_id ≡ q.loop_run_id
  pub iteration : r.body.iteration ≡ q.iteration
  pub action : r.body.action ≡ q.action
  pub known : includes fake_actions q.action ≡ true
  pub envelope_id : q.envelope_authorization_id ≡ some r.body.authorization_id
  pub allowance_id : q.canonical_authorization_id ≡ some r.body.authorization_id
  pub input_hash : r.body.input_hash ≡ compute_fake_input_hash sha256 json
  pub receipt_hash : r.receipt_hash ≡ compute_fake_receipt_hash sha256 r.body

pub is_id-eq : (o : Option String) (id : String) → is_id o id ≡ true → o ≡ some id
unfolding is_id
is_id-eq none id h = cc
is_id-eq (some i) id h = ap some ((eq_iff i id).0 h)

unless-empty :
    (ok : Bool) (e : ReceiptError) (rest : List ReceiptError)
    → unless ok e ++ rest ≡ []
    → (ok ≡ true) × (rest ≡ [])
unfolding unless
unless-empty true e rest h = (refl, h)
unless-empty false e rest h = absurd (ground arith)

unless-ok : (ok : Bool) (e : ReceiptError) → unless ok e ≡ [] → ok ≡ true
unfolding unless
unless-ok true e h = refl
unless-ok false e h = absurd (ground arith)

result_errors_sound :
    (sha256 : Sha) (r : Receipt) (o : Option DeterministicResult)
    → result_errors sha256 r o ≡ []
    → r.receipt_hash ≡ compute_fake_receipt_hash sha256 r.body
unfolding result_errors
result_errors_sound sha256 r none h = absurd (ground arith)
result_errors_sound sha256 r (some d) h = (eq_iff _ _).0 (unless-ok _ _ (unless-empty _ _ _ h).1)

content_errors_sound :
    (sha256 : Sha) (r : Receipt) (action : String) (o : Option Json) (json : Json)
    → o ≡ some json
    → content_errors sha256 r action o ≡ []
    → (r.body.input_hash ≡ compute_fake_input_hash sha256 json)
      × (r.receipt_hash ≡ compute_fake_receipt_hash sha256 r.body)
unfolding content_errors
content_errors_sound sha256 r action none json e h = absurd (ground arith)
content_errors_sound sha256 r action (some input) json e h =
    let (same, rest) = unless-empty _ _ _ h in
    (
      (eq_iff r.body.input_hash (compute_fake_input_hash sha256 input)).0 same
          ∙ ap (compute_fake_input_hash sha256) (some-injective input json e),
      result_errors_sound sha256 r _ rest,
    )

-- For a canonicalizable input, the verifier accepts only a receipt that names the run, iteration,
-- known action and authorization that were requested, that last one in both the envelope and the
-- allowance, and that carries the digests of the requested input and of its own body.
pub verify-Faithful :
    (sha256 : Sha) (r : Receipt) (q : Requested) (json : Json)
    → q.input ≡ some json
    → verify_fake_execution_receipt sha256 (some r) q ≡ []
    → Faithful sha256 r q json
unfolding verify_fake_execution_receipt
verify-Faithful sha256 r q json e h =
    let (ids, h1) = unless-empty _ _ _ h in
    let (run, h2) = unless-empty _ _ _ h1 in
    let (iteration, h3) = unless-empty _ _ _ h2 in
    let (action, h4) = unless-empty _ _ _ h3 in
    let (input, hashed) = content_errors_sound sha256 r q.action q.input json e h4 in
    record {
      run = (eq_iff _ _).0 run;
      iteration = ground arith;
      action = (eq_iff _ _).0 (ground arith);
      known = ground arith;
      envelope_id = is_id-eq q.envelope_authorization_id _ (ground arith);
      allowance_id = is_id-eq q.canonical_authorization_id _ (ground arith);
      input_hash = input;
      receipt_hash = hashed;
    }

pub execute_fake_action-authorization_id :
    (sha256 : Sha) (run_id : String) (n : ℕ) (id action : String) (input : Option Json)
    (r : Receipt)
    → execute_fake_action sha256 run_id n id action input ≡ some r
    → r.body.authorization_id ≡ id
unfolding receipt_body
execute_fake_action-authorization_id sha256 run_id n id action input r h =
    let (json, is_json, on) = executed sha256 run_id n id action input r h in
    let (d, is_d, body, hashed) = result_of sha256 run_id n id action json r on in
    ap (λ b. b.authorization_id) body
