-- ===== src/Authorization/Ledger/Construct/Kept.antt =====
-- What a constructed simulation holds.
use mathlib.Core.Option.{some-injective}
use mihver.Prelude.{
  ap, sym, subst, map, ◌∙◌, String, ◌≡◌, refl, inl, inr, true, Option, none, some, List, [], ◌∷◌,
  ◌==◌, arith, find, eq_iff, All, Bool-cases, Option-cases, if◌then◌else◌, sym, subst, map,
}
use mihver.Council.Types.{Shaped, exact, malformed, DecisionRecord}
use mihver.Council.Proof.Verify.{Submitted}
use mihver.Authorization.Records.{External, TaskRecord, valid_decision_record, valid_task_record}
use mihver.Authorization.Ledger.{Simulation, record_by_id}
use mihver.Authorization.Ledger.Construct.{
  Sources, set_record, load_records, load_proofs, load_tasks, assemble, new_simulation,
}

-- A record is found under its identity, with its hash.
pub record Held (records : List DecisionRecord) (g : DecisionRecord) : Type 0 where
  pub stored : DecisionRecord
  pub found : record_by_id records g.body.decision_request_id ≡ some stored
  pub same_hash : stored.record_hash ≡ g.record_hash

-- A lookup behind `set`.
record_by_id-set_record :
    (r : DecisionRecord) (records : List DecisionRecord) (id : String)
    → record_by_id (set_record r records) id
      ≡ (if r.body.decision_request_id == id then some r else record_by_id records id)
unfolding record_by_id find set_record
record_by_id-set_record r [] id = refl
record_by_id-set_record r (x ∷ xs) id = ground (
  arith,
  record_by_id-set_record r xs id,
  eq_iff x.body.decision_request_id r.body.decision_request_id,
  eq_iff x.body.decision_request_id id,
  eq_iff r.body.decision_request_id id,
)

Held-here : (r : DecisionRecord) (records : List DecisionRecord) → Held (set_record r records) r
Held-here r records = record {
  stored = r;
  found = ground (
    arith,
    record_by_id-set_record r records r.body.decision_request_id,
    eq_iff r.body.decision_request_id r.body.decision_request_id,
  );
  same_hash = refl;
}

Held-set_record :
    (r g : DecisionRecord) (records : List DecisionRecord)
    → ((x : DecisionRecord)
        → record_by_id records r.body.decision_request_id ≡ some x
        → x.record_hash ≡ r.record_hash)
    → Held records g
    → Held (set_record r records) g
Held-set_record r g records same h =
    elim (Bool-cases (r.body.decision_request_id == g.body.decision_request_id)) [
      | inl e ↦
          let ids : r.body.decision_request_id ≡ g.body.decision_request_id =
            (eq_iff r.body.decision_request_id g.body.decision_request_id).0 e in
          record {
            stored = r;
            found = record_by_id-set_record r records g.body.decision_request_id ∙ (rw e refl);
            same_hash = sym (same h.stored (ap (record_by_id records) ids ∙ h.found)) ∙ h.same_hash;
          }
      | inr e ↦ record {
        stored = h.stored;
        found = record_by_id-set_record r records g.body.decision_request_id ∙ (rw e h.found);
        same_hash = h.same_hash;
      }
    ]

module _ (ext : External) where
  -- What a step of the loading tests.
  record Loads (loaded : List DecisionRecord) (r : DecisionRecord)
      (rest : List (Shaped DecisionRecord)) (out : List DecisionRecord) : Type 0 where
    valid : valid_decision_record ext r ≡ true
    same :
        (x : DecisionRecord)
        → record_by_id loaded r.body.decision_request_id ≡ some x
        → x.record_hash ≡ r.record_hash
    continues : load_records ext (set_record r loaded) rest ≡ some out

  loads :
      (loaded : List DecisionRecord) (r : DecisionRecord) (rest : List (Shaped DecisionRecord))
      (out : List DecisionRecord)
      → load_records ext loaded (exact r ∷ rest) ≡ some out
      → Loads loaded r rest out
  unfolding load_records
  loads loaded r rest out h = elim (Option-cases (record_by_id loaded r.body.decision_request_id)) [
    | inl e ↦ record { valid = ground arith; same = λ x f. ground arith; continues = ground arith }
    | inr (y, e) ↦ record {
      valid = ground arith;
      same = λ x f. ground (arith, eq_iff y.record_hash r.record_hash);
      continues = ground arith;
    }
  ]

  Held-load_records :
      (loaded out : List DecisionRecord) (rest : List (Shaped DecisionRecord)) (g : DecisionRecord)
      → load_records ext loaded rest ≡ some out
      → Held loaded g
      → Held out g
  Held-load_records loaded out [] g h k =
      let same : loaded ≡ out = unfold load_records in some-injective loaded out h in
      subst (λ o. Held o g) same k
  Held-load_records loaded out (malformed ∷ rest) g h k =
      absurd (unfold load_records in ground arith)
  Held-load_records loaded out (exact r ∷ rest) g h k =
      let l = loads loaded r rest out h in
      Held-load_records (set_record r loaded) out rest g l.continues
        (Held-set_record r g loaded l.same k)

  -- A given record is well-formed and valid, and is held.
  abbrev pub Accepted : List DecisionRecord → Shaped DecisionRecord → Type 0
  Accepted records malformed = ⊥
  Accepted records (exact r) = (valid_decision_record ext r ≡ true) × Held records r

  load_records-Accepted :
      (loaded out : List DecisionRecord) (rest : List (Shaped DecisionRecord))
      → load_records ext loaded rest ≡ some out
      → All (Accepted out) rest
  load_records-Accepted loaded out [] h = tt
  load_records-Accepted loaded out (malformed ∷ rest) h =
      absurd (unfold load_records in ground arith)
  load_records-Accepted loaded out (exact r ∷ rest) h =
      let l = loads loaded r rest out h in
      (
        (
          l.valid,
          Held-load_records (set_record r loaded) out rest r l.continues (Held-here r loaded),
        ),
        load_records-Accepted (set_record r loaded) out rest l.continues,
      )

  load_tasks-exact :
      (given : List (Shaped TaskRecord)) (out : List TaskRecord)
      → load_tasks ext given ≡ some out
      → (given ≡ map exact out) × All (λ t. valid_task_record ext t ≡ true) out
  load_tasks-exact [] out h =
      let same : [] ≡ out = unfold load_tasks in some-injective [] out h in
      subst (λ o. ([] ≡ map exact o) × All (λ t. valid_task_record ext t ≡ true) o) same (refl, tt)
  load_tasks-exact (malformed ∷ given) out h = absurd (unfold load_tasks in ground arith)
  load_tasks-exact (exact t ∷ given) out h = elim (Option-cases (load_tasks ext given)) [
    | inl e ↦ absurd (unfold load_tasks in ground arith)
    | inr (ts, e) ↦
        let (same, valid) = load_tasks-exact given ts e in
        let ok : valid_task_record ext t ≡ true = unfold load_tasks in ground arith in
        let parts : some (t ∷ ts) ≡ some out = unfold load_tasks in ground arith in
        subst (λ o. (exact t ∷ given ≡ map exact o) × All (λ t. valid_task_record ext t ≡ true) o)
          (some-injective (t ∷ ts) out parts) (ap (λ xs. exact t ∷ xs) same, (ok, valid))
  ]

  -- What a constructed simulation holds of its sources.
  pub record Keeps (given : Sources) (s : Simulation) : Type 0 where
    pub decisions : All (Accepted s.decision_records) given.decision_records
    pub tasks : given.task_records ≡ map exact s.task_records
    pub tasks_valid : All (λ t. valid_task_record ext t ≡ true) s.task_records
    pub no_grants : s.grants ≡ []
    pub none_consumed : s.ledger ≡ []

  assembled :
      (given : Sources) (s : Simulation) (ds : Option (List DecisionRecord))
      (ps : Option (List (String × Submitted))) (ts : Option (List TaskRecord))
      → assemble given ds ps ts ≡ some s
      → (ds ≡ some s.decision_records)
        × (ts ≡ some s.task_records)
        × (s.grants ≡ [])
        × (s.ledger ≡ [])
  assembled given s none ps ts h = absurd (unfold assemble in ground arith)
  assembled given s (some d) none ts h = absurd (unfold assemble in ground arith)
  assembled given s (some d) (some p) none h = absurd (unfold assemble in ground arith)
  assembled given s (some d) (some p) (some t) h =
      let made : Simulation = record s {
        decision_records = d;
        task_records = t;
        council_quorum_proofs = p;
        grants = [];
        ledger = [];
        current_context = given.current_context;
        current_stop_epoch = given.current_stop_epoch;
        policy_version = given.policy_version;
        privileged_approver_identity = given.privileged_approver_identity;
        trusted_registry = given.trusted_registry;
      } in
      subst
        (λ x.
          (some d ≡ some x.decision_records)
          × (some t ≡ some x.task_records)
          × (x.grants ≡ [])
          × (x.ledger ≡ []))
        (some-injective made s (unfold assemble in h)) (refl, refl, refl, refl)

  -- A simulation is constructed only from well-formed, valid decision records and task records. Each
  -- given decision record is then found under its decision request, with its hash, the task records
  -- are those given, and there is no grant and no consumed authorization.
  pub new_simulation-Keeps :
      (given : Sources) (s : Simulation) → new_simulation ext given ≡ some s → Keeps given s
  new_simulation-Keeps given s h =
      let parts =
        assembled given s (load_records ext [] given.decision_records)
          (load_proofs [] given.council_quorum_proofs) (load_tasks ext given.task_records)
          (unfold new_simulation in ground arith) in
      let (same, valid) = load_tasks-exact given.task_records s.task_records parts.1 in
      record {
        decisions = load_records-Accepted [] s.decision_records given.decision_records parts.0;
        tasks = same;
        tasks_valid = valid;
        no_grants = parts.2;
        none_consumed = parts.3;
      }
