-- ===== src/Firewall/StopGate/Released.antt =====
-- What a stop that is allowed rests on.
use mathlib.Core.Option.{some-injective}
use mihver.Prelude.{
  ap, ◌∙◌, subst, String, ◌≡◌, ◌≢◌, refl, ◌⊎◌, inl, inr, Bool, true, false, Option, none, some,
  List, [], ◌∷◌, ◌==◌, arith, keep, eq_iff, Bool-cases, Option-cases, if◌then◌else◌,
}
use mihver.Json.{units, less}
use mihver.Firewall.Receipts.{DelegationRecord}
use mihver.Firewall.StopGate.{
  allow, is_completed, completed_text, is_bound, later_verifier, is_current, latest_from, latest,
  decide_verifier, decide_implementer, decide_stop,
}

abbrev pub In : DelegationRecord → List DelegationRecord → Type 0
In r [] = ⊥
In r (x ∷ xs) = (r ≡ x) ⊎ In r xs

In-keep :
    (p : DelegationRecord → Bool) (xs : List DelegationRecord) (r : DelegationRecord)
    → In r (keep p xs)
    → In r xs × (p r ≡ true)
unfolding keep
In-keep p [] r h = absurd h
In-keep p (x ∷ xs) r h = elim (Bool-cases (p x)) [
  | inl e ↦
      kept e (λ q. In-keep p xs r q)
        (subst (λ b. In r (if b then x ∷ keep p xs else keep p xs)) e h)
  | inr e ↦
      let (here, ok) =
        In-keep p xs r (subst (λ b. In r (if b then x ∷ keep p xs else keep p xs)) e h) in
      (inr here, ok)
]
  where
    kept :
        p x ≡ true
        → (In r (keep p xs) → In r xs × (p r ≡ true))
        → In r (x ∷ keep p xs)
        → In r (x ∷ xs) × (p r ≡ true)
    kept e rest (inl q) = (inl q, ap p q ∙ e)
    kept e rest (inr q) = let (here, ok) = rest q in (inr here, ok)

In-latest_from :
    (le : String → String → Bool) (a : DelegationRecord) (rs : List DelegationRecord)
    → In (latest_from le a rs) (a ∷ rs)
unfolding latest_from
In-latest_from le a [] = inl refl
In-latest_from le a (r ∷ rs) =
    chosen (le (completed_text a) (completed_text r)) (In-latest_from le r rs)
      (In-latest_from le a rs)
  where
    chosen :
        (b : Bool)
        → In (latest_from le r rs) (r ∷ rs)
        → In (latest_from le a rs) (a ∷ rs)
        → In (latest_from le (if b then r else a) rs) (a ∷ r ∷ rs)
    chosen true h k = inr h
    chosen false h (inl q) = inl q
    chosen false h (inr q) = inr (inr q)

In-latest :
    (le : String → String → Bool) (rs : List DelegationRecord) (r : DelegationRecord)
    → latest le rs ≡ some r
    → In r rs
unfolding latest
In-latest le [] r h = absurd (ground arith)
In-latest le (x ∷ rs) r h =
    subst (λ y. In y (x ∷ rs)) (some-injective (latest_from le x rs) r h) (In-latest_from le x rs)

-- A completed receipt of the session and prompt, in a role.
pub record Receipted (records : List DelegationRecord) (session prompt role : String)
    (r : DelegationRecord) : Type 0 where
  pub recorded : In r records
  pub of_session : r.session_id ≡ session
  pub of_prompt : r.prompt_id ≡ prompt
  pub of_role : r.role ≡ role
  pub is_done : is_completed r.status ≡ true

-- What releases a changed workspace.
pub record Release (current : String) (records : List DelegationRecord) (session prompt : String)
    : Type 0 where
  pub implementer : DelegationRecord
  pub verifier : DelegationRecord
  pub implemented : Receipted records session prompt "IMPLEMENTER" implementer
  pub verified : Receipted records session prompt "VERIFIER" verifier
  pub in_order : less (units (completed_text implementer)) (units (completed_text verifier)) ≡ true
  pub is_fresh : verifier.workspace_fingerprint ≡ some current

receipted :
    (records : List DelegationRecord) (session prompt role : String) (r : DelegationRecord)
    → In r records
    → is_bound session prompt r ≡ true
    → r.role ≡ role
    → Receipted records session prompt role r
unfolding is_bound
receipted records session prompt role r h b e = record {
  recorded = h;
  of_session = (eq_iff r.session_id session).0 (ground arith);
  of_prompt = (eq_iff r.prompt_id prompt).0 (ground arith);
  of_role = e;
  is_done = ground arith;
}

current-eq : (o : Option String) (f : String) → is_current o f ≡ true → o ≡ some f
unfolding is_current
current-eq none f h = absurd (ground arith)
current-eq (some g) f h = ap some ((eq_iff g f).0 h)

module _ (le : String → String → Bool) (baseline current : String) (records : List DelegationRecord)
    (session prompt : String) where
  -- A stop with a changed workspace is allowed only if, in this session and prompt, an IMPLEMENTER
  -- has completed and after it a VERIFIER, whose fingerprint is that of the workspace now.
  pub decide_stop-Release :
      baseline ≢ current
      → decide_stop le baseline current records session prompt ≡ allow
      → Release current records session prompt
  decide_stop-Release changed h =
      let bound = keep (is_bound session prompt) records in
      let after_test : decide_implementer le current bound
            (latest le (keep (λ r. r.role == "IMPLEMENTER") bound))
          ≡ allow =
        unfold decide_stop in ground (arith, eq_iff baseline current) in
      elim (Option-cases (latest le (keep (λ r. r.role == "IMPLEMENTER") bound))) [
        | inl e ↦ absurd (unfold decide_implementer in ground arith)
        | inr (i, e) ↦ elim (Option-cases (latest le (keep (later_verifier i) bound))) [
          | inl f ↦ absurd (unfold decide_implementer decide_verifier in ground arith)
          | inr (v, f) ↦
              let (i_bound, i_role) =
                In-keep (λ r. r.role == "IMPLEMENTER") bound i (In-latest le _ i e) in
              let (i_in, i_ok) = In-keep (is_bound session prompt) records i i_bound in
              let (v_bound, v_later) = In-keep (later_verifier i) bound v (In-latest le _ v f) in
              let (v_in, v_ok) = In-keep (is_bound session prompt) records v v_bound in
              record {
                implementer = i;
                verifier = v;
                implemented =
                    receipted records session prompt "IMPLEMENTER" i i_in i_ok
                      ((eq_iff i.role "IMPLEMENTER").0 i_role);
                verified =
                    receipted records session prompt "VERIFIER" v v_in v_ok
                      ((eq_iff v.role "VERIFIER").0 (unfold later_verifier in ground arith));
                in_order = unfold later_verifier in ground arith;
                is_fresh =
                    current-eq v.workspace_fingerprint current
                      (unfold decide_implementer decide_verifier in ground arith);
              }
        ]
      ]
