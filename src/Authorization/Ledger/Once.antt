-- ===== src/Authorization/Ledger/Once.antt =====
-- An authorization is consumed at most once, whatever runs between the steps of the ledger.
use mihver.Prelude.{
  ℕ, ◌+◌, ◌≤◌, String, ◌≡◌, refl, ap, ◌∙◌, inl, inr, Bool, true, false, ◌&&◌, ◌||◌, Option, none,
  some, List, [], ◌∷◌, arith, ◌==◌, eq_iff, any, any-append, Bool-cases, if◌then◌else◌,
}
use mihver.Council.Types.{Shaped, DecisionRecord}
use mihver.Authorization.Records.{External, Context, Envelope}
use mihver.Authorization.Ledger.{
  Grant, Simulation, SubmittedEnvelope, authorization_id_of, is_consumed,
}
use mihver.Authorization.Ledger.Consume.{
  LedgerOutcome, allow_once, deny, Verdict, result, consume, decide,
}
use mihver.Authorization.Ledger.Decide.{decide_cases}
use mihver.Authorization.Ledger.Grants.{
  GrantDetails, issue_for, issue_derived, issue_task, issue_grant, revoke_located, revoke_grant,
  set_current_context, bump_applies,
}

-- One atomic step on the simulation, by any task, in any order. `decides` is the section of
-- `checkAndConsume` behind its hook, with whatever snapshot was taken before it.
pub data Action : Type 0 where
  decides : DecisionRecord → SubmittedEnvelope → Envelope → ℕ → String → Action
  issues : Shaped SubmittedEnvelope → GrantDetails → Action
  revokes : Shaped SubmittedEnvelope → String → Action
  sets_context : Shaped Context → Action
  applies_epoch : ℕ → Action

abbrev is_allowed : LedgerOutcome → Bool
is_allowed allow_once = true
is_allowed deny = false

abbrev is_id : Option String → String → Bool
is_id none id = false
is_id (some i) id = i == id

-- The verdict allows this authorization.
abbrev pub allows : String → Verdict → Bool
allows id v = is_allowed v.outcome && is_id v.canonical_authorization_id id

module _ (ext : External) where
  unfoldable pub step : Simulation → Action → Simulation
  step s (decides r sub e epoch now) = (decide ext s r sub e epoch now).0
  step s (issues sub d) = (issue_grant ext s sub d).0
  step s (revokes sub at) = (revoke_grant ext s sub at).0
  step s (sets_context c) = (set_current_context s c).0
  step s (applies_epoch n) = bump_applies s n

  unfoldable pub allows_on : String → Simulation → Action → Bool
  allows_on id s (decides r sub e epoch now) = allows id (decide ext s r sub e epoch now).1
  allows_on id s _ = false

  -- How often a run allows the authorization.
  unfoldable pub allowances : String → Simulation → List Action → ℕ
  allowances id s [] = 0
  allowances id s (a ∷ rest) = (if allows_on id s a then 1 else 0) + allowances id (step s a) rest

  is_consumed-consume :
      (id : String) (s : Simulation) (r : DecisionRecord) (g : Option Grant)
      → is_consumed (consume ext s r g) id ≡ (is_consumed s id || authorization_id_of ext r == id)
  unfolding is_consumed consume any
  is_consumed-consume id s r g =
      ground (arith, any-append (λ c. c == id) s.ledger (authorization_id_of ext r ∷ []))

  -- An identity that is consumed stays so, and is not allowed again.
  decide-consumed :
      (id : String) (s : Simulation) (r : DecisionRecord) (sub : SubmittedEnvelope) (e : Envelope)
      (epoch : ℕ) (now : String)
      → is_consumed s id ≡ true
      → (is_consumed (decide ext s r sub e epoch now).0 id ≡ true)
        × (allows id (decide ext s r sub e epoch now).1 ≡ false)
  unfolding result
  decide-consumed id s r sub e epoch now h = elim (decide_cases ext s r sub e epoch now) [
    | inl d ↦ rw d.is_denial (h, refl)
    | inr d ↦
        let f : is_consumed s (authorization_id_of ext r) ≡ false = d.fresh in
        rw d.is_allowance (
          ground (arith, is_consumed-consume id s r d.grant, eq_iff (authorization_id_of ext r) id))
  ]

  decide-fresh :
      (id : String) (s : Simulation) (r : DecisionRecord) (sub : SubmittedEnvelope) (e : Envelope)
      (epoch : ℕ) (now : String)
      → allows id (decide ext s r sub e epoch now).1 ≡ true
      → is_consumed (decide ext s r sub e epoch now).0 id ≡ true
  unfolding result
  decide-fresh id s r sub e epoch now h = elim (decide_cases ext s r sub e epoch now) [
    | inl d ↦ absurd (ground (arith, ap (λ (x : Simulation × Verdict). allows id x.1) d.is_denial))
    | inr d ↦
        let k : allows id (decide ext s r sub e epoch now).1 ≡ true = h in
        rw d.is_allowance (
          ground (
            arith,
            is_consumed-consume id s r d.grant,
            ap (λ (x : Simulation × Verdict). allows id x.1) d.is_allowance,
          ))
  ]

  ledger-issue_grant :
      (s : Simulation) (sub : Shaped SubmittedEnvelope) (d : GrantDetails)
      → (issue_grant ext s sub d).0.ledger ≡ s.ledger
  unfolding issue_grant issue_task issue_derived issue_for
  ledger-issue_grant s sub d = ground arith

  ledger-revoke_grant :
      (s : Simulation) (sub : Shaped SubmittedEnvelope) (at : String)
      → (revoke_grant ext s sub at).0.ledger ≡ s.ledger
  unfolding revoke_grant revoke_located
  ledger-revoke_grant s sub at = ground arith

  is_consumed-eq :
      (id : String) (s t : Simulation) → t.ledger ≡ s.ledger → is_consumed t id ≡ is_consumed s id
  unfolding is_consumed
  is_consumed-eq id s t e = ap (any (λ c. c == id)) e

  step-consumed :
      (id : String) (s : Simulation) (a : Action)
      → is_consumed s id ≡ true
      → (is_consumed (step s a) id ≡ true) × (allows_on id s a ≡ false)
  unfolding step allows_on
  step-consumed id s (decides r sub e epoch now) h = decide-consumed id s r sub e epoch now h
  step-consumed id s (issues sub d) h =
      (is_consumed-eq id s _ (ledger-issue_grant s sub d) ∙ h, refl)
  step-consumed id s (revokes sub at) h =
      (is_consumed-eq id s _ (ledger-revoke_grant s sub at) ∙ h, refl)
  step-consumed id s (sets_context c) h =
      unfold is_consumed set_current_context in (ground arith, refl)
  step-consumed id s (applies_epoch n) h = unfold is_consumed bump_applies in (h, refl)

  step-fresh :
      (id : String) (s : Simulation) (a : Action)
      → allows_on id s a ≡ true
      → is_consumed (step s a) id ≡ true
  unfolding step allows_on
  step-fresh id s (decides r sub e epoch now) h = decide-fresh id s r sub e epoch now h
  step-fresh id s _ h = cc

  allowances-consumed :
      (id : String) (s : Simulation) (run : List Action)
      → is_consumed s id ≡ true
      → allowances id s run ≡ 0
  unfolding allowances
  allowances-consumed id s [] h = refl
  allowances-consumed id s (a ∷ run) h =
      let kept : (is_consumed (step s a) id ≡ true) × (allows_on id s a ≡ false) =
        step-consumed id s a h in
      ground (arith, allowances-consumed id (step s a) run kept.0)

  -- In any run of decisions, grants, revocations, context changes and epoch changes, in any order
  -- and with any snapshots, an authorization is allowed at most once.
  pub allowances-le_one :
      (id : String) (s : Simulation) (run : List Action) → allowances id s run ≤ 1
  unfolding allowances
  allowances-le_one id s [] = omega arith
  allowances-le_one id s (a ∷ run) = elim (Bool-cases (allows_on id s a)) [
    | inl yes_once ↦
        ground (arith, allowances-consumed id (step s a) run (step-fresh id s a yes_once))
    | inr no_more ↦ ground (arith, allowances-le_one id (step s a) run)
  ]
