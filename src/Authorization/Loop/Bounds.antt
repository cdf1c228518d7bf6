-- ===== src/Authorization/Loop/Bounds.antt =====
-- How much a run of the loop executes, and under which authorizations.
use mihver.Prelude.{
  zero, ◌+◌, le→leb, none, Bool-cases, sym, subst, ◌∙◌, Option, none, some, inl, inr, ◌++◌, true,
  false, ◌≢◌, ℕ, suc, ◌≤◌, String, ◌≡◌, refl, ap, List, [], ◌∷◌, arith, length, includes, Distinct,
}
use mihver.Authorization.Executor.Verified.{
  request_of, execute_fake_action-authorization_id, verify-execute_fake_action,
}
use mihver.Authorization.Binder.{no_envelope, envelope, Evaluated}
use mihver.Authorization.Executor.{Receipt, execute_fake_action, verify_fake_execution_receipt}
use mihver.Authorization.Loop.{
  Progress, LoopRecord, Round, ended, continued, verification_failed, allows_envelope, finish,
  External, log, Callbacks, Checked, LoopOutcome, dispatch, Details, Call, stop_gate, ledger_gate,
  authorize, Fixture, LoopState, on_stop_answer, on_ledger_answer, Bool, on_receipt, on_evaluation,
  run_from, run_authorization_loop, on_verification, normalized_maximum, nonempty, start,
}
use mihver.Authorization.Loop.Within.{
  ids_of, Between, Within, Executed, RoundOk, allowance_id, Executed-of_Within, Between-of_Within,
}

module _ {W : Type 0} (ext : External) (callbacks : Callbacks W) where
  on_receipt-RoundOk :
      (n : ℕ) (c : Call) (checked : Checked) (p : Progress W) (o : Option Receipt)
      → Within n c.envelope_given.body.authorization_id p
      → allows_envelope checked c.envelope_given.body.authorization_id ≡ true
      → execute_fake_action ext.sha256 c.run_id c.iteration c.envelope_given.body.authorization_id
          c.fixture.action c.fixture.input
        ≡ o
      → RoundOk n (on_receipt ext callbacks c checked p o)
  unfolding on_receipt on_verification log
  on_receipt-RoundOk n c checked p none w a e = Executed-of_Within n _ p _ _ _ w (λ x. cc)
  on_receipt-RoundOk n c checked p (some r) w a e =
      let id = c.envelope_given.body.authorization_id in
      let ok : verify_fake_execution_receipt ext.sha256 (some r)
            (request_of c.run_id c.iteration id c.fixture.action c.fixture.input)
          ≡ [] =
        verify-execute_fake_action ext.sha256 c.run_id c.iteration id c.fixture.action
          c.fixture.input r e in
      rw (allowance_id checked _ a, ok)
        (Between-of_Within n id p _ r w
          (execute_fake_action-authorization_id ext.sha256 c.run_id c.iteration id c.fixture.action
            c.fixture.input r e)
          refl refl)

  dispatch-RoundOk :
      (n : ℕ) (c : Call) (checked : Checked) (p : Progress W)
      → Within n c.envelope_given.body.authorization_id p
      → allows_envelope checked c.envelope_given.body.authorization_id ≡ true
      → RoundOk n (dispatch ext callbacks c checked p)
  unfolding dispatch
  dispatch-RoundOk n c checked p w a = on_receipt-RoundOk n c checked p _ w a refl

  -- The callbacks only change the world.
  Within-world :
      (n : ℕ) (id : String) (p : Progress W) (world : W)
      → Within n id p
      → Within n id (record p { world = world })
  Within-world n id p world w = record {
    count = w.count;
    noted = w.noted;
    distinct = w.distinct;
    fresh = w.fresh;
  }

  Within-log :
      (n : ℕ) (id : String) (p : Progress W) (state : LoopState) (i : ℕ)
      → Within n id p
      → Within n id (log state i p)
  unfolding log
  Within-log n id p state i w = record {
    count = w.count;
    noted = w.noted;
    distinct = w.distinct;
    fresh = w.fresh;
  }

  on_stop_answer-RoundOk :
      (n : ℕ) (c : Call) (checked : Checked) (p : Progress W) (answer : Option Bool)
      → Within n c.envelope_given.body.authorization_id p
      → allows_envelope checked c.envelope_given.body.authorization_id ≡ true
      → RoundOk n (on_stop_answer ext callbacks c checked p answer)
  unfolding on_stop_answer
  on_stop_answer-RoundOk n c checked p none w a = Executed-of_Within n _ p _ _ _ w (λ x. cc)
  on_stop_answer-RoundOk n c checked p (some false) w a = Executed-of_Within n _ p _ _ _ w (λ x. cc)
  on_stop_answer-RoundOk n c checked p (some true) w a = dispatch-RoundOk n c checked p w a

  stop_gate-RoundOk :
      (n : ℕ) (c : Call) (checked : Checked) (p : Progress W)
      → Within n c.envelope_given.body.authorization_id p
      → allows_envelope checked c.envelope_given.body.authorization_id ≡ true
      → RoundOk n (stop_gate ext callbacks c checked p)
  unfolding stop_gate
  stop_gate-RoundOk n c checked p w a =
      on_stop_answer-RoundOk n c checked _ _ (Within-world n _ p _ w) a

  on_ledger_answer-RoundOk :
      (n : ℕ) (c : Call) (p : Progress W) (answer : Option Checked)
      → Within n c.envelope_given.body.authorization_id p
      → RoundOk n (on_ledger_answer ext callbacks c p answer)
  unfolding on_ledger_answer
  on_ledger_answer-RoundOk n c p none w = Executed-of_Within n _ p _ _ _ w (λ x. cc)
  on_ledger_answer-RoundOk n c p (some checked) w =
      elim (Bool-cases (allows_envelope checked c.envelope_given.body.authorization_id)) [
        | inl a ↦ rw a (stop_gate-RoundOk n c checked _ (Within-log n _ p _ _ w) a)
        | inr a ↦ rw a (Executed-of_Within n _ _ _ _ _ (Within-log n _ p _ _ w) (λ x. cc))
      ]

  ledger_gate-RoundOk :
      (n : ℕ) (c : Call) (p : Progress W)
      → Within n c.envelope_given.body.authorization_id p
      → RoundOk n (ledger_gate ext callbacks c p)
  unfolding ledger_gate
  ledger_gate-RoundOk n c p w = on_ledger_answer-RoundOk n c _ _ (Within-world n _ p _ w)

  Executed-of_Between :
      (n : ℕ) (p q : Progress W) (o : LoopOutcome) (count : ℕ) (d : Details)
      → Between n p
      → q.receipts ≡ p.receipts
      → o ≢ verification_failed
      → Executed n (finish q o count d)
  unfolding finish log
  Executed-of_Between n p q o count d b e h = record {
    at_most = omega (arith, ap length e, b.count);
    distinct = subst Distinct (sym b.same_ids ∙ ap ids_of (sym e)) b.distinct;
    no_failure = h;
  }

  Executed-suc : (n : ℕ) (r : LoopRecord W) → Executed n r → Executed (suc n) r
  Executed-suc n r x = record {
    at_most = omega (arith, x.at_most);
    distinct = x.distinct;
    no_failure = x.no_failure;
  }

  on_evaluation-RoundOk :
      (run_id : String) (n : ℕ) (f : Fixture) (p : Progress W) (v : Evaluated)
      → Between n p
      → RoundOk n (on_evaluation ext callbacks run_id (suc n) f p v)
  unfolding on_evaluation
  on_evaluation-RoundOk run_id n f p (no_envelope reason) b =
      Executed-suc n _ (Executed-of_Between n p p _ _ _ b refl (λ x. cc))
  on_evaluation-RoundOk run_id n f p (envelope e) b =
      elim (Bool-cases (includes p.authorization_ids e.body.authorization_id)) [
        | inl a ↦ rw a (Executed-suc n _ (Executed-of_Between n p p _ _ _ b refl (λ x. cc)))
        | inr a ↦ rw a (
            ledger_gate-RoundOk n _ _ (record {
              count = b.count;
              noted = ap (λ ids. ids ++ e.body.authorization_id ∷ []) b.same_ids;
              distinct = subst Distinct (sym b.same_ids) b.distinct;
              fresh = ap (λ ids. includes ids e.body.authorization_id) b.same_ids ∙ a;
            }))
      ]

  authorize-RoundOk :
      (run_id : String) (n : ℕ) (f : Fixture) (p : Progress W)
      → Between n p
      → RoundOk n (authorize ext callbacks run_id (suc n) f p)
  unfolding authorize log
  authorize-RoundOk run_id n f p b =
      on_evaluation-RoundOk run_id n f _ _
        (record { count = b.count; same_ids = b.same_ids; distinct = b.distinct })

  after :
      (n m : ℕ) (round : Round W) (next : Progress W → LoopRecord W)
      → RoundOk n round
      → suc n ≤ m
      → ((p : Progress W) → Between (suc n) p → Executed m (next p))
      → Executed m (elim round [ ended r ↦ r | continued p ↦ next p ])
  after n m (ended r) next ok h k = record {
    at_most = omega (arith, ok.at_most, h);
    distinct = ok.distinct;
    no_failure = ok.no_failure;
  }
  after n m (continued p) next ok h k = k p ok

  Executed-finish :
      (n m : ℕ) (p : Progress W) (o : LoopOutcome) (count : ℕ) (d : Details)
      → Between n p
      → n ≤ m
      → o ≢ verification_failed
      → Executed m (finish p o count d)
  Executed-finish n m p o count d b h k =
      let e : Executed n (finish p o count d) = Executed-of_Between n p p o count d b refl k in
      record {
        at_most = omega (arith, e.at_most, h);
        distinct = e.distinct;
        no_failure = e.no_failure;
      }

  run_from-Executed :
      (run_id : String) (rounds n m : ℕ) (rest : List (Option Fixture)) (p : Progress W)
      → Between n p
      → n + rounds ≤ m
      → Executed m (run_from ext callbacks run_id rounds n rest p)
  unfolding run_from
  run_from-Executed run_id zero n m rest p b h =
      Executed-finish n m p _ _ _ b (omega (arith, h)) (λ x. cc)
  run_from-Executed run_id (suc rounds) n m [] p b h =
      Executed-finish n m p _ _ _ b (omega (arith, h)) (λ x. cc)
  run_from-Executed run_id (suc rounds) n m (none ∷ rest) p b h =
      Executed-finish n m p _ _ _ b (omega (arith, h)) (λ x. cc)
  run_from-Executed run_id (suc rounds) n m (some f ∷ []) p b h =
      after n m _ _ (authorize-RoundOk run_id n f p b) (omega (arith, h))
        (λ q b'. Executed-finish (suc n) m q _ _ _ b' (omega (arith, h)) (λ x. cc))
  run_from-Executed run_id (suc rounds) n m (some f ∷ g ∷ rest) p b h =
      after n m _ _ (authorize-RoundOk run_id n f p b) (omega (arith, h))
        (λ q b'. run_from-Executed run_id rounds (suc n) m (g ∷ rest) q b' (omega (arith, h)))

  abbrev pub Runs : ℕ → Option (LoopRecord W) → Type 0
  Runs m none = ⊥
  Runs m (some r) = Executed m r × Executed 3 r

  -- With a run id that is not empty, a maximum of at least one, and callbacks that settle (with any
  -- answer or an exception) and do not change the objects they are given: the loop ends, whatever
  -- the fixtures are and the callbacks answer; it makes at most that many receipts, and at most
  -- three, no two of them under the same authorization; and it never ends with VERIFICATION_FAILED.
  pub run_authorization_loop-Executed :
      (run_id : String) (fixtures : List (Option Fixture)) (maximum : ℕ) (world : W)
      → nonempty run_id ≡ true
      → 1 ≤ maximum
      → Runs maximum (run_authorization_loop ext callbacks run_id fixtures maximum world)
  unfolding run_authorization_loop normalized_maximum
  run_authorization_loop-Executed run_id fixtures maximum world h k =
      let at_start : Between 0 (start world) =
        unfold start in record { count = refl; same_ids = refl; distinct = tt } in
      rw (h, le→leb 1 maximum k)
        (
          run_from-Executed run_id _ 0 maximum fixtures (start world) at_start (ground arith),
          run_from-Executed run_id _ 0 3 fixtures (start world) at_start (ground arith),
        )
