-- ===== src/Authorization/Loop/Backing.antt =====
-- What stands behind every receipt of the loop.
use mihver.Prelude.{
  ℕ, zero, suc, String, ◌≡◌, refl, true, false, Option, none, some, List, [], ◌∷◌, ◌++◌, Bool, All,
  Bool-cases, inl, inr, ap, sym, arith, subst,
}
use mihver.Authorization.Records.{External}
use mihver.Authorization.Executor.{Receipt, ReceiptError, execute_fake_action}
use mihver.Authorization.Binder.{Evaluated, no_envelope, envelope}
use mihver.Authorization.Loop.{
  Progress, LoopRecord, Round, ended, continued, Call, Callbacks, Checked, Fixture, log, finish,
  on_verification, on_receipt, dispatch, on_stop_answer, stop_gate, on_ledger_answer, ledger_gate,
  on_evaluation, authorize, evaluate_fixture, run_from, start, run_authorization_loop,
  allows_envelope, includes, normalized_maximum,
}

All-snoc :
    (P : Receipt → Type 0) (rs : List Receipt) (r : Receipt) → All P rs → P r → All P (rs ++ r ∷ [])
All-snoc P [] r h k = (k, tt)
All-snoc P (x ∷ rs) r h k = (h.0, All-snoc P rs r h.1 k)

module _ {W : Type 0} (ext : External) (callbacks : Callbacks W) (run_id : String) where
  -- A receipt that was made behind every gate: the binder gave the envelope, the ledger allowed
  -- exactly it, and right after that the stop check was passed.
  pub record Backed (r : Receipt) : Type 0 where
    pub world : W
    pub call : Call
    pub checked : Checked
    pub same_run : call.run_id ≡ run_id
    pub evaluated : evaluate_fixture ext call.fixture ≡ envelope call.envelope_given
    pub allowed : (callbacks.ledger_check world call).1 ≡ some checked
    pub own_allowance : allows_envelope checked call.envelope_given.body.authorization_id ≡ true
    pub not_stopped :
        (callbacks.is_stop_still_valid (callbacks.ledger_check world call).0 call checked).1
        ≡ some true
    pub executed :
        execute_fake_action ext.sha256 call.run_id call.iteration
          call.envelope_given.body.authorization_id call.fixture.action call.fixture.input
        ≡ some r

  abbrev RoundBacked : Round W → Type 0
  RoundBacked (continued p) = All Backed p.receipts
  RoundBacked (ended r) = All Backed r.receipts

  on_verification-Backed :
      (c : Call) (p : Progress W) (errors : List ReceiptError)
      → All Backed p.receipts
      → RoundBacked (on_verification ext callbacks c p errors)
  unfolding on_verification finish log
  on_verification-Backed c p [] h = h
  on_verification-Backed c p (e ∷ errors) h = h

  on_receipt-Backed :
      (c : Call) (checked : Checked) (p : Progress W) (o : Option Receipt)
      → All Backed p.receipts
      → ((r : Receipt) → o ≡ some r → Backed r)
      → RoundBacked (on_receipt ext callbacks c checked p o)
  unfolding on_receipt finish log
  on_receipt-Backed c checked p none h k = h
  on_receipt-Backed c checked p (some r) h k =
      on_verification-Backed c _ _ (All-snoc Backed p.receipts r h (k r refl))

  module _ (w : W) (c : Call) (checked : Checked) (same : c.run_id ≡ run_id)
      (evaluated : evaluate_fixture ext c.fixture ≡ envelope c.envelope_given)
      (allowed : (callbacks.ledger_check w c).1 ≡ some checked)
      (own : allows_envelope checked c.envelope_given.body.authorization_id ≡ true) where
    on_stop_answer-Backed :
        (p : Progress W) (answer : Option Bool)
        → All Backed p.receipts
        → (callbacks.is_stop_still_valid (callbacks.ledger_check w c).0 c checked).1 ≡ answer
        → RoundBacked (on_stop_answer ext callbacks c checked p answer)
    unfolding on_stop_answer finish log dispatch
    on_stop_answer-Backed p none h e = h
    on_stop_answer-Backed p (some false) h e = h
    on_stop_answer-Backed p (some true) h e = on_receipt-Backed c checked p _ h (λ r made. record {
      world = w;
      call = c;
      checked = checked;
      same_run = same;
      evaluated = evaluated;
      allowed = allowed;
      own_allowance = own;
      not_stopped = e;
      executed = made;
    })

  on_ledger_answer-Backed :
      (w : W) (c : Call) (p : Progress W) (answer : Option Checked)
      → c.run_id ≡ run_id
      → evaluate_fixture ext c.fixture ≡ envelope c.envelope_given
      → p.world ≡ (callbacks.ledger_check w c).0
      → All Backed p.receipts
      → (callbacks.ledger_check w c).1 ≡ answer
      → RoundBacked (on_ledger_answer ext callbacks c p answer)
  unfolding on_ledger_answer stop_gate finish log
  on_ledger_answer-Backed w c p none same evaluated at h e = h
  on_ledger_answer-Backed w c p (some checked) same evaluated at h e =
      elim (Bool-cases (allows_envelope checked c.envelope_given.body.authorization_id)) [
        | inr a ↦ rw a h
        | inl a ↦ rw a (
            on_stop_answer-Backed w c checked same evaluated e a _ _ h
              (ap (λ x. (callbacks.is_stop_still_valid x c checked).1) (sym at)))
      ]

  on_evaluation-Backed :
      (n : ℕ) (f : Fixture) (p : Progress W) (v : Evaluated)
      → All Backed p.receipts
      → evaluate_fixture ext f ≡ v
      → RoundBacked (on_evaluation ext callbacks run_id n f p v)
  unfolding on_evaluation ledger_gate finish log
  on_evaluation-Backed n f p (no_envelope reason) h e = h
  on_evaluation-Backed n f p (envelope env) h e =
      elim (Bool-cases (includes p.authorization_ids env.body.authorization_id)) [
        | inl a ↦ rw a h
        | inr a ↦ rw a (on_ledger_answer-Backed p.world _ _ _ refl e refl h refl)
      ]

  authorize-Backed :
      (n : ℕ) (f : Fixture) (p : Progress W)
      → All Backed p.receipts
      → RoundBacked (authorize ext callbacks run_id n f p)
  unfolding authorize log
  authorize-Backed n f p h = on_evaluation-Backed n f _ _ h refl

  abbrev pub AllBacked : LoopRecord W → Type 0
  AllBacked r = All Backed r.receipts

  after :
      (round : Round W) (next : Progress W → LoopRecord W)
      → RoundBacked round
      → ((p : Progress W) → All Backed p.receipts → AllBacked (next p))
      → AllBacked (elim round [ ended r ↦ r | continued p ↦ next p ])
  after (ended r) next h k = h
  after (continued p) next h k = k p h

  run_from-Backed :
      (rounds n : ℕ) (rest : List (Option Fixture)) (p : Progress W)
      → All Backed p.receipts
      → AllBacked (run_from ext callbacks run_id rounds n rest p)
  unfolding run_from finish log
  run_from-Backed zero n rest p h = h
  run_from-Backed (suc rounds) n [] p h = h
  run_from-Backed (suc rounds) n (none ∷ rest) p h = h
  run_from-Backed (suc rounds) n (some f ∷ []) p h =
      after _ _ (authorize-Backed (suc n) f p h) (λ q k. k)
  run_from-Backed (suc rounds) n (some f ∷ g ∷ rest) p h =
      after _ _ (authorize-Backed (suc n) f p h)
        (λ q k. run_from-Backed rounds (suc n) (g ∷ rest) q k)

  -- Every receipt of a run was made with an envelope that the binder gave for its fixture, that the
  -- ledger check allowed under the envelope's own identity, and for which the stop check answered
  -- true in the world that the ledger check left; it is the executor's receipt for that envelope.
  pub run_authorization_loop-Backed :
      (fixtures : List (Option Fixture)) (maximum : ℕ) (world : W) (r : LoopRecord W)
      → run_authorization_loop ext callbacks run_id fixtures maximum world ≡ some r
      → AllBacked r
  unfolding run_authorization_loop
  run_authorization_loop-Backed fixtures maximum world r h =
      subst AllBacked (returns h)
        (run_from-Backed (normalized_maximum maximum) 0 fixtures (start world) (unfold start in tt))
    where
      returns :
          run_authorization_loop ext callbacks run_id fixtures maximum world ≡ some r
          → run_from ext callbacks run_id (normalized_maximum maximum) 0 fixtures (start world) ≡ r
      returns k = ground arith
