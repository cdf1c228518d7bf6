-- ===== src/TaskExecutor/Process/Truthful.antt =====
-- What the outcome of a result says.
use mihver.TaskExecutor.Process.{
  first, Spawned, spawned, spawn_not_found, spawn_failed, Environment, completed, stopped,
  timed_out_outcome, ProcessResult, Execution, ProcessEvent, out_chunk, err_chunk, child_error,
  child_close, stop_poll, timeout_fires, escalation_fires, grace_fires, is_settled, Finished,
  settle_with, finish_with, same_child, is_current_child, failure, launched, termination_outcome,
  exit_outcome, fallback_spawned, look_up, command_spawned, not_found, launch, terminate,
  request_termination, on_error, closed, on_close, finish_closed, escalate, grace_expires, react,
  run_process, idle, arm, begin,
}
use mihver.Prelude.{
  ◌≡◌, ◌≢◌, refl, sym, subst, inl, inr, ℕ, String, Bool, true, false, not, ◌&&◌, ◌||◌, Option, none,
  some, List, [], ◌∷◌, arith, Bool-cases, if◌then◌else◌,
}

-- An outcome agrees with the exit code and with what the execution was ended for, and a termination
-- that is uncertain has no exit code.
pub record IsTruthful (r : ProcessResult) : Type 0 where
  pub completed_zero :
      r.outcome ≡ completed
      → (r.exit_code ≡ some 0) × (r.timed_out ≡ false) × (r.stop_detected ≡ false)
  pub stopped_by_stop : r.outcome ≡ stopped → r.stop_detected ≡ true
  pub timed_out_by_timeout : r.outcome ≡ timed_out_outcome → r.timed_out ≡ true
  pub uncertain_unknown : r.termination_uncertain ≡ some true → r.exit_code ≡ none

abbrev ResultIsTruthful : Option ProcessResult → Type 0
ResultIsTruthful none = Unit {0}
ResultIsTruthful (some r) = IsTruthful r

-- The timers of a termination run only when its reason is noted.
abbrev Noted : Bool → Bool → Bool → Type 0
Noted armed stop timeout = armed ≡ true → (stop || timeout) ≡ true

record Honesty (grace escalation stop timeout : Bool) (result : Option ProcessResult) : Type 0 where
  grace_noted : Noted grace stop timeout
  escalation_noted : Noted escalation stop timeout
  truthful : ResultIsTruthful result

abbrev Honest : Execution → Type 0
Honest x = Honesty x.grace_armed x.escalation_armed x.stop_detected x.timed_out x.result

-- What `finish` may be called with.
record Claims (f : Finished) (stop timeout : Bool) : Type 0 where
  completed_claim :
      f.outcome ≡ completed → (f.exit_code ≡ some 0) × (timeout ≡ false) × (stop ≡ false)
  stopped_claim : f.outcome ≡ stopped → stop ≡ true
  timed_out_claim : f.outcome ≡ timed_out_outcome → timeout ≡ true
  uncertain_claim : f.termination_uncertain ≡ some true → f.exit_code ≡ none

settle_with-Honest :
    (f : Finished) (x : Execution) → Claims f x.stop_detected x.timed_out → Honest (settle_with f x)
unfolding settle_with
settle_with-Honest f x c = record {
  grace_noted = λ e. absurd (ground arith);
  escalation_noted = λ e. absurd (ground arith);
  truthful = record {
    completed_zero = c.completed_claim;
    stopped_by_stop = c.stopped_claim;
    timed_out_by_timeout = c.timed_out_claim;
    uncertain_unknown = c.uncertain_claim;
  };
}

either : (b : Bool) (x y : Execution) → Honest x → Honest y → Honest (if b then x else y)
either true x y h k = h
either false x y h k = k

finish_with-Honest :
    (f : Finished) (x : Execution)
    → Honest x
    → Claims f x.stop_detected x.timed_out
    → Honest (finish_with f x)
unfolding finish_with
finish_with-Honest f x h c = either (is_settled x) x (settle_with f x) h (settle_with-Honest f x c)

failure-Claims : (message : String) (stop timeout : Bool) → Claims (failure message) stop timeout
unfolding failure
failure-Claims message stop timeout = record {
  completed_claim = λ e. absurd (ground arith);
  stopped_claim = λ e. absurd (ground arith);
  timed_out_claim = λ e. absurd (ground arith);
  uncertain_claim = λ e. absurd (ground arith);
}

-- The two ways in which a termination finishes.
termination-Claims :
    (x : Execution) (code : Option ℕ) (uncertain : Bool)
    → (x.stop_detected || x.timed_out) ≡ true
    → (uncertain ≡ true → code ≡ none)
    → Claims
        (record {
          outcome = termination_outcome x;
          exit_code = code;
          error = none;
          termination_uncertain = some uncertain;
        })
        x.stop_detected
        x.timed_out
termination-Claims x code uncertain h u = record {
  completed_claim = λ e. ground arith;
  stopped_claim = λ e. ground arith;
  timed_out_claim = λ e. ground arith;
  uncertain_claim = λ e. u (ground arith);
}

exit-Claims :
    (x : Execution) (code : Option ℕ) (uncertain : Option Bool)
    → uncertain ≢ some true
    → Claims
        (record {
          outcome = exit_outcome x code;
          exit_code = code;
          error = none;
          termination_uncertain = uncertain;
        })
        x.stop_detected
        x.timed_out
exit-Claims x code uncertain u = record {
  completed_claim = λ e. ground arith;
  stopped_claim = λ e. ground arith;
  timed_out_claim = λ e. ground arith;
  uncertain_claim = λ e. absurd (u e);
}

module _ (env : Environment) where
  fallback_spawned-Honest :
      (message : String) (s : Spawned) (x : Execution)
      → Honest x
      → Honest (fallback_spawned env message s x)
  unfolding fallback_spawned launched
  fallback_spawned-Honest message spawned x h = h
  fallback_spawned-Honest message (spawn_not_found m) x h =
      finish_with-Honest _ x h (failure-Claims message _ _)
  fallback_spawned-Honest message (spawn_failed m) x h =
      finish_with-Honest _ x h (failure-Claims message _ _)

  look_up-Honest :
      (message : String) (o : Option String) (x : Execution)
      → Honest x
      → Honest (look_up env message o x)
  unfolding look_up
  look_up-Honest message none x h = finish_with-Honest _ x h (failure-Claims message _ _)
  look_up-Honest message (some command) x h = fallback_spawned-Honest message _ x h

  launch-Honest : (s : Spawned) (x : Execution) → Honest x → Honest (command_spawned env s x)
  unfolding command_spawned launched not_found
  launch-Honest spawned x h = h
  launch-Honest (spawn_not_found m) x h = look_up-Honest m _ x h
  launch-Honest (spawn_failed m) x h = finish_with-Honest _ x h (failure-Claims m _ _)

  request_termination-Honest :
      (by_timeout : Bool) (x : Execution) → Honest x → Honest (request_termination env by_timeout x)
  unfolding request_termination terminate
  request_termination-Honest by_timeout x h = either (x.terminating || is_settled x) x _ h (record {
    grace_noted = λ e. ground arith;
    escalation_noted = λ e. ground arith;
    truthful = h.truthful;
  })

  finish_closed-Honest :
      (o : Option (Option ℕ)) (x : Execution)
      → Honest x
      → (x.stop_detected || x.timed_out) ≡ true
      → Honest (finish_closed env o x)
  unfolding finish_closed
  finish_closed-Honest none x h noted = h
  finish_closed-Honest (some code) x h noted =
      finish_with-Honest _ x h (termination-Claims x code false noted (λ e. absurd (ground arith)))

  escalate-Honest : (x : Execution) → Honest x → x.escalation_armed ≡ true → Honest (escalate env x)
  unfolding escalate
  escalate-Honest x h armed =
      finish_closed-Honest x.close_code _
        (record {
          grace_noted = h.grace_noted;
          escalation_noted = λ e. absurd (ground arith);
          truthful = h.truthful;
        })
        (h.escalation_noted armed)

  grace_expires-Honest :
      (x : Execution) → Honest x → x.grace_armed ≡ true → Honest (grace_expires env x)
  unfolding grace_expires
  grace_expires-Honest x h armed =
      finish_with-Honest _ _
        (record {
          grace_noted = λ e. absurd (ground arith);
          escalation_noted = h.escalation_noted;
          truthful = h.truthful;
        })
        (termination-Claims (record x { grace_armed = false }) none true (h.grace_noted armed)
          (λ e. refl))

  closed-Honest : (code : Option ℕ) (x : Execution) → Honest x → Honest (closed env code x)
  unfolding closed
  closed-Honest code x h = either (x.terminating && not env.windows && not x.escalated) _ _ h (
      finish_with-Honest _ _ h (
        exit-Claims (record x { close_code = some code }) code
          (if x.terminating then some false else none) (certain x.terminating)))
    where
      certain : (b : Bool) → (let u : Option Bool = if b then some false else none in u) ≢ some true
      certain true e = ground arith
      certain false e = ground arith

  react-Honest : (e : ProcessEvent) (x : Execution) → Honest x → Honest (react env e x)
  unfolding react on_error on_close not_found
  react-Honest (out_chunk chunk) x h = h
  react-Honest (err_chunk chunk) x h = h
  react-Honest (child_error child enoent message) x h =
      either (x.hears_error child) _ x
        (either (enoent && same_child child first) _ _ (look_up-Honest message _ _ h)
          (finish_with-Honest _ _ h (failure-Claims _ _ _)))
        h
  react-Honest (child_close child code) x h =
      either (x.hears_close child) _ x
        (either (is_settled x || not (is_current_child x.child child)) _ _ h
          (closed-Honest code _ h))
        h
  react-Honest (stop_poll exists) x h =
      either (x.stop_armed && exists) _ x (request_termination-Honest false x h) h
  react-Honest timeout_fires x h =
      either x.timeout_armed _ x (request_termination-Honest true _ h) h
  react-Honest escalation_fires x h = elim (Bool-cases x.escalation_armed) [
    | inl e ↦ subst (λ b. Honest (if b then escalate env x else x)) (sym e) (escalate-Honest x h e)
    | inr e ↦ subst (λ b. Honest (if b then escalate env x else x)) (sym e) h
  ]
  react-Honest grace_fires x h = elim (Bool-cases x.grace_armed) [
    | inl e ↦
        subst (λ b. Honest (if b then grace_expires env x else x)) (sym e)
          (grace_expires-Honest x h e)
    | inr e ↦ subst (λ b. Honest (if b then grace_expires env x else x)) (sym e) h
  ]

  run_process-Honest :
      (x : Execution) (es : List ProcessEvent) → Honest x → Honest (run_process env x es)
  run_process-Honest x [] h = h
  run_process-Honest x (e ∷ es) h = run_process-Honest (react env e x) es (react-Honest e x h)

  begin-Honest : Honest (begin env)
  unfolding begin arm launch
  begin-Honest =
      let begun = launch-Honest env.spawn_command (idle env) (
        unfold idle in
        record {
          grace_noted = λ e. absurd (ground arith);
          escalation_noted = λ e. absurd (ground arith);
          truthful = tt;
        }) in
      either (is_settled (launch env (idle env))) _ _ begun begun

  -- Whatever events an execution meets, the outcome of its result is true: COMPLETED is an exit with
  -- the code 0 of an execution that nothing has ended, STOPPED and TIMED_OUT are those of one that a
  -- stop or its timeout has ended, and a termination that is uncertain reports no exit code.
  pub run_process-IsTruthful :
      (es : List ProcessEvent) (r : ProcessResult)
      → (run_process env (begin env) es).result ≡ some r
      → IsTruthful r
  run_process-IsTruthful es r h =
      subst ResultIsTruthful h (run_process-Honest (begin env) es begin-Honest).truthful
