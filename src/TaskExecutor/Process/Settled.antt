-- ===== src/TaskExecutor/Process/Settled.antt =====
-- When the promise of an execution settles, once, and with what.
use mihver.TaskExecutor.Process.{
  first, Spawned, spawned, spawn_not_found, spawn_failed, Environment, ProcessResult, Execution,
  ProcessEvent, out_chunk, err_chunk, child_error, child_close, stop_poll, timeout_fires,
  escalation_fires, grace_fires, is_settled, Finished, finish_with, same_child, is_current_child,
  failure, launched, not_found, terminate, request_termination, on_error, closed, on_close,
  finish_closed, escalate, grace_expires, react, run_process, fallback_spawned, look_up,
}
use mihver.Prelude.{
  ◌≡◌, refl, ◌∙◌, ℕ, String, Bool, true, false, not, ◌&&◌, ◌||◌, Option, none, some, List, [], ◌∷◌,
  arith, if◌then◌else◌,
}

-- What `finish` leaves of a result.
pub finish_with-settled :
    (f : Finished) (x : Execution) → is_settled x ≡ true → (finish_with f x).result ≡ x.result
unfolding finish_with
finish_with-settled f x h = rw h refl

chosen :
    (b : Bool) (x y : Execution) (r : Option ProcessResult)
    → x.result ≡ r
    → y.result ≡ r
    → (if b then x else y).result ≡ r
chosen true x y r h k = h
chosen false x y r h k = k

module _ (env : Environment) where
  fallback_spawned-settled :
      (message : String) (s : Spawned) (x : Execution)
      → is_settled x ≡ true
      → (fallback_spawned env message s x).result ≡ x.result
  unfolding fallback_spawned launched
  fallback_spawned-settled message spawned x h = refl
  fallback_spawned-settled message (spawn_not_found m) x h =
      finish_with-settled (failure message) x h
  fallback_spawned-settled message (spawn_failed m) x h = finish_with-settled (failure message) x h

  look_up-settled :
      (message : String) (o : Option String) (x : Execution)
      → is_settled x ≡ true
      → (look_up env message o x).result ≡ x.result
  unfolding look_up
  look_up-settled message none x h = finish_with-settled (failure message) x h
  look_up-settled message (some command) x h = fallback_spawned-settled message _ x h

  request_termination-settled :
      (by_timeout : Bool) (x : Execution)
      → is_settled x ≡ true
      → (request_termination env by_timeout x).result ≡ x.result
  unfolding request_termination terminate
  request_termination-settled by_timeout x h =
      chosen (x.terminating || is_settled x) x (terminate env by_timeout x) x.result refl refl

  finish_closed-settled :
      (o : Option (Option ℕ)) (x : Execution)
      → is_settled x ≡ true
      → (finish_closed env o x).result ≡ x.result
  unfolding finish_closed
  finish_closed-settled none x h = refl
  finish_closed-settled (some code) x h = finish_with-settled _ x h

  pub react-settled :
      (e : ProcessEvent) (x : Execution) → is_settled x ≡ true → (react env e x).result ≡ x.result
  unfolding react on_error on_close closed escalate grace_expires not_found
  react-settled (out_chunk chunk) x h = refl
  react-settled (err_chunk chunk) x h = refl
  react-settled (child_error child enoent message) x h =
      chosen (x.hears_error child) _ x x.result
        (chosen (enoent && same_child child first) _ _ x.result (look_up-settled message _ _ h)
          (finish_with-settled _ _ h))
        refl
  react-settled (child_close child code) x h =
      chosen (x.hears_close child) _ x x.result
        (chosen (is_settled x || not (is_current_child x.child child)) _ _ x.result refl (
          chosen (x.terminating && not env.windows && not x.escalated) _ _ x.result refl
            (finish_with-settled _ _ h)))
        refl
  react-settled (stop_poll exists) x h =
      chosen (x.stop_armed && exists) _ x x.result (request_termination-settled false x h) refl
  react-settled timeout_fires x h =
      chosen x.timeout_armed _ x x.result (request_termination-settled true _ h) refl
  react-settled escalation_fires x h =
      chosen x.escalation_armed _ x x.result (finish_closed-settled _ _ h) refl
  react-settled grace_fires x h = chosen x.grace_armed _ x x.result (finish_with-settled _ _ h) refl

  -- A result is final: no event changes it.
  pub run_process-settled :
      (x : Execution) (es : List ProcessEvent) (r : ProcessResult)
      → x.result ≡ some r
      → (run_process env x es).result ≡ some r
  run_process-settled x [] r h = h
  run_process-settled x (e ∷ es) r h =
      run_process-settled (react env e x) es r (react-settled e x (ground arith) ∙ h)
