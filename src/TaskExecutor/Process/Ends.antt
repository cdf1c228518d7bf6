-- ===== src/TaskExecutor/Process/Ends.antt =====
-- An execution that runs out of its time ends.
use mihver.TaskExecutor.Process.Settled.{run_process-settled}
use mihver.TaskExecutor.Process.{
  Spawned, spawned, spawn_not_found, spawn_failed, Environment, Execution, is_settled, Finished,
  settle_with, finish_with, launched, fallback_spawned, look_up, terminate, request_termination,
  first, ProcessEvent, out_chunk, err_chunk, child_error, child_close, stop_poll, timeout_fires,
  escalation_fires, grace_fires, same_child, is_current_child, not_found, on_error, closed,
  on_close, finish_closed, escalate, grace_expires, react, ProcessResult, command_spawned, launch,
  run_process, idle, arm, begin,
}
use mihver.Prelude.{
  ◌≡◌, refl, ◌⊎◌, inl, inr, String, Bool, true, false, ◌||◌, Option, none, some, arith, Bool-cases,
  if◌then◌else◌, sym, subst, ℕ, not, ◌&&◌, ap, ◌∙◌, List, [], ◌∷◌, ◌++◌, Option-cases,
}

-- What supervises an execution: its timeout until it is being terminated, and then the grace.
abbrev Watched : Bool → Bool → Bool → Bool → Type 0
Watched settled terminating timeout grace =
    (settled ≡ true)
    ⊎ (((terminating ≡ false) × (timeout ≡ true)) ⊎ ((terminating ≡ true) × (grace ≡ true)))

abbrev Watch : Execution → Type 0
Watch x = Watched (is_settled x) x.terminating x.timeout_armed x.grace_armed

-- It has ended or is being terminated within the grace.
abbrev Ending : Execution → Type 0
Ending x = (is_settled x ≡ true) ⊎ ((x.terminating ≡ true) × (x.grace_armed ≡ true))

finish_with-ends : (f : Finished) (x : Execution) → is_settled (finish_with f x) ≡ true
unfolding finish_with settle_with
finish_with-ends f x = elim (Bool-cases (is_settled x)) [ inl e ↦ rw e e | inr e ↦ rw e refl ]

choose : (P : Execution → Type 0) (b : Bool) (x y : Execution) → P x → P y → P (if b then x else y)
choose P true x y h k = h
choose P false x y h k = k

module _ (env : Environment) where
  request_termination-Ending :
      (by_timeout : Bool) (x : Execution)
      → (x.terminating ≡ true → (is_settled x ≡ true) ⊎ (x.grace_armed ≡ true))
      → Ending (request_termination env by_timeout x)
  unfolding request_termination terminate
  request_termination-Ending by_timeout x h = elim (Bool-cases (x.terminating || is_settled x)) [
    | inr e ↦ rw e (inr (refl, refl))
    | inl e ↦ rw e (elim (Bool-cases x.terminating) [
      | inr t ↦ inl (ground arith)
      | inl t ↦ elim (h t) [ inl s ↦ inl s | inr g ↦ inr (t, g) ]
    ])
  ]

  -- What holds of every execution that has ended, and otherwise looks at what supervises it.
  module _ (Q : Bool → Bool → Bool → Bool → Type 0)
      (ended : (terminating timeout grace : Bool) → Q true terminating timeout grace) where
    abbrev Holds : Execution → Type 0
    Holds x = Q (is_settled x) x.terminating x.timeout_armed x.grace_armed

    finish_with-Holds : (f : Finished) (x : Execution) → Holds (finish_with f x)
    finish_with-Holds f x =
        subst
          (λ b.
            Q b (finish_with f x).terminating (finish_with f x).timeout_armed
              (finish_with f x).grace_armed)
          (sym (finish_with-ends f x)) (ended _ _ _)

    fallback_spawned-Holds :
        (message : String) (s : Spawned) (x : Execution)
        → Holds x
        → Holds (fallback_spawned env message s x)
    unfolding fallback_spawned launched
    fallback_spawned-Holds message spawned x h = h
    fallback_spawned-Holds message (spawn_not_found m) x h = finish_with-Holds _ x
    fallback_spawned-Holds message (spawn_failed m) x h = finish_with-Holds _ x

    look_up-Holds :
        (message : String) (o : Option String) (x : Execution)
        → Holds x
        → Holds (look_up env message o x)
    unfolding look_up
    look_up-Holds message none x h = finish_with-Holds _ x
    look_up-Holds message (some command) x h = fallback_spawned-Holds message _ x h

    finish_closed-Holds :
        (o : Option (Option ℕ)) (x : Execution) → Holds x → Holds (finish_closed env o x)
    unfolding finish_closed
    finish_closed-Holds none x h = h
    finish_closed-Holds (some code) x h = finish_with-Holds _ x

    -- Every event keeps it that the two requests of a termination keep it.
    react-Holds :
        (e : ProcessEvent) (x : Execution)
        → Holds x
        → Holds (request_termination env false x)
        → Holds (request_termination env true (record x { timeout_armed = false }))
        → Holds (react env e x)
    unfolding react on_error on_close closed escalate grace_expires not_found
    react-Holds (out_chunk chunk) x h stop time = h
    react-Holds (err_chunk chunk) x h stop time = h
    react-Holds (child_error child enoent message) x h stop time =
        choose Holds (x.hears_error child) _ x
          (choose Holds (enoent && same_child child first) _ _ (look_up-Holds message _ _ h)
            (finish_with-Holds _ _))
          h
    react-Holds (child_close child code) x h stop time =
        choose Holds (x.hears_close child) _ x
          (choose Holds (is_settled x || not (is_current_child x.child child)) _ _ h (
            choose Holds (x.terminating && not env.windows && not x.escalated) _ _ h
              (finish_with-Holds _ _)))
          h
    react-Holds (stop_poll exists) x h stop time = choose Holds (x.stop_armed && exists) _ x stop h
    react-Holds timeout_fires x h stop time = choose Holds x.timeout_armed _ x time h
    react-Holds escalation_fires x h stop time =
        choose Holds x.escalation_armed _ x (finish_closed-Holds _ _ h) h
    react-Holds grace_fires x h stop time = choose Holds x.grace_armed _ x (finish_with-Holds _ _) h

  Watch-Ending : (x : Execution) → Ending x → Watch x
  Watch-Ending x (inl s) = inl s
  Watch-Ending x (inr h) = inr (inr h)

  graced :
      (x : Execution)
      → Watch x
      → x.terminating ≡ true
      → (is_settled x ≡ true) ⊎ (x.grace_armed ≡ true)
  graced x (inl s) t = inl s
  graced x (inr (inl (f, timeout))) t = absurd (ground arith)
  graced x (inr (inr (q, grace))) t = inr grace

  react-Watch : (e : ProcessEvent) (x : Execution) → Watch x → Watch (react env e x)
  react-Watch e x h =
      react-Holds Watched (λ t o g. inl refl) e x h
        (Watch-Ending (request_termination env false x)
          (request_termination-Ending false x (graced x h)))
        (Watch-Ending (request_termination env true (record x { timeout_armed = false }))
          (request_termination-Ending true (record x { timeout_armed = false }) (graced x h)))

  react-Ending : (e : ProcessEvent) (x : Execution) → Ending x → Ending (react env e x)
  react-Ending e x h =
      react-Holds (λ s t o g. (s ≡ true) ⊎ ((t ≡ true) × (g ≡ true))) (λ t o g. inl refl) e x h
        (request_termination-Ending false x (graced x (Watch-Ending x h)))
        (request_termination-Ending true (record x { timeout_armed = false })
          (graced x (Watch-Ending x h)))

  timeout-Ending : (x : Execution) → Watch x → Ending (react env timeout_fires x)
  unfolding react
  timeout-Ending x h = elim (Bool-cases x.timeout_armed) [
    | inl e ↦
        rw e (request_termination-Ending true (record x { timeout_armed = false }) (graced x h))
    | inr e ↦ rw e (elim h [
      | inl s ↦ inl s
      | inr w ↦ elim w [
        | inl (f, timeout) ↦ absurd (ground arith)
        | inr (t, grace) ↦ inr (t, grace)
      ]
    ])
  ]

  grace-settles : (x : Execution) → Ending x → is_settled (react env grace_fires x) ≡ true
  unfolding react grace_expires
  grace-settles x h = elim (Bool-cases x.grace_armed) [
    | inl e ↦ rw e (finish_with-ends _ _)
    | inr e ↦ rw e (elim h [ inl s ↦ s | inr (t, grace) ↦ absurd (ground arith) ])
  ]

  arm-Watch : (x : Execution) → x.terminating ≡ false → Watch (arm env x)
  unfolding arm
  arm-Watch x h = elim (Bool-cases (is_settled x)) [
    | inl e ↦ rw e (inl e)
    | inr e ↦ rw e (inr (inl (h, refl)))
  ]

  finish_with-terminating :
      (f : Finished) (x : Execution) → (finish_with f x).terminating ≡ x.terminating
  unfolding finish_with settle_with
  finish_with-terminating f x = elim (Bool-cases (is_settled x)) [
    | inl e ↦ rw e refl
    | inr e ↦ rw e refl
  ]

  launch-terminating : (x : Execution) → (launch env x).terminating ≡ x.terminating
  unfolding launch not_found
  launch-terminating x = by_spawn env.spawn_command
    where
      by_fallback :
          (message : String) (s : Spawned)
          → (fallback_spawned env message s x).terminating ≡ x.terminating
      by_fallback message spawned = unfold fallback_spawned launched in refl
      by_fallback message (spawn_not_found m) =
          unfold fallback_spawned in finish_with-terminating _ x
      by_fallback message (spawn_failed m) = unfold fallback_spawned in finish_with-terminating _ x

      looked_up :
          (message : String) (o : Option String)
          → (look_up env message o x).terminating ≡ x.terminating
      looked_up message none = unfold look_up in finish_with-terminating _ x
      looked_up message (some command) = unfold look_up in by_fallback message env.spawn_fallback

      by_spawn : (s : Spawned) → (command_spawned env s x).terminating ≡ x.terminating
      by_spawn spawned = unfold command_spawned launched in refl
      by_spawn (spawn_not_found m) = unfold command_spawned not_found in looked_up m env.fallback
      by_spawn (spawn_failed m) = unfold command_spawned in finish_with-terminating _ x

  begin-Watch : Watch (begin env)
  unfolding begin
  begin-Watch =
      arm-Watch (launch env (idle env)) (launch-terminating (idle env) ∙ (unfold idle in refl))

  run_process-Watch :
      (x : Execution) (es : List ProcessEvent) → Watch x → Watch (run_process env x es)
  run_process-Watch x [] h = h
  run_process-Watch x (e ∷ es) h = run_process-Watch (react env e x) es (react-Watch e x h)

  run_process-Ending :
      (x : Execution) (es : List ProcessEvent) → Ending x → Ending (run_process env x es)
  run_process-Ending x [] h = h
  run_process-Ending x (e ∷ es) h = run_process-Ending (react env e x) es (react-Ending e x h)

  run_process-append :
      (x : Execution) (es fs : List ProcessEvent)
      → run_process env x (es ++ fs) ≡ run_process env (run_process env x es) fs
  run_process-append x [] fs = refl
  run_process-append x (e ∷ es) fs = run_process-append (react env e x) es fs

  settled-some : (x : Execution) → is_settled x ≡ true → (r : ProcessResult) × (x.result ≡ some r)
  settled-some x h = elim (Option-cases x.result) [ inl e ↦ absurd (ground arith) | inr s ↦ s ]

  -- Whatever else happens, an execution whose timeout is reached and whose grace then expires has a
  -- result from there on: neither a child that never closes nor any order of the other events keeps
  -- it open.
  pub run_process-settles :
      (before between after : List ProcessEvent)
      → (r : ProcessResult) × ((run_process env
            (begin env)
            (before ++ timeout_fires ∷ (between ++ grace_fires ∷ after))).result
          ≡ some r)
  run_process-settles before between after =
      let x = run_process env (begin env) before in
      let y = run_process env (react env timeout_fires x) between in
      let ending : Ending y =
        run_process-Ending (react env timeout_fires x) between
          (timeout-Ending x (run_process-Watch (begin env) before begin-Watch)) in
      let (r, settled) = settled-some (react env grace_fires y) (grace-settles y ending) in
      (
        r,
        ap (λ z. z.result)
              (run_process-append (begin env) before
                (timeout_fires ∷ (between ++ grace_fires ∷ after)))
            ∙ ap (λ z. z.result)
                (run_process-append (react env timeout_fires x) between (grace_fires ∷ after))
            ∙ run_process-settled env (react env grace_fires y) after r settled,
      )
