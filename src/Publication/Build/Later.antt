-- ===== src/Publication/Build/Later.antt =====
-- The commands behind a session: what a build runs after its commit, or without one.
use mihver.Prelude.{
  ap, sym, ◌∙◌, ◌≡◌, refl, ◌+◌, String, Bool, true, false, Option, none, some, List, [], ◌∷◌, ◌++◌,
  arith, ◌⊎◌, inl, inr, ◌≢◌,
}
use mihver.Publication.Host.{
  Host, Run, Command, Ended, BlockReason, unexpected_error, done, blocked, threw, continue, try_git,
  run_command, commit, rev_parse_head, require_some, commit_failed, pure, ◌>>=◌,
}
use mihver.Publication.Quiet.{tally, is_commit}
use mihver.Publication.Fingerprint.{trimmed}
use mihver.Publication.Preflight.{Preflight}
use mihver.Publication.Build.Sealed.{commits, Seal, stage_and_seal-Quiet, stage_and_seal-Seal}
use mihver.Publication.Build.{
  BuildReceipt, BuildEnd, committed, refused, commit_result, commit_step, stage_and_seal,
  build_body, working_tree_clean, snapshot_index_tree, restore_index_to_tree, RawEnvelope, status,
  write_tree, verify_restored, receipt, fail_after_staging, finish_build, read_tree, BuildStatus,
  report_restored, built, blocked_after_staging, unreadable,
}

-- A later session, with further commands of which none commits.
pub record Later {W : Type 0} (s t : Run W) : Type 0 where
  pub added : List Command
  pub extends : t.commands ≡ added ++ s.commands
  pub none_commits : tally is_commit added ≡ 0

pub Later-refl : {W : Type 0} (s : Run W) → Later s s
Later-refl s = record { added = []; extends = refl; none_commits = refl }

append_assoc : (xs ys zs : List Command) → (xs ++ ys) ++ zs ≡ xs ++ (ys ++ zs)
append_assoc [] ys zs = refl
append_assoc (x ∷ xs) ys zs = ap (λ cs. x ∷ cs) (append_assoc xs ys zs)

tally-append :
    (p : Command → Bool) (xs ys : List Command) → tally p (xs ++ ys) ≡ tally p xs + tally p ys
tally-append p [] ys = omega arith
tally-append p (x ∷ xs) ys = omega (arith, tally-append p xs ys)

pub Later-trans : {W : Type 0} (s t u : Run W) → Later s t → Later t u → Later s u
Later-trans s t u a b = record {
  added = b.added ++ a.added;
  extends =
      b.extends
      ∙ ap (λ cs. b.added ++ cs) a.extends
      ∙ sym (append_assoc b.added a.added s.commands);
  none_commits =
      omega (arith, tally-append is_commit b.added a.added, a.none_commits, b.none_commits);
}

pub Later-commits : {W : Type 0} (s t : Run W) → Later s t → commits t ≡ commits s
Later-commits s t a =
    ap (tally is_commit) a.extends
    ∙ tally-append is_commit a.added s.commands
    ∙ (omega (arith, a.none_commits))

-- Whether a run ends with a receipt of a commit.
abbrev pub reports_commit : Option BuildReceipt → Bool
reports_commit none = false
reports_commit (some r) = elim r.status [ committed ↦ true | refused reason ↦ false ]

module _ {W : Type 0} (host : Host W) (dir root : String) where
  pub Later-run :
      (c : Command) (s : Run W) → is_commit c ≡ false → Later s (run_command host dir root c s).1
  unfolding run_command
  Later-run c s h = record { added = c ∷ []; extends = refl; none_commits = rw h (omega arith) }

  -- Behind the command that commits.
  pub commit_step-Later :
      (message : String) (s : Run W)
      → Later
          (run_command host dir root (commit message) s).1
          (commit_step host dir root message s).1
  unfolding commit_step ◌>>=◌ try_git
  commit_step-Later message s =
      go (run_command host dir root (commit message) s).0
        (run_command host dir root (commit message) s).1
    where
      go :
          (o : Option String) (u : Run W)
          → Later u
              (continue
                (require_some o commit_failed u).0
                (λ out. try_git host dir root rev_parse_head >>= λ after.
                  pure (commit_result (trimmed after)))
                (require_some o commit_failed u).1).1
      go none u = Later-refl u
      go (some out) u = Later-run rev_parse_head u refl

  -- A body that does not end with a value has run no commit, or it has sealed one.
  pub record Body (p : Preflight) (fingerprint message : String) (s : Run W)
      (r : Ended BuildEnd × Run W) : Type 0 where
    pub before : Run W
    pub seal : Seal host dir root p.files fingerprint p.pre_publish_head before
    pub same_count : commits before ≡ commits s
    pub runs : commit_step host dir root message before ≡ r

  pub Body-cases :
      (p : Preflight) (fingerprint message : String) (s : Run W)
      → ((commits (build_body host dir root p fingerprint message s).1 ≡ commits s)
          × ((b : BuildEnd) → (build_body host dir root p fingerprint message s).0 ≢ done b))
        ⊎ Body p fingerprint message s (build_body host dir root p fingerprint message s)
  unfolding build_body ◌>>=◌
  Body-cases p fingerprint message s =
      go (stage_and_seal host dir root p fingerprint s).0
        (stage_and_seal host dir root p fingerprint s).1 refl
    where
      go :
          (e : Ended (Unit {0})) (t : Run W)
          → stage_and_seal host dir root p fingerprint s ≡ (e, t)
          → ((commits (continue e (λ x. commit_step host dir root message) t).1 ≡ commits s)
              × ((b : BuildEnd)
                  → (continue e (λ x. commit_step host dir root message) t).0 ≢ done b))
            ⊎ Body p fingerprint message s (continue e (λ x. commit_step host dir root message) t)
      go (done x) t h = inr (record {
        before = t;
        seal = stage_and_seal-Seal host dir root p fingerprint s t x h;
        same_count =
            sym (ap (λ r. commits r.1) h) ∙ stage_and_seal-Quiet host dir root p fingerprint s;
        runs = refl;
      })
      go (blocked reason) t h = inl (
        sym (ap (λ r. commits r.1) h) ∙ stage_and_seal-Quiet host dir root p fingerprint s,
        λ b e. cc,
      )
      go threw t h = inl (
        sym (ap (λ r. commits r.1) h) ∙ stage_and_seal-Quiet host dir root p fingerprint s,
        λ b e. cc,
      )

  pub working_tree_clean-Later : (s : Run W) → Later s (working_tree_clean host dir root s).1
  unfolding working_tree_clean
  working_tree_clean-Later s = Later-run status s refl

  pub snapshot-Later : (s : Run W) → Later s (snapshot_index_tree host dir root s).1
  unfolding snapshot_index_tree
  snapshot-Later s = Later-run write_tree s refl

  restore-Later :
      (tree : String) (s : Run W) → Later s (restore_index_to_tree host dir root tree s).1
  unfolding restore_index_to_tree verify_restored
  restore-Later tree s =
      go (run_command host dir root (read_tree tree) s).0 _ (Later-run (read_tree tree) s refl)
    where
      go :
          (o : Option String) (t : Run W)
          → Later s t
          → Later s (verify_restored host dir root tree (o, t)).1
      go none t a = a
      go (some out) t a = Later-trans s t _ a (snapshot-Later t)

  module _ (envelope : Option RawEnvelope) where
    pub receipt-Later :
        (outcome : BuildStatus) (head sha local : Option String) (s : Run W)
        → Later s (receipt host dir root envelope outcome head sha local s).1
    unfolding receipt
    receipt-Later outcome head sha local s = working_tree_clean-Later s

    fail-Later :
        (head tree : String) (reason : BlockReason) (s : Run W)
        → Later s (fail_after_staging host dir root envelope head tree reason s).1
    unfolding fail_after_staging report_restored blocked_after_staging
    fail-Later head tree reason s =
        go (restore_index_to_tree host dir root tree s).0 _ (restore-Later tree s)
      where
        go :
            (b : Bool) (t : Run W)
            → Later s t
            → Later s (report_restored host dir root envelope head reason (b, t)).1
        go true t a = Later-trans s t _ a (receipt-Later _ _ _ _ t)
        go false t a = Later-trans s t _ a (receipt-Later _ _ _ _ t)

    pub finish_build-Later :
        (head tree : String) (e : Ended BuildEnd) (s : Run W)
        → Later s (finish_build host dir root envelope head tree (e, s)).1
    unfolding finish_build
    finish_build-Later head tree (done (built sha)) s = receipt-Later _ _ _ _ s
    finish_build-Later head tree (done (unreadable sha)) s = receipt-Later _ _ _ _ s
    finish_build-Later head tree (blocked reason) s = fail-Later head tree reason s
    finish_build-Later head tree threw s = fail-Later head tree unexpected_error s

    fail-refused :
        (head tree : String) (reason : BlockReason) (s : Run W)
        → reports_commit (some (fail_after_staging host dir root envelope head tree reason s).0)
          ≡ false
    unfolding fail_after_staging report_restored blocked_after_staging receipt
    fail-refused head tree reason s = go (restore_index_to_tree host dir root tree s).0 _
      where
        go :
            (b : Bool) (t : Run W)
            → reports_commit (some (report_restored host dir root envelope head reason (b, t)).0)
              ≡ false
        go true t = refl
        go false t = refl

    pub finish_build-refused :
        (head tree : String) (e : Ended BuildEnd) (s : Run W)
        → ((b : BuildEnd) → e ≢ done b)
        → reports_commit (some (finish_build host dir root envelope head tree (e, s)).0) ≡ false
    unfolding finish_build
    finish_build-refused head tree (done b) s h = absurd (h b refl)
    finish_build-refused head tree (blocked reason) s h = fail-refused head tree reason s
    finish_build-refused head tree threw s h = fail-refused head tree unexpected_error s
