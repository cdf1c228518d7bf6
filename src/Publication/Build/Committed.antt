-- ===== src/Publication/Build/Committed.antt =====
-- The one commit of a build, and what it reports.
use mihver.Prelude.{
  ◌≡◌, ◌≢◌, ◌∙◌, refl, String, false, Option, none, some, List, ◌∷◌, ◌++◌, ◌⊎◌, inl, inr, subst,
  nonempty, Bool-cases,
}
use mihver.Publication.Envelope.{RawEnvelope, text_of}
use mihver.Publication.Host.{
  Host, Run, Ended, BlockReason, index_snapshot_failed, done, blocked, threw, run_command, commit,
}
use mihver.Publication.Quiet.{tally, is_commit, is_commit-is_write}
use mihver.Publication.Preflight.{Preflight, preflight_core}
use mihver.Publication.Preflight.Reads.{preflight_core-Still}
use mihver.Publication.Preflight.Guards.{Guarded, preflight_core-Guarded}
use mihver.Publication.Build.Sealed.{commits, Seal}
use mihver.Publication.Build.Later.{
  Later, Later-trans, Later-commits, Body, Body-cases, reports_commit, commit_step-Later,
  finish_build-Later, finish_build-refused, receipt-Later, snapshot-Later,
}
use mihver.Publication.Build.{
  in_hooks_dir, with_empty_hooks_dir, build_local_commit, refused, BuildReceipt, BuildEnd,
  finish_build, build_from, build_after, build_run, blocked_after_staging, snapshot_index_tree,
  receipt, Command,
}

module _ {W : Type 0} (host : Host W) (dir root : String) where
  -- The commit of a run from `start` to `finish`: its envelope passed the preflight, what is in the
  -- index and HEAD were sealed in `before`, and there it was run, once.
  pub record Commit (e : RawEnvelope) (start finish : Run W) : Type 0 where
    pub preflight : Preflight
    pub guarded : Guarded host dir root e preflight
    pub before : Run W
    pub seal :
        Seal host dir root preflight.files
          (text_of e.publication_fingerprint)
          preflight.pre_publish_head
          before
    pub later : List Command
    pub follows : finish.commands ≡ later ++ commit (text_of e.commit_message) ∷ before.commands
    pub none_later : tally is_commit later ≡ 0
    pub none_before : commits before ≡ commits start

  -- No commit was run, and none is reported; or one was.
  abbrev pub CommitsOnce : RawEnvelope → Run W → Option BuildReceipt × Run W → Type 0
  CommitsOnce e s r = ((commits r.1 ≡ commits s) × (reports_commit r.0 ≡ false)) ⊎ Commit e s r.1

  module _ (e : RawEnvelope) (p : Preflight) (start : Run W)
      (guarded : Guarded host dir root e p) where
    Body-Commit :
        (head tree : String) (s : Run W) (r : Ended BuildEnd × Run W)
        → commits s ≡ commits start
        → Body host dir root p (text_of e.publication_fingerprint) (text_of e.commit_message) s r
        → Commit e start (finish_build host dir root (some e) head tree r).1
    unfolding run_command
    Body-Commit head tree s r same b =
        let after : Later (run_command host dir root (commit (text_of e.commit_message)) b.before).1
            r.1 =
          subst
            (λ u.
              Later (run_command host dir root (commit (text_of e.commit_message)) b.before).1 u.1)
            b.runs (commit_step-Later host dir root (text_of e.commit_message) b.before) in
        let whole =
          Later-trans _ r.1 _ after (finish_build-Later host dir root (some e) head tree r.0 r.1) in
        record {
          preflight = p;
          guarded = guarded;
          before = b.before;
          seal = b.seal;
          later = whole.added;
          follows = whole.extends;
          none_later = whole.none_commits;
          none_before = b.same_count ∙ same;
        }

    no_commit :
        (r : BuildReceipt × Run W) (s : Run W)
        → Later s r.1
        → commits s ≡ commits start
        → reports_commit (some r.0) ≡ false
        → CommitsOnce e start (some r.0, r.1)
    no_commit r s after same reported = inl (Later-commits s r.1 after ∙ same, reported)

    unsealed-CommitsOnce :
        (head : String) (reason : BlockReason) (s : Run W)
        → commits s ≡ commits start
        → CommitsOnce e start (
          some (blocked_after_staging host dir root (some e) head reason s).0,
          (blocked_after_staging host dir root (some e) head reason s).1,
        )
    unfolding blocked_after_staging receipt
    unsealed-CommitsOnce head reason s same =
        no_commit (blocked_after_staging host dir root (some e) head reason s) s
          (receipt-Later host dir root (some e) (refused reason) (some head) none (some head) s)
          same refl

    Body-CommitsOnce :
        (head tree : String) (s : Run W) (r : Ended BuildEnd × Run W)
        → commits s ≡ commits start
        → ((commits r.1 ≡ commits s) × ((b : BuildEnd) → r.0 ≢ done b))
          ⊎ Body host dir root p (text_of e.publication_fingerprint) (text_of e.commit_message) s r
        → CommitsOnce e start (
          some (finish_build host dir root (some e) head tree r).0,
          (finish_build host dir root (some e) head tree r).1,
        )
    Body-CommitsOnce head tree s r same (inl (none_run, failed)) =
        no_commit (finish_build host dir root (some e) head tree r) r.1
          (finish_build-Later host dir root (some e) head tree r.0 r.1) (none_run ∙ same)
          (finish_build-refused host dir root (some e) head tree r.0 r.1 failed)
    Body-CommitsOnce head tree s r same (inr b) = inr (Body-Commit head tree s r same b)

    build_from-CommitsOnce :
        (snapshot : Option String × Run W)
        → commits snapshot.1 ≡ commits start
        → CommitsOnce e start (
          some (build_from host dir root (some e) p snapshot).0,
          (build_from host dir root (some e) p snapshot).1,
        )
    unfolding build_from
    build_from-CommitsOnce (none, s) same =
        unsealed-CommitsOnce p.pre_publish_head index_snapshot_failed s same
    build_from-CommitsOnce (some tree, s) same = elim (Bool-cases (nonempty tree)) [
      | inl h ↦
          rw h
            (Body-CommitsOnce p.pre_publish_head tree s _ same (Body-cases host dir root p _ _ s))
      | inr h ↦ rw h (unsealed-CommitsOnce p.pre_publish_head index_snapshot_failed s same)
    ]

  build_after-CommitsOnce :
      (e : RawEnvelope) (start : Run W) (ended : Ended Preflight) (t : Run W)
      → preflight_core host dir root (some e) start ≡ (ended, t)
      → commits t ≡ commits start
      → CommitsOnce e start (build_after host dir root (some e) (ended, t))
  unfolding build_after receipt
  build_after-CommitsOnce e start threw t h same = inl (same, refl)
  build_after-CommitsOnce e start (blocked reason) t h same = inl (
    Later-commits t _ (
          receipt-Later host dir root (some e) (refused reason) e.expected_pre_publish_head none
            e.expected_pre_publish_head t)
        ∙ same,
    refl,
  )
  build_after-CommitsOnce e start (done p) t h same =
      build_from-CommitsOnce e p start (preflight_core-Guarded host dir root e p start t h)
        (snapshot_index_tree host dir root t)
        (Later-commits t _ (snapshot-Later host dir root t) ∙ same)

  build_run-CommitsOnce :
      (e : RawEnvelope) (start : Run W)
      → CommitsOnce e start (build_run host dir root (some e) start)
  unfolding build_run
  build_run-CommitsOnce e start =
      build_after-CommitsOnce e start _ _ refl
        (preflight_core-Still is_commit is_commit-is_write host dir root (some e) start)

-- A build runs no commit and reports none; or it ran exactly one, with the message of the envelope,
-- after a passed preflight, and behind it no other. Right before the commit the blobs in the index
-- of the files of the preflight hashed to the fingerprint of the envelope, and HEAD was read to be
-- the expected one.
pub build_local_commit-CommitsOnce :
    {W : Type 0} (host : Host W) (repo_root : String) (e : RawEnvelope) (s : Run W)
    → ((commits (build_local_commit host repo_root (some e) s).1 ≡ commits s)
        × (reports_commit (build_local_commit host repo_root (some e) s).0 ≡ false))
      ⊎ ((dir : String) × Commit host dir
            (host.resolve repo_root)
            e
            s
            (build_local_commit host repo_root (some e) s).1)
unfolding build_local_commit with_empty_hooks_dir in_hooks_dir
build_local_commit-CommitsOnce {W} host repo_root e s = made_case (host.make_dir s.world)
  where
    made_case :
        (made : Option String × W)
        → (let r =
              in_hooks_dir host
                (λ dir. build_run host dir (host.resolve repo_root) (some e))
                s
                made in
            ((commits r.1 ≡ commits s) × (reports_commit r.0 ≡ false))
            ⊎ ((dir : String) × Commit host dir (host.resolve repo_root) e s r.1))
    made_case (none, w) = inl (refl, refl)
    made_case (some dir, w) =
        elim (build_run-CommitsOnce host dir (host.resolve repo_root) e (record s { world = w })) [
          | inl h ↦ inl h
          | inr c ↦ inr (
            dir,
            record {
              preflight = c.preflight;
              guarded = c.guarded;
              before = c.before;
              seal = c.seal;
              later = c.later;
              follows = c.follows;
              none_later = c.none_later;
              none_before = c.none_before;
            },
          )
        ]
