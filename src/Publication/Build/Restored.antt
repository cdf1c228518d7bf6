-- ===== src/Publication/Build/Restored.antt =====
-- What a build that reports no commit leaves in the index.
use mihver.Prelude.{
  ◌≡◌, ◌∙◌, refl, ap, sym, subst, eq_iff, ℕ, String, Bool, true, false, Option, none, some, List,
  ◌∷◌, nonempty, Bool-cases, inl, inr, arith, some-injective,
}
use mihver.Publication.Envelope.{RawEnvelope}
use mihver.Publication.Host.{
  Host, Run, Ended, BlockReason, Command, done, blocked, threw, run_command, unexpected_error,
  status, read_tree, write_tree, index_restore_failed, post_commit_head_unreadable,
  index_snapshot_failed,
}
use mihver.Publication.Quiet.{tally, is_write, Quiet-run_command}
use mihver.Publication.Preflight.{Preflight, preflight_core}
use mihver.Publication.Preflight.Reads.{preflight_core-Still}
use mihver.Publication.Build.{
  BuildReceipt, BuildEnd, BuildStatus, built, unreadable, committed, refused, finish_build,
  build_from, build_after, build_run, build_local_commit, blocked_after_staging, fail_after_staging,
  report_restored, restore_index_to_tree, verify_restored, is_tree, snapshot_index_tree, receipt,
  with_empty_hooks_dir, in_hooks_dir, working_tree_clean,
}

abbrev pub writes : {W : Type 0} → Run W → ℕ
writes s = tally is_write s.commands

module _ {W : Type 0} (host : Host W) (dir root : String) where
  -- The tree that the index had behind the preflight, before any command that writes it, was put back
  -- and read again at the end, with nothing but the status behind it.
  pub record Restored (e : RawEnvelope) (begin : Run W) (finish : List Command) : Type 0 where
    pub tree : String
    pub after_first : Run W
    pub tree_read :
        snapshot_index_tree host dir root (preflight_core host dir root (some e) begin).1
        ≡ (some tree, after_first)
    pub first_unwritten :
        writes (preflight_core host dir root (some e) begin).1 ≡ tally is_write begin.commands
    pub before_last : Run W
    pub printed : String
    pub last : Run W
    pub put_back : run_command host dir root (read_tree tree) before_last ≡ (some printed, last)
    pub after_last : Run W
    pub read_again : snapshot_index_tree host dir root last ≡ (some tree, after_last)
    pub ends : finish ≡ status ∷ after_last.commands

  -- What the status of a receipt means for the index.
  pub data Account (e : RawEnvelope) (begin : Run W) (finish : List Command)
      : BuildStatus → Type 0 where
    with_commit : Account e begin finish committed
    after_commit : Account e begin finish (refused post_commit_head_unreadable)
    not_written :
        {reason : BlockReason}
        → tally is_write finish ≡ tally is_write begin.commands
        → Account e begin finish (refused reason)
    restore_failed :
        {reason : BlockReason} → Account e begin finish (refused (index_restore_failed reason))
    restored :
        {reason : BlockReason} → Restored e begin finish → Account e begin finish (refused reason)

  -- A restoration that succeeded: what it ran.
  record Readback (tree : String) (s t : Run W) : Type 0 where
    readback_printed : String
    readback_last : Run W
    readback_put :
        run_command host dir root (read_tree tree) s ≡ (some readback_printed, readback_last)
    readback_read : snapshot_index_tree host dir root readback_last ≡ (some tree, t)

  restore_index-read :
      (tree : String) (s t : Run W)
      → restore_index_to_tree host dir root tree s ≡ (true, t)
      → Readback tree s t
  unfolding restore_index_to_tree verify_restored is_tree
  restore_index-read tree s t h = go (run_command host dir root (read_tree tree) s) refl h
    where
      same : (o : Option String) → is_tree host dir root tree o ≡ true → o ≡ some tree
      same none h = absurd (ground arith)
      same (some out) h = ap some ((eq_iff out tree).0 h)

      go :
          (r : Option String × Run W)
          → run_command host dir root (read_tree tree) s ≡ r
          → verify_restored host dir root tree r ≡ (true, t)
          → Readback tree s t
      go (none, u) k h = absurd (ground arith)
      go (some out, u) k h = record {
        readback_printed = out;
        readback_last = u;
        readback_put = k;
        readback_read =
            ap (λ o. (o, (snapshot_index_tree host dir root u).1)) (same _ (ap (λ r. r.0) h))
            ∙ ap (λ x. (some tree, x)) (ap (λ r. r.1) h);
      }

  module _ (e : RawEnvelope) (begin : Run W) where
    -- The receipt and the session of a run agree.
    abbrev Accounts : BuildReceipt × Run W → Type 0
    Accounts r = Account e begin r.1.commands r.0.status

    unwritten-Accounts :
        (outcome : BlockReason) (head sha local : Option String) (s : Run W)
        → writes s ≡ tally is_write begin.commands
        → Accounts (receipt host dir root (some e) (refused outcome) head sha local s)
    unfolding receipt working_tree_clean run_command
    unwritten-Accounts outcome head sha local s same = not_written (omega (arith, same))

    -- The run behind the preflight.
    abbrev first : Run W
    first = (preflight_core host dir root (some e) begin).1

    module _ (tree : String) (after_first : Run W)
        (tree_read : snapshot_index_tree host dir root first ≡ (some tree, after_first))
        (same : writes first ≡ tally is_write begin.commands) where
      -- The restoration that is tried when staging fails.
      fail-Accounts :
          (head : String) (reason : BlockReason) (s : Run W)
          → Accounts (fail_after_staging host dir root (some e) head tree reason s)
      unfolding fail_after_staging report_restored blocked_after_staging receipt working_tree_clean
          run_command
      fail-Accounts head reason s = tried (restore_index_to_tree host dir root tree s) refl
        where
          tried :
              (b : Bool × Run W)
              → restore_index_to_tree host dir root tree s ≡ b
              → Accounts (report_restored host dir root (some e) head reason b)
          tried (false, t) k = restore_failed
          tried (true, t) k =
              let back = restore_index-read tree s t k in
              restored (record {
                tree = tree;
                after_first = after_first;
                tree_read = tree_read;
                first_unwritten = same;
                before_last = s;
                printed = back.readback_printed;
                last = back.readback_last;
                put_back = back.readback_put;
                after_last = t;
                read_again = back.readback_read;
                ends = refl;
              })

      finish_build-Accounts :
          (head : String) (r : Ended BuildEnd × Run W)
          → Accounts (finish_build host dir root (some e) head tree r)
      unfolding finish_build receipt
      finish_build-Accounts head (done (built sha), s) = with_commit
      finish_build-Accounts head (done (unreadable sha), s) = after_commit
      finish_build-Accounts head (blocked reason, s) = fail-Accounts head reason s
      finish_build-Accounts head (threw, s) = fail-Accounts head unexpected_error s

    snapshot-unwritten :
        (s : Run W) (o : Option String)
        → snapshot_index_tree host dir root first ≡ (o, s)
        → writes first ≡ tally is_write begin.commands
        → writes s ≡ tally is_write begin.commands
    unfolding snapshot_index_tree
    snapshot-unwritten s o h same =
        sym (ap (λ r. writes r.1) h)
        ∙ Quiet-run_command is_write host dir root write_tree first refl
        ∙ same

    build_from-Accounts :
        (p : Preflight) (snapshot : Option String × Run W)
        → snapshot_index_tree host dir root first ≡ snapshot
        → writes first ≡ tally is_write begin.commands
        → Accounts (build_from host dir root (some e) p snapshot)
    unfolding build_from blocked_after_staging
    build_from-Accounts p (none, s) h same =
        unwritten-Accounts index_snapshot_failed (some p.pre_publish_head) none
          (some p.pre_publish_head) s (snapshot-unwritten s none h same)
    build_from-Accounts p (some tree, s) h same = elim (Bool-cases (nonempty tree)) [
      | inl k ↦ rw k (finish_build-Accounts tree s h same p.pre_publish_head _)
      | inr k ↦ rw k (
          unwritten-Accounts index_snapshot_failed (some p.pre_publish_head) none
            (some p.pre_publish_head) s (snapshot-unwritten s (some tree) h same))
    ]

    build_after-Accounts :
        (ended : Ended Preflight × Run W)
        → preflight_core host dir root (some e) begin ≡ ended
        → writes ended.1 ≡ tally is_write begin.commands
        → (r : BuildReceipt) → (build_after host dir root (some e) ended).0 ≡ some r
        → Account e begin (build_after host dir root (some e) ended).1.commands r.status
    unfolding build_after
    build_after-Accounts (threw, s) is same r h = absurd (ground arith)
    build_after-Accounts (blocked reason, s) is same r h =
        subst
          (λ x.
            Account e begin
              (receipt host dir root (some e) (refused reason) e.expected_pre_publish_head none
                e.expected_pre_publish_head s).1.commands
              x.status)
          (some-injective _ _ h)
          (unwritten-Accounts reason e.expected_pre_publish_head none e.expected_pre_publish_head s
            same)
    build_after-Accounts (done p, s) is same r h =
        subst
          (λ x.
            Account e begin
              (build_from host dir root (some e) p (snapshot_index_tree host dir root s)).1.commands
              x.status)
          (some-injective _ _ h)
          (build_from-Accounts p (snapshot_index_tree host dir root s)
            (ap (λ x. snapshot_index_tree host dir root x.1) is) (ap (λ x. writes x.1) is ∙ same))

  build_run-Accounts :
      (e : RawEnvelope) (begin : Run W) (r : BuildReceipt)
      → (build_run host dir root (some e) begin).0 ≡ some r
      → Account e begin (build_run host dir root (some e) begin).1.commands r.status
  unfolding build_run
  build_run-Accounts e begin r h =
      build_after-Accounts e begin (preflight_core host dir root (some e) begin) refl
        (preflight_core-Still is_write (λ c k. k) host dir root (some e) begin) r h

-- The account of a build: in the directory that was made for its hooks, from the run that stands
-- there.
pub record Accounted {W : Type 0} (host : Host W) (root : String) (e : RawEnvelope) (s : Run W)
    (finish : List Command) (status : BuildStatus) : Type 0 where
  pub dir : String
  pub world : W
  pub made : host.make_dir s.world ≡ (some dir, world)
  pub account : Account host dir root e (record s { world = world }) finish status

-- The status of a receipt accounts for the index: a commit is reported, or it was made and cannot be
-- read, or no command wrote the index, or the receipt says that its restoration failed, or the tree
-- that the index had behind the preflight of this build, before any command that writes it, was put
-- back by `read-tree`, and a `write-tree` at the end gave that same tree.
pub build_local_commit-Accounts :
    {W : Type 0} (host : Host W) (repo_root : String) (e : RawEnvelope) (s : Run W)
    (r : BuildReceipt)
    → (build_local_commit host repo_root (some e) s).0 ≡ some r
    → Accounted host
        (host.resolve repo_root)
        e
        s
        (build_local_commit host repo_root (some e) s).1.commands
        r.status
unfolding build_local_commit with_empty_hooks_dir in_hooks_dir
build_local_commit-Accounts {W} host repo_root e s r = made_case (host.make_dir s.world) refl
  where
    made_case :
        (made : Option String × W)
        → host.make_dir s.world ≡ made
        → (in_hooks_dir host (λ dir. build_run host dir (host.resolve repo_root) (some e)) s made).0
          ≡ some r
        → Accounted host
            (host.resolve repo_root)
            e
            s
            (in_hooks_dir host
              (λ dir. build_run host dir (host.resolve repo_root) (some e))
              s
              made).1.commands
            r.status
    made_case (none, w) k h = absurd (ground arith)
    made_case (some dir, w) k h = record {
      dir = dir;
      world = w;
      made = k;
      account = build_run-Accounts host dir (host.resolve repo_root) e (record s { world = w }) r h;
    }
