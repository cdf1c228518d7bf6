-- ===== src/Publication/Build.antt =====
-- `buildLocalCommit` and `preflight` of scripts/dev/publication-builder.mjs: preflight, staging, the
-- seals and the commit, with the restoration of the index.
pub mod Sealed
pub mod Later
pub mod Committed
pub mod Restored
use mihver.Prelude.{
  String, Bool, true, false, not, ◌&&◌, Option, none, some, List, [], ◌∷◌, ◌==◌, trim, all,
  includes, set_size, length, eqb, is_hex40, nonempty, if◌then◌else◌,
}
use mihver.Publication.Envelope.{RawEnvelope, RawRepository, text_of}
use mihver.Publication.Host.{
  Host, Act, Run, Command, BlockReason, rev_parse_head, status, write_tree, staged_names, add,
  remove, read_tree, commit, index_snapshot_failed, staging_failed, staged_name_mismatch,
  staged_blob_mismatch, staged_fingerprint_mismatch, pre_commit_head_changed, commit_failed,
  post_commit_head_unreadable, unexpected_error, index_restore_failed, Ended, done, blocked, threw,
  try_git, pure, require, require_some, ◌>>=◌, ◌>>◌, run_command,
}
use mihver.Publication.Files.{Shape, shape_a, shape_b, FileEntry, lines}
use mihver.Publication.Fingerprint.{
  trimmed, raw_blob_sha, staged_blob_sha, compute_staged_fingerprint,
}
use mihver.Publication.Preflight.{Preflight, paths_of, preflight_core}

-- The fields that a receipt copies from the envelope.
pub record ReceiptBase : Type 0 where
  pub repository : Option RawRepository
  pub branch : Option String
  pub base_commit : Option String
  pub fingerprint : Option String

pub data BuildStatus : Type 0 where
  committed : BuildStatus
  refused : BlockReason → BuildStatus

pub record BuildReceipt : Type 0 where
  pub status : BuildStatus
  pub base : ReceiptBase
  pub pre_publish_head : Option String
  pub commit_sha : Option String
  pub local_head : Option String
  pub is_clean : Bool

-- How the part behind the snapshot of the index returns of itself.
pub data BuildEnd : Type 0 where
  built : String → BuildEnd
  -- a commit was made, but what HEAD then is was not read
  unreadable : Option String → BuildEnd

abbrev pub receipt_base : Option RawEnvelope → ReceiptBase
receipt_base none = record {
  repository = none;
  branch = none;
  base_commit = none;
  fingerprint = none;
}
receipt_base (some e) = record {
  repository = e.repository;
  branch = e.branch;
  base_commit = e.base_commit;
  fingerprint = e.publication_fingerprint;
}

abbrev pub expected_head : Option RawEnvelope → Option String
expected_head none = none
expected_head (some e) = e.expected_pre_publish_head

abbrev pub message_of : Option RawEnvelope → String
message_of none = ""
message_of (some e) = text_of e.commit_message

abbrev pub fingerprint_of : Option RawEnvelope → String
fingerprint_of none = ""
fingerprint_of (some e) = text_of e.publication_fingerprint

-- `stagedMismatch`, negated
unfoldable pub names_match : List String → List String → Bool
names_match expected actual =
    eqb (length actual) (set_size expected) && all (includes actual) expected

-- `staged && staged === raw`
unfoldable pub same_blob : String → Option String → Bool
same_blob raw none = false
same_blob raw (some staged) = nonempty staged && staged == raw

unfoldable pub stage_command : Shape → String → Command
stage_command shape_a path = add path
stage_command shape_b path = remove path

unfoldable pub commit_result : Option String → BuildEnd
commit_result none = unreadable none
commit_result (some sha) = if nonempty sha && is_hex40 sha then built sha else unreadable (some sha)

abbrev pub or_head : Option String → String → String
or_head none head = head
or_head (some sha) head = sha

module _ {W : Type 0} (host : Host W) (dir root : String) where
  unfoldable pub stage_all : List FileEntry → Act W (Unit {0})
  stage_all [] = pure tt
  stage_all (e ∷ es) = do
    staged ← try_git host dir root (stage_command e.shape e.path)
    out ← require_some staged staging_failed
    stage_all es

  unfoldable pub check_staged_names : List FileEntry → Act W (Unit {0})
  check_staged_names es = do
    result ← try_git host dir root staged_names
    out ← require_some result staged_name_mismatch
    require (names_match (paths_of es) (lines out)) staged_name_mismatch

  unfoldable pub check_blob : Shape → String → Act W (Unit {0})
  check_blob shape_b path = pure tt
  check_blob shape_a path = do
    raw ← raw_blob_sha host dir root path
    staged ← staged_blob_sha host dir root path
    require (same_blob raw staged) staged_blob_mismatch

  unfoldable pub verify_staged_blob_identity : List FileEntry → Act W (Unit {0})
  verify_staged_blob_identity [] = pure tt
  verify_staged_blob_identity (e ∷ es) = do
    check_blob e.shape e.path
    verify_staged_blob_identity es

  unfoldable pub verify_staged_fingerprint : List FileEntry → String → Act W (Unit {0})
  verify_staged_fingerprint es expected = do
    actual ← compute_staged_fingerprint host dir root es
    require (actual == expected) staged_fingerprint_mismatch

  -- The last look at HEAD before the commit.
  unfoldable pub check_head : String → Act W (Unit {0})
  check_head head = do
    result ← try_git host dir root rev_parse_head
    out ← require_some result pre_commit_head_changed
    require (trim out == head) pre_commit_head_changed

  -- The commit, and the reading of what it is.
  unfoldable pub commit_step : String → Act W BuildEnd
  commit_step message = do
    result ← try_git host dir root (commit message)
    out ← require_some result commit_failed
    after ← try_git host dir root rev_parse_head
    pure (commit_result (trimmed after))

  -- Everything before the commit.
  unfoldable pub stage_and_seal : Preflight → String → Act W (Unit {0})
  stage_and_seal p fingerprint = do
    stage_all p.files
    check_staged_names p.files
    verify_staged_blob_identity p.files
    verify_staged_fingerprint p.files fingerprint
    check_head p.pre_publish_head

  -- The body of the `try`.
  unfoldable pub build_body : Preflight → String → String → Act W BuildEnd
  build_body p fingerprint message = do stage_and_seal p fingerprint; commit_step message

  unfoldable pub snapshot_index_tree : Run W → Option String × Run W
  snapshot_index_tree s = let (out, t) = run_command host dir root write_tree s in (trimmed out, t)

  unfoldable pub is_tree : String → Option String → Bool
  is_tree tree none = false
  is_tree tree (some t) = t == tree

  unfoldable pub verify_restored : String → Option String × Run W → Bool × Run W
  verify_restored tree (none, s) = (false, s)
  verify_restored tree (some out, s) = let (now, t) = snapshot_index_tree s in (is_tree tree now, t)

  -- `restoreIndexToTree`
  unfoldable pub restore_index_to_tree : String → Run W → Bool × Run W
  restore_index_to_tree tree s = verify_restored tree (run_command host dir root (read_tree tree) s)

  is_blank : Option String → Bool
  is_blank none = false
  is_blank (some out) = trim out == ""

  unfoldable pub working_tree_clean : Run W → Bool × Run W
  unfolding is_blank
  working_tree_clean s = let (out, t) = run_command host dir root status s in (is_blank out, t)

  module _ (envelope : Option RawEnvelope) where
    unfoldable pub receipt :
        BuildStatus → Option String → Option String → Option String → Run W → BuildReceipt × Run W
    receipt outcome head sha local s =
        let (clean, t) = working_tree_clean s in
        (
          record {
            status = outcome;
            base = receipt_base envelope;
            pre_publish_head = head;
            commit_sha = sha;
            local_head = local;
            is_clean = clean;
          },
          t,
        )

    -- `blockedAfterStaging`
    unfoldable pub blocked_after_staging : String → BlockReason → Run W → BuildReceipt × Run W
    blocked_after_staging head reason s = receipt (refused reason) (some head) none (some head) s

    unfoldable pub report_restored : String → BlockReason → Bool × Run W → BuildReceipt × Run W
    report_restored head reason (true, s) = blocked_after_staging head reason s
    report_restored head reason (false, s) =
        blocked_after_staging head (index_restore_failed reason) s

    -- `failAfterStaging`, once staging has started
    unfoldable pub fail_after_staging : String → String → BlockReason → Run W → BuildReceipt × Run W
    fail_after_staging head tree reason s =
        report_restored head reason (restore_index_to_tree tree s)

    -- What becomes of the body's end.
    unfoldable pub finish_build : String → String → Ended BuildEnd × Run W → BuildReceipt × Run W
    finish_build head tree (done (built sha), s) =
        receipt committed (some head) (some sha) (some sha) s
    finish_build head tree (done (unreadable sha), s) =
        receipt (refused post_commit_head_unreadable) (some head) none (some (or_head sha head)) s
    finish_build head tree (blocked reason, s) = fail_after_staging head tree reason s
    finish_build head tree (threw, s) = fail_after_staging head tree unexpected_error s

    unfoldable pub build_from : Preflight → Option String × Run W → BuildReceipt × Run W
    build_from p (none, s) = blocked_after_staging p.pre_publish_head index_snapshot_failed s
    build_from p (some tree, s) =
        if nonempty tree
        then finish_build p.pre_publish_head tree
            (build_body p (fingerprint_of envelope) (message_of envelope) s)
        else blocked_after_staging p.pre_publish_head index_snapshot_failed s

    -- Behind the preflight; `none` if it throws.
    unfoldable pub build_after : Ended Preflight × Run W → Option BuildReceipt × Run W
    build_after (threw, s) = (none, s)
    build_after (blocked reason, s) =
        let (r, t) =
          receipt (refused reason) (expected_head envelope) none (expected_head envelope) s in
        (some r, t)
    build_after (done p, s) = let (r, t) = build_from p (snapshot_index_tree s) in (some r, t)

    -- The run inside the hooks directory.
    unfoldable pub build_run : Run W → Option BuildReceipt × Run W
    build_run s = build_after (preflight_core host dir root envelope s)

-- The run in the directory that was made, if it was, and its removal.
unfoldable pub in_hooks_dir :
    {W A : Type 0}
    → Host W
    → (String → Run W → Option A × Run W)
    → Run W
    → Option String × W
    → Option A × Run W
in_hooks_dir host f s (none, w) = (none, record s { world = w })
in_hooks_dir host f s (some dir, w) =
    let (result, t) = f dir (record s { world = w }) in
    (result, record t { world = host.remove_dir dir t.world })

-- `withEmptyHooksDir`; `none` if it throws.
unfoldable pub with_empty_hooks_dir :
    {W A : Type 0} → Host W → (String → Run W → Option A × Run W) → Run W → Option A × Run W
with_empty_hooks_dir host f s = in_hooks_dir host f s (host.make_dir s.world)

-- `buildLocalCommit`
unfoldable pub build_local_commit :
    {W : Type 0} → Host W → String → Option RawEnvelope → Run W → Option BuildReceipt × Run W
build_local_commit host repo_root envelope =
    with_empty_hooks_dir host (λ dir. build_run host dir (host.resolve repo_root) envelope)

-- `preflight`; an exception gives `none`.
unfoldable pub preflight :
    {W : Type 0} → Host W → String → Option RawEnvelope → Run W → Option (Ended Preflight) × Run W
preflight host repo_root envelope = with_empty_hooks_dir host (λ dir s.
    let (ended, t) = preflight_core host dir (host.resolve repo_root) envelope s in (some ended, t))
