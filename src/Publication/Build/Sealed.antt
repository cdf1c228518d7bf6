-- ===== src/Publication/Build/Sealed.antt =====
-- When a build commits, and what it has checked by then.
use mihver.Prelude.{ap, ◌∙◌, ◌≡◌, refl, ℕ, String, false, some, List, [], ◌∷◌, eq_iff, trim}
use mihver.Publication.Host.{Host, Run, done, try_git, rev_parse_head}
use mihver.Publication.Inversion.{bind-done, require-done, require_some-done}
use mihver.Publication.Quiet.{
  tally, is_commit, is_commit-is_write, Quiet, Quiet-bind, Quiet-require, Quiet-require_some,
  Quiet-try_git,
}
use mihver.Publication.Files.{Shape, shape_a, shape_b, FileEntry}
use mihver.Publication.Fingerprint.{compute_staged_fingerprint}
use mihver.Publication.Preflight.{Preflight}
use mihver.Publication.Preflight.Reads.{
  raw_blob_sha-Still, staged_blob_sha-Still, compute_staged_fingerprint-Still,
}
use mihver.Publication.Build.{
  stage_command, stage_all, check_staged_names, check_blob, verify_staged_blob_identity,
  verify_staged_fingerprint, check_head, stage_and_seal,
}

abbrev pub commits : {W : Type 0} → Run W → ℕ
commits s = tally is_commit s.commands

stage_command-commit :
    (shape : Shape) (path : String) → is_commit (stage_command shape path) ≡ false
unfolding stage_command
stage_command-commit shape_a path = refl
stage_command-commit shape_b path = refl

module _ {W : Type 0} (host : Host W) (dir root : String) where
  stage_all-Quiet : (es : List FileEntry) → Quiet is_commit (stage_all host dir root es)
  unfolding stage_all
  stage_all-Quiet [] = λ s. refl
  stage_all-Quiet (e ∷ es) =
      Quiet-bind is_commit _ _
        (Quiet-try_git is_commit host dir root _ (stage_command-commit e.shape e.path))
        (λ staged.
          Quiet-bind is_commit _ _ (Quiet-require_some is_commit staged _)
            (λ out. stage_all-Quiet es))

  check_staged_names-Quiet :
      (es : List FileEntry) → Quiet is_commit (check_staged_names host dir root es)
  unfolding check_staged_names
  check_staged_names-Quiet es =
      Quiet-bind is_commit _ _ (Quiet-try_git is_commit host dir root _ refl) (λ result.
        Quiet-bind is_commit _ _ (Quiet-require_some is_commit result _)
          (λ out. Quiet-require is_commit _ _))

  check_blob-Quiet :
      (shape : Shape) (path : String) → Quiet is_commit (check_blob host dir root shape path)
  unfolding check_blob
  check_blob-Quiet shape_b path = λ s. refl
  check_blob-Quiet shape_a path =
      Quiet-bind is_commit _ _ (raw_blob_sha-Still is_commit is_commit-is_write host dir root path)
        (λ raw.
          Quiet-bind is_commit _ _
            (staged_blob_sha-Still is_commit is_commit-is_write host dir root path)
            (λ staged. Quiet-require is_commit _ _))

  verify_staged_blob_identity-Quiet :
      (es : List FileEntry) → Quiet is_commit (verify_staged_blob_identity host dir root es)
  unfolding verify_staged_blob_identity
  verify_staged_blob_identity-Quiet [] = λ s. refl
  verify_staged_blob_identity-Quiet (e ∷ es) =
      Quiet-bind is_commit _ _ (check_blob-Quiet e.shape e.path)
        (λ u. verify_staged_blob_identity-Quiet es)

  verify_staged_fingerprint-Quiet :
      (es : List FileEntry) (expected : String)
      → Quiet is_commit (verify_staged_fingerprint host dir root es expected)
  unfolding verify_staged_fingerprint
  verify_staged_fingerprint-Quiet es expected =
      Quiet-bind is_commit _ _
        (compute_staged_fingerprint-Still is_commit is_commit-is_write host dir root es)
        (λ actual. Quiet-require is_commit _ _)

  check_head-Quiet : (head : String) → Quiet is_commit (check_head host dir root head)
  unfolding check_head
  check_head-Quiet head =
      Quiet-bind is_commit _ _ (Quiet-try_git is_commit host dir root _ refl) (λ result.
        Quiet-bind is_commit _ _ (Quiet-require_some is_commit result _)
          (λ out. Quiet-require is_commit _ _))

  pub stage_and_seal-Quiet :
      (p : Preflight) (fingerprint : String)
      → Quiet is_commit (stage_and_seal host dir root p fingerprint)
  unfolding stage_and_seal
  stage_and_seal-Quiet p fingerprint = Quiet-bind is_commit _ _ (stage_all-Quiet p.files) (λ a.
      Quiet-bind is_commit _ _ (check_staged_names-Quiet p.files) (λ b.
        Quiet-bind is_commit _ _ (verify_staged_blob_identity-Quiet p.files) (λ c.
          Quiet-bind is_commit _ _ (verify_staged_fingerprint-Quiet p.files fingerprint)
            (λ d. check_head-Quiet p.pre_publish_head))))

  -- What has been read when the commit is run, from the session `before` it: the blobs in the index
  -- hash to the fingerprint, and then HEAD is the one that was expected.
  pub record Seal (files : List FileEntry) (fingerprint head : String) (before : Run W)
      : Type 0 where
    pub staged : Run W
    pub sealed : Run W
    pub index_fingerprint :
        compute_staged_fingerprint host dir root files staged ≡ (done fingerprint, sealed)
    pub read_head : String
    pub head_read : try_git host dir root rev_parse_head sealed ≡ (done (some read_head), before)
    pub head_kept : trim read_head ≡ head

  fingerprint-sealed :
      (files : List FileEntry) (expected : String) (s t : Run W) (x : Unit {0})
      → verify_staged_fingerprint host dir root files expected s ≡ (done x, t)
      → compute_staged_fingerprint host dir root files s ≡ (done expected, t)
  unfolding verify_staged_fingerprint
  fingerprint-sealed files expected s t x h =
      let a = bind-done _ _ s t x h in
      let (same, here) = require-done _ _ a.middle t x a.then_ends in
      a.first
      ∙ ap (λ v. (done v, a.middle)) ((eq_iff a.value expected).0 same)
      ∙ ap (λ u. (done expected, u)) here

  head-sealed :
      (head : String) (s t : Run W) (x : Unit {0})
      → check_head host dir root head s ≡ (done x, t)
      → (out : String) × (try_git host dir root rev_parse_head s ≡ (done (some out), t))
        × (trim out ≡ head)
  unfolding check_head
  head-sealed head s t x h =
      let a = bind-done _ _ s t x h in
      let b = bind-done _ _ a.middle t x a.then_ends in
      let (found, at) = require_some-done _ _ a.middle b.middle b.value b.first in
      let (same, here) = require-done _ _ b.middle t x b.then_ends in
      (
        b.value,
        a.first
            ∙ ap (λ v. (done v, a.middle)) found
            ∙ ap (λ u. (done (some b.value), u)) (at ∙ here),
        (eq_iff (trim b.value) head).0 same,
      )

  pub stage_and_seal-Seal :
      (p : Preflight) (fingerprint : String) (s t : Run W) (x : Unit {0})
      → stage_and_seal host dir root p fingerprint s ≡ (done x, t)
      → Seal p.files fingerprint p.pre_publish_head t
  unfolding stage_and_seal
  stage_and_seal-Seal p fingerprint s t x h =
      let a = bind-done _ _ s t x h in
      let b = bind-done _ _ a.middle t x a.then_ends in
      let c = bind-done _ _ b.middle t x b.then_ends in
      let d = bind-done _ _ c.middle t x c.then_ends in
      let (out, read, kept) = head-sealed p.pre_publish_head d.middle t x d.then_ends in
      record {
        staged = c.middle;
        sealed = d.middle;
        index_fingerprint =
            fingerprint-sealed p.files fingerprint c.middle d.middle d.value d.first;
        read_head = out;
        head_read = read;
        head_kept = kept;
      }
