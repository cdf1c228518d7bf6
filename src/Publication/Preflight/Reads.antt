-- ===== src/Publication/Preflight/Reads.antt =====
-- The preflight only reads: it runs no command that writes the index or commits.
use mihver.Prelude.{
  refl, String, Bool, true, false, Option, none, some, List, [], ◌∷◌, ◌≡◌, arith, Option-cases, inl,
  inr,
}
use mihver.Publication.Envelope.{RawEnvelope, RawRepository, RawFile, is_literal}
use mihver.Publication.Host.{
  Host, Act, Command, ◌>>=◌, try_git, BlockReason, FileKind, require_some, show_toplevel,
  abbrev_ref, rev_parse_head, is_ancestor, status_no_renames,
}
use mihver.Publication.Quiet.{
  Quiet, Quiet-bind, Quiet-require, Quiet-require_some, Quiet-try_git, Quiet-git, is_write,
  Quiet-run_command,
}
use mihver.Publication.Preflight.{
  verify_repo_root, verify_current_branch, verify_remote_identity, verify_pre_publish_head,
  verify_base_ancestry, read_repository_identity, verify_working_tree_scope, check_attributes,
  check_entry, verify_no_content_transform, preflight_guards, preflight_core, repository_guards,
  file_guards, check_fingerprint, guarded_attributes,
}
use mihver.Publication.Fingerprint.{
  digest_of, fingerprint_lines, fingerprint_from_digests, raw_blob_sha, staged_blob_sha,
  compute_fingerprint, compute_staged_fingerprint, byte_sort,
}
use mihver.Publication.Files.{
  classify_entry, classify_all, classify_allowed_files, FileEntry, Shape, shape_a, shape_b,
  classify_path, classify_on_disk, classify_entry, classify_all, classify_allowed_files,
}

module _ {W : Type 0} (p : Command → Bool)
    (reads_only : (c : Command) → is_write c ≡ false → p c ≡ false) (host : Host W)
    (dir root : String) where
  abbrev Still : {A : Type 0} → Act W A → Type 0
  Still m = Quiet p m

  Still-try : (c : Command) → is_write c ≡ false → Still (try_git host dir root c)
  Still-try c h = Quiet-try_git p host dir root c (reads_only c h)

  -- A command, the test that it has an answer, and what follows.
  Still-ask :
      {A : Type 0} (c : Command) (reason : BlockReason) (f : String → Act W A)
      → is_write c ≡ false
      → ((out : String) → Still (f out))
      → Still (try_git host dir root c >>= λ result. require_some result reason >>= f)
  Still-ask c reason f h k =
      Quiet-bind p _ _ (Still-try c h)
        (λ result. Quiet-bind p _ _ (Quiet-require_some p result reason) k)

  verify_repo_root-Still : Still (verify_repo_root host dir root)
  unfolding verify_repo_root
  verify_repo_root-Still =
      Quiet-bind p _ _ (λ s. refl)
        (λ real.
          Quiet-bind p _ _ (Quiet-require_some p real _)
            (λ expected. Still-ask show_toplevel _ _ refl (λ out. Quiet-require p _ _)))

  verify_current_branch-Still : (b : String) → Still (verify_current_branch host dir root b)
  unfolding verify_current_branch
  verify_current_branch-Still b = Quiet-bind p _ _ (Quiet-require p _ _) (λ u.
      Still-ask abbrev_ref _ _ refl
        (λ out. Quiet-bind p _ _ (Quiet-require p _ _) (λ v. Quiet-require p _ _)))

  verify_remote_identity-Still :
      (r : RawRepository) → Still (verify_remote_identity host dir root r)
  unfolding verify_remote_identity read_repository_identity
  verify_remote_identity-Still r =
      Quiet-bind p _ _ (Quiet-bind p _ _ (Still-try _ refl) (λ result s. refl)) (λ identity.
        Quiet-bind p _ _ (Quiet-require_some p identity _) (λ actual. Quiet-require p _ _))

  verify_pre_publish_head-Still : (h : String) → Still (verify_pre_publish_head host dir root h)
  unfolding verify_pre_publish_head
  verify_pre_publish_head-Still h =
      Still-ask rev_parse_head _ _ refl
        (λ out. Quiet-bind p _ _ (Quiet-require p _ _) (λ u s. refl))

  verify_base_ancestry-Still : (b : String) → Still (verify_base_ancestry host dir root b)
  unfolding verify_base_ancestry
  verify_base_ancestry-Still b = Still-ask (is_ancestor b) _ _ refl (λ out s. refl)

  classify_on_disk-Still :
      (head path : String) (b : Bool) (k : Option FileKind)
      → Still (classify_on_disk host dir root head path b k)
  unfolding classify_on_disk
  classify_on_disk-Still head path b (some kind) s = refl
  classify_on_disk-Still head path true none s = refl
  classify_on_disk-Still head path false none s =
      Quiet-run_command p host dir root _ s (reads_only _ refl)

  classify_path-Still :
      (head path : String) (action : Option String)
      → Still (classify_path host dir root head path action)
  unfolding classify_path
  classify_path-Still head path action s = ground (
    arith,
    classify_on_disk-Still head path (is_literal "present" action)
        (host.lstat (host.join root path) s.world) s,
  )

  classify_entry-Still : (head : String) (f : RawFile) → Still (classify_entry host dir root head f)
  unfolding classify_entry
  classify_entry-Still head f = elim (Option-cases f.path) [
    | inl e ↦ rw (e, classify_entry) (λ s. refl)
    | inr (path, e) ↦ rw (e, classify_entry) (classify_path-Still head path f.action)
  ]

  classify_all-Still :
      (head : String) (files : List RawFile) → Still (classify_all host dir root head files)
  unfolding classify_all
  classify_all-Still head [] = λ s. refl
  classify_all-Still head (f ∷ files) =
      Quiet-bind p _ _ (classify_entry-Still head f)
        (λ c. Quiet-bind p _ _ (classify_all-Still head files) (λ cs s. refl))

  classify_allowed_files-Still :
      (head : String) (files : List RawFile)
      → Still (classify_allowed_files host dir root head files)
  unfolding classify_allowed_files
  classify_allowed_files-Still head files =
      Quiet-bind p _ _ (classify_all-Still head files)
        (λ cs. Quiet-bind p _ _ (Quiet-require p _ _) (λ u s. refl))

  verify_working_tree_scope-Still :
      (es : List FileEntry) → Still (verify_working_tree_scope host dir root es)
  unfolding verify_working_tree_scope
  verify_working_tree_scope-Still es =
      Still-ask status_no_renames _ _ refl (λ out. Quiet-require p _ _)

  check_attributes-Still :
      (path : String) (rest : List String) → Still (check_attributes host dir root path rest)
  unfolding check_attributes
  check_attributes-Still path [] = λ s. refl
  check_attributes-Still path (a ∷ rest) = Quiet-bind p _ _ (Still-try _ refl) (λ result.
      Quiet-bind p _ _ (Quiet-require_some p _ _)
        (λ value. Quiet-bind p _ _ (Quiet-require p _ _) (λ u. check_attributes-Still path rest)))

  check_entry-Still : (shape : Shape) (path : String) → Still (check_entry host dir root shape path)
  unfolding check_entry
  check_entry-Still shape_a path = check_attributes-Still path guarded_attributes
  check_entry-Still shape_b path = λ s. refl

  verify_no_content_transform-Still :
      (es : List FileEntry) → Still (verify_no_content_transform host dir root es)
  unfolding verify_no_content_transform
  verify_no_content_transform-Still [] = λ s. refl
  verify_no_content_transform-Still (e ∷ es) =
      Quiet-bind p _ _ (check_entry-Still e.shape e.path)
        (λ u. verify_no_content_transform-Still es)

  digest_of-Still :
      (digest : String → Act W String)
      → ((path : String) → Still (digest path))
      → (shape : Shape) (path : String) → Still (digest_of digest shape path)
  unfolding digest_of
  digest_of-Still digest h shape_a path = h path
  digest_of-Still digest h shape_b path = λ s. refl

  fingerprint_lines-Still :
      (digest : String → Act W String)
      → ((path : String) → Still (digest path))
      → (es : List FileEntry) → Still (fingerprint_lines digest es)
  unfolding fingerprint_lines
  fingerprint_lines-Still digest h [] = λ s. refl
  fingerprint_lines-Still digest h (e ∷ es) =
      Quiet-bind p _ _ (digest_of-Still digest h e.shape e.path)
        (λ d. Quiet-bind p _ _ (fingerprint_lines-Still digest h es) (λ rest s. refl))

  pub raw_blob_sha-Still : (path : String) → Still (raw_blob_sha host dir root path)
  unfolding raw_blob_sha
  raw_blob_sha-Still path =
      Quiet-bind p _ _ (Quiet-git p host dir root _ (reads_only _ refl)) (λ out s. refl)

  pub staged_blob_sha-Still : (path : String) → Still (staged_blob_sha host dir root path)
  unfolding staged_blob_sha
  staged_blob_sha-Still path = Quiet-bind p _ _ (Still-try _ refl) (λ out s. refl)

  compute_fingerprint-Still : (es : List FileEntry) → Still (compute_fingerprint host dir root es)
  unfolding compute_fingerprint fingerprint_from_digests
  compute_fingerprint-Still es =
      Quiet-bind p _ _ (fingerprint_lines-Still _ raw_blob_sha-Still (byte_sort es))
        (λ text s. refl)

  pub compute_staged_fingerprint-Still :
      (es : List FileEntry) → Still (compute_staged_fingerprint host dir root es)
  unfolding compute_staged_fingerprint fingerprint_from_digests
  compute_staged_fingerprint-Still es =
      Quiet-bind p _ _
        (fingerprint_lines-Still _
          (λ path. Quiet-bind p _ _ (staged_blob_sha-Still path) (λ sha s. refl)) (byte_sort es))
        (λ text s. refl)

  repository_guards-Still : (e : RawEnvelope) → Still (repository_guards host dir root e)
  unfolding repository_guards
  repository_guards-Still e = Quiet-bind p _ _ verify_repo_root-Still (λ u.
      Quiet-bind p _ _ (verify_current_branch-Still _) (λ v.
        Quiet-bind p _ _ (verify_remote_identity-Still _) (λ w.
          Quiet-bind p _ _ (verify_pre_publish_head-Still _)
            (λ head. Quiet-bind p _ _ (verify_base_ancestry-Still _) (λ x s. refl)))))

  file_guards-Still : (e : RawEnvelope) → Still (file_guards host dir root e)
  unfolding file_guards
  file_guards-Still e = Quiet-bind p _ _ (classify_allowed_files-Still _ _) (λ files.
      Quiet-bind p _ _ (verify_working_tree_scope-Still files)
        (λ y. Quiet-bind p _ _ (verify_no_content_transform-Still files) (λ z s. refl)))

  check_fingerprint-Still :
      (expected : String) (files : List FileEntry)
      → Still (check_fingerprint host dir root expected files)
  unfolding check_fingerprint
  check_fingerprint-Still expected files =
      Quiet-bind p _ _ (compute_fingerprint-Still files) (λ fingerprint. Quiet-require p _ _)

  preflight_guards-Still : (e : RawEnvelope) → Still (preflight_guards host dir root e)
  unfolding preflight_guards
  preflight_guards-Still e = Quiet-bind p _ _ (repository_guards-Still e) (λ head.
      Quiet-bind p _ _ (file_guards-Still e)
        (λ files. Quiet-bind p _ _ (check_fingerprint-Still _ files) (λ u s. refl)))

  pub preflight_core-Still :
      (envelope : Option RawEnvelope) → Still (preflight_core host dir root envelope)
  unfolding preflight_core
  preflight_core-Still none = λ s. refl
  preflight_core-Still (some e) =
      Quiet-bind p _ _ (Quiet-require p _ _) (λ u. preflight_guards-Still e)
