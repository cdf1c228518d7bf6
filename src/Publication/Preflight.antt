-- ===== src/Publication/Preflight.antt =====
-- The guards of scripts/dev/publication-builder.mjs before anything is staged: `preflightCore`.
pub mod Reads
pub mod Guards
use Prim.Native.String
use mihver.Prelude.{
  String, Bool, true, false, not, ◌&&◌, Option, none, some, List, [], ◌∷◌, ◌==◌, trim, all,
  includes, map, drop_chars, after_last,
}
use mihver.Publication.Envelope.{
  ShapeError, RawEnvelope, RawRepository, RawFile, text_of, is_protected_branch,
  validate_envelope_shape,
}
use mihver.Publication.Remote.{Remote, parse_git_hub_remote}
use mihver.Publication.Host.{
  Host, Act, show_toplevel, abbrev_ref, rev_parse_head, status_no_renames, remote_get_url,
  is_ancestor, check_attr, malformed_envelope, not_a_git_repository, repo_root_mismatch,
  main_branch_forbidden, branch_unreadable, detached_head, wrong_branch, remote_identity_unreadable,
  remote_identity_mismatch, head_unreadable, pre_publish_head_mismatch, base_commit_not_ancestor,
  working_tree_unreadable, unrelated_working_tree_changes, attribute_unreadable,
  content_transform_attribute_blocked, fingerprint_mismatch, block_with, try_git, pure, require,
  require_some, reads, ◌>>=◌, ◌>>◌,
}
use mihver.Publication.Files.{Shape, shape_a, shape_b, FileEntry, lines, classify_allowed_files}
use mihver.Publication.Fingerprint.{compute_fingerprint}

abbrev pub paths_of : List FileEntry → List String
paths_of es = map (λ e. e.path) es

abbrev pub files_of : Option (List RawFile) → List RawFile
files_of none = []
files_of (some files) = files

-- `GUARDED_ATTRIBUTES`
abbrev pub guarded_attributes : List String
guarded_attributes = "filter" ∷ "text" ∷ "eol" ∷ "working-tree-encoding" ∷ "ident" ∷ []

-- The repository of an envelope that has been validated.
abbrev pub repository_of : Option RawRepository → RawRepository
repository_of none = record { remote_name = none; owner = none; name = none }
repository_of (some r) = r

unfoldable pub same_remote : RawRepository → Remote → Bool
same_remote expected actual =
    actual.owner == text_of expected.owner && actual.name == text_of expected.name

unfoldable pub attribute_value : String → Option String → Option String
attribute_value attribute none = none
attribute_value attribute (some out) =
    after_last (String.◌++◌ ": " (String.◌++◌ attribute ": ")) (trim out)

unfoldable pub in_scope_line : List FileEntry → String → Bool
in_scope_line es line = includes (paths_of es) (trim (drop_chars 3 line))

abbrev pub is_accepted : List ShapeError → Bool
is_accepted [] = true
is_accepted (e ∷ errors) = false

-- What the preflight returns when every guard is passed.
pub record Preflight : Type 0 where
  pub files : List FileEntry
  pub pre_publish_head : String

module _ {W : Type 0} (host : Host W) (dir root : String) where
  unfoldable pub verify_repo_root : Act W (Unit {0})
  verify_repo_root = do
    real ← reads (host.realpath (host.resolve root))
    expected ← require_some real not_a_git_repository
    result ← try_git host dir root show_toplevel
    out ← require_some result not_a_git_repository
    require (host.resolve (trim out) == expected) repo_root_mismatch

  unfoldable pub verify_current_branch : String → Act W (Unit {0})
  verify_current_branch expected = do
    require (not (is_protected_branch expected)) main_branch_forbidden
    result ← try_git host dir root abbrev_ref
    out ← require_some result branch_unreadable
    require (not (trim out == "HEAD")) detached_head
    require (trim out == expected) wrong_branch

  -- `readRepositoryIdentity`
  unfoldable pub read_repository_identity : String → Act W (Option Remote)
  read_repository_identity remote_name = do
    result ← try_git host dir root (remote_get_url remote_name)
    pure (elim result [ none ↦ none | some out ↦ parse_git_hub_remote (trim out) ])

  unfoldable pub verify_remote_identity : RawRepository → Act W (Unit {0})
  verify_remote_identity expected = do
    identity ← read_repository_identity (text_of expected.remote_name)
    actual ← require_some identity remote_identity_unreadable
    require (same_remote expected actual) remote_identity_mismatch

  unfoldable pub verify_pre_publish_head : String → Act W String
  verify_pre_publish_head expected = do
    result ← try_git host dir root rev_parse_head
    out ← require_some result head_unreadable
    require (trim out == expected) pre_publish_head_mismatch
    pure (trim out)

  unfoldable pub verify_base_ancestry : String → Act W (Unit {0})
  verify_base_ancestry base = do
    result ← try_git host dir root (is_ancestor base)
    out ← require_some result base_commit_not_ancestor
    pure tt

  unfoldable pub verify_working_tree_scope : List FileEntry → Act W (Unit {0})
  verify_working_tree_scope es = do
    result ← try_git host dir root status_no_renames
    out ← require_some result working_tree_unreadable
    require (all (in_scope_line es) (lines out)) unrelated_working_tree_changes

  unfoldable pub check_attributes : String → List String → Act W (Unit {0})
  check_attributes path [] = pure tt
  check_attributes path (attribute ∷ rest) = do
    result ← try_git host dir root (check_attr attribute path)
    value ← require_some (attribute_value attribute result) attribute_unreadable
    require (value == "unspecified") content_transform_attribute_blocked
    check_attributes path rest

  unfoldable pub check_entry : Shape → String → Act W (Unit {0})
  check_entry shape_a path = check_attributes path guarded_attributes
  check_entry shape_b path = pure tt

  unfoldable pub verify_no_content_transform : List FileEntry → Act W (Unit {0})
  verify_no_content_transform [] = pure tt
  verify_no_content_transform (e ∷ es) = do
    check_entry e.shape e.path
    verify_no_content_transform es

  -- The guards of the repository; they give the HEAD that was read.
  unfoldable pub repository_guards : RawEnvelope → Act W String
  repository_guards e = do
    verify_repo_root
    verify_current_branch (text_of e.branch)
    verify_remote_identity (repository_of e.repository)
    head ← verify_pre_publish_head (text_of e.expected_pre_publish_head)
    verify_base_ancestry (text_of e.base_commit)
    pure head

  -- The guards of the allowed files.
  unfoldable pub file_guards : RawEnvelope → Act W (List FileEntry)
  file_guards e = do
    files ←
        classify_allowed_files host dir root (text_of e.expected_pre_publish_head)
          (files_of e.allowed_files)
    verify_working_tree_scope files
    verify_no_content_transform files
    pure files

  unfoldable pub check_fingerprint : String → List FileEntry → Act W (Unit {0})
  check_fingerprint expected files = do
    fingerprint ← compute_fingerprint host dir root files
    require (fingerprint == expected) fingerprint_mismatch

  unfoldable pub preflight_guards : RawEnvelope → Act W Preflight
  preflight_guards e = do
    head ← repository_guards e
    files ← file_guards e
    check_fingerprint (text_of e.publication_fingerprint) files
    pure (record { files = files; pre_publish_head = head })

  -- `preflightCore`, at the resolved root
  unfoldable pub preflight_core : Option RawEnvelope → Act W Preflight
  preflight_core none = block_with malformed_envelope
  preflight_core (some e) = do
    require (is_accepted (validate_envelope_shape (some e))) malformed_envelope
    preflight_guards e
