-- ===== src/Publication/Host.antt =====
-- What scripts/dev/publication-builder.mjs uses of git and of the file system, and its runs as
-- actions: `git` and `tryGit`, with the hook isolation of `withEmptyHooksDir`.
-- The host is a parameter: every command of git may change the world in any way, as other processes
-- may while it runs.
use Prim.Native.String
use mihver.Prelude.{String, Bool, true, false, Option, none, some, List, [], ◌∷◌, ◌++◌}
use mihver.Council.Hashes.{Sha}

pub data FileKind : Type 0 where
  regular directory symbolic_link special : FileKind

-- `node:crypto`, `node:path`, `node:fs` and `execFileSync("git", …)`. What throws gives `none`.
pub record Host (W : Type 0) : Type 0 where
  pub sha256 : Sha
  pub resolve : String → String
  pub resolve_in : String → String → String
  pub join : String → String → String
  pub relative : String → String → String
  pub is_absolute : String → Bool
  pub sep : String
  pub realpath : String → W → Option String
  pub lstat : String → W → Option FileKind
  pub exec_git : List String → String → W → Option String × W
  pub make_dir : W → Option String × W
  pub remove_dir : String → W → W

-- The commands of git that are run, with what varies in their arguments.
pub data Command : Type 0 where
  show_toplevel abbrev_ref rev_parse_head status_no_renames status write_tree staged_names : Command
  remote_get_url is_ancestor hash_object add remove staged_blob read_tree commit : String → Command
  ls_tree check_attr : String → String → Command

unfoldable pub arguments : Command → List String
arguments show_toplevel = "rev-parse" ∷ "--show-toplevel" ∷ []
arguments abbrev_ref = "rev-parse" ∷ "--abbrev-ref" ∷ "HEAD" ∷ []
arguments rev_parse_head = "rev-parse" ∷ "HEAD" ∷ []
arguments status_no_renames = "status" ∷ "--porcelain" ∷ "--no-renames" ∷ []
arguments status = "status" ∷ "--porcelain" ∷ []
arguments write_tree = "write-tree" ∷ []
arguments staged_names = "diff" ∷ "--cached" ∷ "--name-only" ∷ "--no-renames" ∷ []
arguments (remote_get_url name) = "remote" ∷ "get-url" ∷ name ∷ []
arguments (is_ancestor base) = "merge-base" ∷ "--is-ancestor" ∷ base ∷ "HEAD" ∷ []
arguments (hash_object path) = "hash-object" ∷ "--no-filters" ∷ "--" ∷ path ∷ []
arguments (add path) =
    "-c" ∷ "core.autocrlf=false" ∷ "--literal-pathspecs" ∷ "add" ∷ "--" ∷ path ∷ []
arguments (remove path) =
    "-c" ∷ "core.autocrlf=false" ∷ "--literal-pathspecs" ∷ "rm" ∷ "--" ∷ path ∷ []
arguments (staged_blob path) = "rev-parse" ∷ "--verify" ∷ "--quiet" ∷ String.◌++◌ ":" path ∷ []
arguments (read_tree tree) = "read-tree" ∷ tree ∷ []
arguments (commit message) = "commit" ∷ "--no-verify" ∷ "--no-gpg-sign" ∷ "-m" ∷ message ∷ []
arguments (ls_tree head path) = "ls-tree" ∷ head ∷ "--" ∷ path ∷ []
arguments (check_attr attribute path) = "check-attr" ∷ attribute ∷ "--" ∷ path ∷ []

pub data MalformedReason : Type 0 where
  unsafe_path path_escapes_repo unknown_action symlink_not_allowed directory_not_allowed
        special_file_not_allowed declared_deletion_but_present declared_present_but_absent
        deletion_not_tracked deletion_not_a_regular_file duplicate_path :
      MalformedReason

-- The reasons of a receipt or a check that is BLOCKED; its further details are left out.
pub data BlockReason : Type 0 where
  malformed_envelope not_a_git_repository repo_root_mismatch main_branch_forbidden branch_unreadable
        detached_head wrong_branch remote_identity_unreadable remote_identity_mismatch
        head_unreadable pre_publish_head_mismatch base_commit_not_ancestor working_tree_unreadable
        unrelated_working_tree_changes attribute_unreadable content_transform_attribute_blocked
        fingerprint_mismatch index_snapshot_failed staging_failed staged_name_mismatch
        staged_blob_mismatch staged_fingerprint_mismatch pre_commit_head_changed commit_failed
        post_commit_head_unreadable unexpected_error malformed_allowed_files :
      BlockReason
  index_restore_failed : BlockReason → BlockReason

-- The world, and the commands that have been run, the last one first.
pub record Run (W : Type 0) : Type 0 where
  pub world : W
  pub commands : List Command

-- How an action ends: with a value, with an early return of a BLOCKED result, or with an exception.
pub data Ended {ℓ} (A : Type ℓ) : Type ℓ where
  done : A → Ended A
  blocked : BlockReason → Ended A
  threw : Ended A

abbrev pub Act : Type 0 → Type 0 → Type 0
Act W A = Run W → Ended A × Run W

module _ {W : Type 0} where
  abbrev pub pure : {A : Type 0} → A → Act W A
  pure a s = (done a, s)

  abbrev pub block_with : {A : Type 0} → BlockReason → Act W A
  block_with reason s = (blocked reason, s)

  abbrev pub continue : {A B : Type 0} → Ended A → (A → Act W B) → Act W B
  continue (done a) f s = f a s
  continue (blocked reason) f s = (blocked reason, s)
  continue threw f s = (threw, s)

  infixl 5 ◌>>=◌ ◌>>◌
  unfoldable pub ◌>>=◌ : {A B : Type 0} → Act W A → (A → Act W B) → Act W B
  ◌>>=◌ m f s = let (ended, t) = m s in continue ended f t

  abbrev pub ◌>>◌ : {B : Type 0} → Act W (Unit {0}) → Act W B → Act W B
  m >> k = m >>= λ _. k

  -- A check: OK, or BLOCKED with the reason.
  abbrev pub require : Bool → BlockReason → Act W (Unit {0})
  require true reason s = (done tt, s)
  require false reason s = (blocked reason, s)

  abbrev pub require_some : {A : Type 0} → Option A → BlockReason → Act W A
  require_some none reason s = (blocked reason, s)
  require_some (some a) reason s = (done a, s)

  -- What is read of the world without a command.
  abbrev pub reads : {A : Type 0} → (W → A) → Act W A
  reads f s = (done (f s.world), s)

  -- One command, under the hooks directory of the run.
  unfoldable pub run_command : Host W → String → String → Command → Run W → Option String × Run W
  run_command host dir root c s =
      let isolation : List String =
        "-c" ∷ String.◌++◌ "core.hooksPath=" dir ∷ "-c" ∷ "core.fsmonitor=" ∷ [] in
      let (out, w) = host.exec_git (isolation ++ arguments c) root s.world in
      (out, record { world = w; commands = c ∷ s.commands })

  unfoldable pub git_result : Option String × Run W → Ended String × Run W
  git_result (none, s) = (threw, s)
  git_result (some out, s) = (done out, s)

  -- `git`
  unfoldable pub git : Host W → String → String → Command → Act W String
  git host dir root c s = git_result (run_command host dir root c s)

  -- `tryGit`
  unfoldable pub try_git : Host W → String → String → Command → Act W (Option String)
  try_git host dir root c s = let (out, t) = run_command host dir root c s in (done out, t)
