-- ===== src/Tests/Publication.antt =====
-- A publication of one changed file and one deletion, in a repository where every command of git
-- succeeds.
use mihver.Json.{less}
use mihver.Publication.Fingerprint.{
  compute_fingerprint, fingerprint_from_digests, fingerprint_lines, byte_sort, insert_entry,
  digest_of, raw_blob_sha, compute_staged_fingerprint, staged_blob_sha,
}
use mihver.Publication.Files.{
  FileEntry, shape_a, shape_b, classify_allowed_files, classify_all, classify_entry, classify_path,
  is_safe_relative_path, is_safe_segment, resolves_inside_repo, classify_on_disk, is_rejected,
  classify_kind, duplicates_from, classify_tracked, output_lines, lines, first_word, entries_of,
}
use mihver.Publication.Remote.{parse_git_hub_remote, match_remote, match_path, match_name}
use mihver.Publication.Preflight.{
  preflight_core, preflight_guards, repository_guards, verify_repo_root, verify_current_branch,
  verify_remote_identity, read_repository_identity, same_remote, verify_pre_publish_head,
  verify_base_ancestry, file_guards, verify_working_tree_scope, verify_no_content_transform,
  check_entry, check_attributes, attribute_value, check_fingerprint, Preflight,
}
use Prim.Native.String
use mihver.Publication.Build.Restored.{Accounted, build_local_commit-Accounts}
use mihver.Publication.Build.Committed.{Commit, build_local_commit-CommitsOnce}
use mihver.Publication.Preflight.Guards.{Guarded, preflight_core-Guarded}
use mihver.Publication.Files.Accepted.{AllowedFiles, classify_allowed_files-Accepts}
use mihver.Publication.Remote.RoundTrip.{https_address, parse_git_hub_remote-https_address}
use mihver.Prelude.{
  ◌⊎◌, ◌≡◌, refl, String, Bool, true, false, none, some, List, [], ◌∷◌, ◌==◌, if◌then◌else◌,
  nonempty, is_hex40, is_hex64, trim, trim_end, trim_start, strip_prefix, cut, strip_suffix,
  has_code, any, split, includes, keep, all, after_last, is_empty, set_size, is_space,
}
use mihver.Publication.Envelope.{
  RawEnvelope, validate_envelope_shape, error_unless, is_literal, is_nonempty_text,
  is_protected_branch, files_errors, file_errors, is_allowed_action, RawFile,
}
use mihver.Publication.Host.{
  staged_name_mismatch, done, ◌>>=◌, Host, Run, regular, try_git, run_command, arguments, git,
  git_result,
}
use mihver.Publication.Build.{
  receipt_base, refused, build_local_commit, with_empty_hooks_dir, in_hooks_dir, build_run,
  build_after, build_from, snapshot_index_tree, finish_build, build_body, stage_and_seal, stage_all,
  verify_staged_fingerprint, check_head, stage_command, commit_step, commit_result, receipt,
  check_staged_names, names_match, verify_staged_blob_identity, check_blob, same_blob, BuildReceipt,
  fail_after_staging, report_restored, restore_index_to_tree, verify_restored, is_tree,
  blocked_after_staging, working_tree_clean,
}
use mihver.Publication.Build.Sealed.{commits}
use mihver.Publication.Build.Later.{reports_commit}

abbrev old_head : String
old_head = "bbbbbbbbbbbbbbbbbbbbbbbbbbbbbbbbbbbbbbbb"

abbrev new_head : String
new_head = "cccccccccccccccccccccccccccccccccccccccc"

abbrev some_digest : String
some_digest = "dddddddddddddddddddddddddddddddddddddddddddddddddddddddddddddddd"

-- What `rev-parse` answers, by its first argument, before and after the commit.
abbrev parsed : String → Bool → String
parsed argument w =
    if argument == "--show-toplevel"
    then "/r"
    else if argument == "--abbrev-ref"
    then "dev"
    else if argument == "--verify"
    then "f"
    else if w
    then new_head
    else old_head

abbrev attribute_of : List String → String
attribute_of (attribute ∷ separator ∷ path ∷ []) =
    String.◌++◌ path (String.◌++◌ ": " (String.◌++◌ attribute ": unspecified"))
attribute_of rest = ""

abbrev word_of : List String → String
word_of [] = ""
word_of (x ∷ xs) = x

-- The answers of git.
abbrev answer : String → List String → Bool → String
answer names [] w = ""
answer names (word ∷ rest) w =
    if word == "rev-parse"
    then parsed (word_of rest) w
    else if word == "remote"
    then "https://github.com/acme/app.git"
    else if word == "ls-tree"
    then "100644 blob e"
    else if word == "check-attr"
    then attribute_of rest
    else if word == "hash-object"
    then "f"
    else if word == "write-tree"
    then "t"
    else if word == "diff"
    then names
    else ""

-- Without the isolation of the hooks.
abbrev behind : List String → List String
behind (a ∷ b ∷ c ∷ d ∷ rest) = rest
behind rest = rest

abbrev host_of : String → Host Bool
host_of names = record {
  sha256 = λ text. some_digest;
  resolve = λ path. path;
  resolve_in = λ root path. String.◌++◌ root (String.◌++◌ "/" path);
  join = λ root path. String.◌++◌ root (String.◌++◌ "/" path);
  relative = λ root path. "a";
  is_absolute = λ path. false;
  sep = "/";
  realpath = λ path w. some path;
  lstat = λ path w. if path == "/r/a" then some regular else none;
  exec_git = λ args root w.
      (some (answer names (behind args) w), if word_of (behind args) == "commit" then true else w);
  make_dir = λ w. (some "h", w);
  remove_dir = λ dir w. w;
}

abbrev host : Host Bool
host = host_of "a\nb\n"

abbrev two_files : List RawFile
two_files =
    (record { path = some "a"; action = some "present" })
    ∷ (record { path = some "b"; action = some "deletion" })
    ∷ []

abbrev two_entries : List FileEntry
two_entries =
    (record { shape = shape_a; path = "a" }) ∷ (record { shape = shape_b; path = "b" }) ∷ []

abbrev envelope : RawEnvelope
envelope = record {
  protocol_version = some "1.0.0";
  repository =
      some (record { remote_name = some "origin"; owner = some "acme"; name = some "app" });
  branch = some "dev";
  base_branch = some "main";
  base_commit = some old_head;
  expected_pre_publish_head = some old_head;
  allowed_files = some two_files;
  publication_fingerprint = some some_digest;
  commit_message = some "m";
  pr_expected = some false;
  pr_title = none;
  pr_body = none;
}

abbrev at_start : Run Bool
at_start = record { world = false; commands = [] }

build_local_commit-reports :
    reports_commit (build_local_commit host "/r" (some envelope) at_start).0 ≡ true
unfolding build_local_commit with_empty_hooks_dir in_hooks_dir build_run build_after preflight_core
    validate_envelope_shape error_unless is_literal is_nonempty_text nonempty is_protected_branch
    is_hex40 files_errors file_errors is_allowed_action is_hex64 preflight_guards repository_guards
    verify_repo_root try_git run_command trim trim_end trim_start arguments verify_current_branch
    verify_remote_identity read_repository_identity parse_git_hub_remote match_remote strip_prefix
    match_path cut match_name strip_suffix has_code same_remote verify_pre_publish_head
    verify_base_ancestry file_guards classify_allowed_files classify_all classify_entry
    classify_path is_safe_relative_path any split is_safe_segment resolves_inside_repo
    classify_on_disk is_rejected classify_kind includes duplicates_from classify_tracked
    output_lines lines keep first_word verify_working_tree_scope all verify_no_content_transform
    entries_of check_entry check_attributes attribute_value after_last is_empty check_fingerprint
    compute_fingerprint fingerprint_from_digests fingerprint_lines byte_sort insert_entry less
    digest_of raw_blob_sha git git_result build_from snapshot_index_tree finish_build build_body
    stage_and_seal stage_all verify_staged_fingerprint compute_staged_fingerprint check_head
    stage_command commit_step commit_result receipt check_staged_names names_match set_size
    verify_staged_blob_identity check_blob staged_blob_sha same_blob ◌>>=◌
build_local_commit-reports = refl

abbrev passed : Preflight
passed = record { files = two_entries; pre_publish_head = old_head }

-- The index holds another file than the envelope names, so that nothing is committed.
abbrev mismatch : BuildReceipt
mismatch = record {
  status = refused staged_name_mismatch;
  base = receipt_base (some envelope);
  pre_publish_head = some old_head;
  commit_sha = none;
  local_head = some old_head;
  is_clean = true;
}

is_mismatch :
    (build_local_commit (host_of "a\nc\n") "/r" (some envelope) at_start).0 ≡ some mismatch
unfolding build_local_commit with_empty_hooks_dir in_hooks_dir build_run build_after preflight_core
    validate_envelope_shape error_unless is_literal is_nonempty_text nonempty is_protected_branch
    is_hex40 files_errors file_errors is_allowed_action is_hex64 preflight_guards repository_guards
    verify_repo_root try_git run_command trim trim_end trim_start arguments verify_current_branch
    verify_remote_identity read_repository_identity parse_git_hub_remote match_remote strip_prefix
    match_path cut match_name strip_suffix has_code same_remote verify_pre_publish_head
    verify_base_ancestry file_guards classify_allowed_files classify_all classify_entry
    classify_path is_safe_relative_path any split is_safe_segment resolves_inside_repo
    classify_on_disk is_rejected classify_kind includes duplicates_from classify_tracked
    output_lines lines keep first_word verify_working_tree_scope all verify_no_content_transform
    entries_of check_entry check_attributes attribute_value after_last is_empty check_fingerprint
    compute_fingerprint fingerprint_from_digests fingerprint_lines byte_sort insert_entry less
    digest_of raw_blob_sha git git_result build_from snapshot_index_tree finish_build build_body
    stage_and_seal stage_all verify_staged_fingerprint compute_staged_fingerprint check_head
    stage_command commit_step commit_result receipt check_staged_names names_match set_size
    verify_staged_blob_identity check_blob staged_blob_sha same_blob ◌>>=◌ fail_after_staging
    report_restored restore_index_to_tree verify_restored is_tree blocked_after_staging
    working_tree_clean
is_mismatch = refl

preflight_passes :
    preflight_core host "h" "/r" (some envelope) at_start
    ≡ (done passed, (preflight_core host "h" "/r" (some envelope) at_start).1)
unfolding preflight_core validate_envelope_shape error_unless is_literal is_nonempty_text nonempty
    is_protected_branch is_hex40 files_errors file_errors is_allowed_action is_hex64
    preflight_guards repository_guards verify_repo_root try_git run_command trim trim_end trim_start
    arguments verify_current_branch verify_remote_identity read_repository_identity
    parse_git_hub_remote match_remote strip_prefix match_path cut match_name strip_suffix has_code
    same_remote verify_pre_publish_head verify_base_ancestry file_guards classify_allowed_files
    classify_all classify_entry classify_path is_safe_relative_path any split is_safe_segment
    resolves_inside_repo classify_on_disk is_rejected classify_kind includes duplicates_from
    classify_tracked output_lines lines keep first_word verify_working_tree_scope all
    verify_no_content_transform entries_of check_entry check_attributes attribute_value after_last
    is_empty check_fingerprint compute_fingerprint fingerprint_from_digests fingerprint_lines
    byte_sort insert_entry less digest_of raw_blob_sha git git_result ◌>>=◌
preflight_passes = refl

files_accepted :
    classify_allowed_files host "h" "/r" old_head two_files at_start
    ≡ (done two_entries, (classify_allowed_files host "h" "/r" old_head two_files at_start).1)
unfolding classify_allowed_files classify_all classify_entry classify_path is_safe_relative_path
    nonempty has_code any split is_safe_segment resolves_inside_repo is_allowed_action is_literal
    classify_on_disk is_rejected classify_kind includes duplicates_from classify_tracked
    output_lines run_command lines keep arguments first_word is_space entries_of ◌>>=◌
files_accepted = refl

acme_named : nonempty "acme" ≡ true
unfolding nonempty
acme_named = refl

acme_plain : has_code b'/' "acme" ≡ false
unfolding has_code
acme_plain = refl

app_named : nonempty "app" ≡ true
unfolding nonempty
app_named = refl

app_plain : has_code b'/' "app" ≡ false
unfolding has_code
app_plain = refl

build_local_commit-Accounts_example :
    Accounted
      (host_of "a\nc\n")
      "/r"
      envelope
      at_start
      (build_local_commit (host_of "a\nc\n") "/r" (some envelope) at_start).1.commands
      (refused staged_name_mismatch)
build_local_commit-Accounts_example =
    build_local_commit-Accounts (host_of "a\nc\n") "/r" envelope at_start mismatch is_mismatch

build_local_commit-CommitsOnce_example :
    ((commits (build_local_commit host "/r" (some envelope) at_start).1 ≡ 0)
      × (reports_commit (build_local_commit host "/r" (some envelope) at_start).0 ≡ false))
    ⊎ ((dir : String) × Commit host dir "/r" envelope at_start
          (build_local_commit host "/r" (some envelope) at_start).1)
build_local_commit-CommitsOnce_example = build_local_commit-CommitsOnce host "/r" envelope at_start

preflight_core-Guarded_example : Guarded host "h" "/r" envelope passed
preflight_core-Guarded_example =
    preflight_core-Guarded host "h" "/r" envelope passed at_start
      (preflight_core host "h" "/r" (some envelope) at_start).1 preflight_passes

classify_allowed_files-Accepts_example : AllowedFiles host "h" "/r" two_files two_entries
classify_allowed_files-Accepts_example =
    classify_allowed_files-Accepts host "h" "/r" old_head two_files at_start
      (classify_allowed_files host "h" "/r" old_head two_files at_start).1 two_entries
      files_accepted

parse_git_hub_remote-https_address_example :
    parse_git_hub_remote (https_address "acme" "app")
    ≡ some (record { owner = "acme"; name = "app" })
parse_git_hub_remote-https_address_example =
    parse_git_hub_remote-https_address "acme" "app" acme_named acme_plain app_named app_plain
