-- ===== src/Publication/Fingerprint.antt =====
-- The canonical fingerprint of scripts/dev/publication-builder.mjs: over the bytes of the worktree,
-- and over the blobs in the index.
use mihver.Prelude.{ℕ, String, Option, none, some, List, [], ◌∷◌, ◌++◌, trim, codes, if◌then◌else◌}
use mihver.Json.{units, less}
use mihver.Publication.Host.{Host, Act, hash_object, staged_blob, git, try_git, pure, ◌>>=◌}
use mihver.Publication.Files.{Shape, shape_a, shape_b, FileEntry}

-- `byteSort`: the order of the UTF-8 bytes is that of the code points. The entries that were
-- classified have different paths, so that the map by path keeps them all.
unfoldable pub insert_entry : FileEntry → List FileEntry → List FileEntry
insert_entry e [] = e ∷ []
insert_entry e (x ∷ xs) =
    if less (codes e.path) (codes x.path) then e ∷ x ∷ xs else x ∷ insert_entry e xs

unfoldable pub byte_sort : List FileEntry → List FileEntry
byte_sort [] = []
byte_sort (e ∷ es) = insert_entry e (byte_sort es)

-- `Some` text of a command, without its white space.
abbrev pub trimmed : Option String → Option String
trimmed none = none
trimmed (some out) = some (trim out)

abbrev pub or_unreadable : Option String → String
or_unreadable none = "STAGED_BLOB_UNREADABLE"
or_unreadable (some sha) = sha

-- What is hashed for one entry.
unfoldable pub entry_line : String → String → List ℕ
entry_line path digest = units path ++ 0 ∷ (units digest ++ 10 ∷ [])

module _ {W : Type 0} where
  unfoldable pub digest_of : (String → Act W String) → Shape → String → Act W String
  digest_of digest shape_a path = digest path
  digest_of digest shape_b path = pure "ABSENT"

  unfoldable pub fingerprint_lines : (String → Act W String) → List FileEntry → Act W (List ℕ)
  fingerprint_lines digest [] = pure []
  fingerprint_lines digest (e ∷ es) = do
    d ← digest_of digest e.shape e.path
    rest ← fingerprint_lines digest es
    pure (entry_line e.path d ++ rest)

  module _ (host : Host W) where
    -- `computeFingerprintFromDigests`
    unfoldable pub fingerprint_from_digests :
        (String → Act W String) → List FileEntry → Act W String
    fingerprint_from_digests digest es = do
      text ← fingerprint_lines digest (byte_sort es)
      pure (host.sha256 text)

    module _ (dir root : String) where
      -- `rawBlobSha`
      unfoldable pub raw_blob_sha : String → Act W String
      raw_blob_sha path = do out ← git host dir root (hash_object path); pure (trim out)

      -- `stagedBlobSha`
      unfoldable pub staged_blob_sha : String → Act W (Option String)
      staged_blob_sha path = do out ← try_git host dir root (staged_blob path); pure (trimmed out)

      -- `computeFingerprint`
      unfoldable pub compute_fingerprint : List FileEntry → Act W String
      compute_fingerprint es = fingerprint_from_digests raw_blob_sha es

      staged_digest : String → Act W String
      staged_digest path = do sha ← staged_blob_sha path; pure (or_unreadable sha)

      -- `computeStagedFingerprint`
      unfoldable pub compute_staged_fingerprint : List FileEntry → Act W String
      unfolding staged_digest
      compute_staged_fingerprint es = fingerprint_from_digests staged_digest es
