-- ===== src/Publication/Files.antt =====
-- The classification of the allowed files in scripts/dev/publication-builder.mjs: `classifyEntry`
-- and `classifyAllowedFiles`.
pub mod Accepted
use Prim.Native.Char.{code}
use Prim.Native.String
use mihver.Publication.Envelope.{RawFile, is_allowed_action, is_literal}
use mihver.Publication.Host.{
  Host, Act, FileKind, symbolic_link, directory, special, regular, MalformedReason, unsafe_path,
  path_escapes_repo, unknown_action, symlink_not_allowed, directory_not_allowed,
  special_file_not_allowed, declared_deletion_but_present, declared_present_but_absent,
  deletion_not_tracked, deletion_not_a_regular_file, malformed_allowed_files, done, require,
  run_command, ls_tree, pure, ◌>>=◌, ◌>>◌,
}
use mihver.Prelude.{
  String, Bool, true, false, not, ◌&&◌, ◌||◌, Option, none, some, List, [], ◌∷◌, ◌++◌, ◌==◌, any,
  includes, nonempty, split, has_code, is_space, starts_with, keep, if◌then◌else◌, eqb, length,
}

pub data Shape : Type 0 where
  shape_a shape_b : Shape

pub record FileEntry : Type 0 where
  pub shape : Shape
  pub path : String

pub data Classified : Type 0 where
  classified : FileEntry → Classified
  malformed : MalformedReason → Option String → Classified

unfoldable pub is_safe_segment : String → Bool
is_safe_segment segment = not (segment == "..") && not (segment == "")

-- The first word of a line, as `split(/\s+/)[0]` gives it.
unfoldable pub first_word : String → String
first_word String.[] = ""
first_word (String.◌∷◌ c s) =
    let rest = first_word s in if is_space (code c) then "" else String.◌∷◌ c rest

-- `stdout.split("\n").filter(Boolean)`
unfoldable pub lines : String → List String
lines out = keep nonempty (split 10 out)

-- Paths that occur again.
unfoldable pub duplicates_from : List String → List String → List RawFile → List String
duplicates_from seen found [] = found
duplicates_from seen found (f ∷ files) = elim f.path [
  | none ↦ duplicates_from seen found files
  | some p ↦
      duplicates_from (p ∷ seen)
        (if includes seen p && not (includes found p) then found ++ p ∷ [] else found) files
]

unfoldable pub is_rejected : List String → Classified → Bool
is_rejected duplicates (malformed reason path) = true
is_rejected duplicates (classified e) = includes duplicates e.path

unfoldable pub entries_of : List Classified → List FileEntry
entries_of [] = []
entries_of (malformed reason path ∷ cs) = entries_of cs
entries_of (classified e ∷ cs) = e ∷ entries_of cs

module _ {W : Type 0} (host : Host W) (dir root : String) where
  unfoldable pub is_safe_relative_path : String → Bool
  is_safe_relative_path path =
      nonempty path
      && not (has_code 0 path || has_code 10 path)
      && not (host.is_absolute path)
      && not (starts_with path "/" || has_code b'\\' path)
      && not (any (λ segment. not (is_safe_segment segment)) (split b'/' path))

  unfoldable pub resolves_inside_repo : String → Bool
  resolves_inside_repo path =
      let rel = host.relative (host.resolve root) (host.resolve_in root path) in
      not (rel == "")
      && not (starts_with rel (String.◌++◌ ".." host.sep))
      && not (host.is_absolute rel)

  -- Shape A: a regular file that is there.
  unfoldable pub classify_kind : String → Bool → FileKind → Classified
  classify_kind path is_present symbolic_link = malformed symlink_not_allowed (some path)
  classify_kind path is_present directory = malformed directory_not_allowed (some path)
  classify_kind path is_present special = malformed special_file_not_allowed (some path)
  classify_kind path true regular = classified (record { shape = shape_a; path = path })
  classify_kind path false regular = malformed declared_deletion_but_present (some path)

  -- Shape B: a deletion of what was tracked as a regular file.
  unfoldable pub classify_tracked : String → List String → Classified
  classify_tracked path (line ∷ []) =
      if first_word line == "100644" || first_word line == "100755"
      then classified (record { shape = shape_b; path = path })
      else malformed deletion_not_a_regular_file (some path)
  classify_tracked path found = malformed deletion_not_tracked (some path)

  unfoldable pub output_lines : Option String → List String
  output_lines none = []
  output_lines (some out) = lines out

  unfoldable pub classify_on_disk : String → String → Bool → Option FileKind → Act W Classified
  classify_on_disk expected_head path is_present (some kind) s =
      (done (classify_kind path is_present kind), s)
  classify_on_disk expected_head path true none s =
      (done (malformed declared_present_but_absent (some path)), s)
  classify_on_disk expected_head path false none s =
      let (out, t) = run_command host dir root (ls_tree expected_head path) s in
      (done (classify_tracked path (output_lines out)), t)

  -- `classifyEntry`, for a path that is a text
  unfoldable pub classify_path : String → String → Option String → Act W Classified
  classify_path expected_head path action s =
      if not (is_safe_relative_path path)
      then (done (malformed unsafe_path (some path)), s)
      else if not (resolves_inside_repo path)
      then (done (malformed path_escapes_repo (some path)), s)
      else if not (is_allowed_action action)
      then (done (malformed unknown_action (some path)), s)
      else classify_on_disk expected_head path (is_literal "present" action)
          (host.lstat (host.join root path) s.world) s

  unfoldable pub classify_entry : String → RawFile → Act W Classified
  classify_entry expected_head f = elim f.path [
    | none ↦ pure (malformed unsafe_path none)
    | some path ↦ classify_path expected_head path f.action
  ]

  unfoldable pub classify_all : String → List RawFile → Act W (List Classified)
  classify_all expected_head [] = pure []
  classify_all expected_head (f ∷ files) = do
    c ← classify_entry expected_head f
    cs ← classify_all expected_head files
    pure (c ∷ cs)

  -- `classifyAllowedFiles`
  unfoldable pub classify_allowed_files : String → List RawFile → Act W (List FileEntry)
  classify_allowed_files expected_head files = do
    cs ← classify_all expected_head files
    let duplicates = duplicates_from [] [] files
    require (not (any (is_rejected duplicates) cs) && eqb (length duplicates) 0)
        malformed_allowed_files
    pure (entries_of cs)
