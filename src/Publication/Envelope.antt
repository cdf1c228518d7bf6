-- ===== src/Publication/Envelope.antt =====
-- `validateEnvelopeShape` of scripts/dev/publication-builder.mjs.
-- A field of an envelope is `none` where the value is absent or of another type than the code asks
-- for; an object that is not one is `none` as a whole.
use mihver.Prelude.{
  ℕ, suc, String, Bool, true, false, not, ◌&&◌, ◌||◌, Option, none, some, List, [], ◌∷◌, ◌++◌, ◌==◌,
  is_hex40, is_hex64, nonempty, if◌then◌else◌,
}

pub record RawRepository : Type 0 where
  pub remote_name : Option String
  pub owner : Option String
  pub name : Option String

-- An entry of `allowed_files`; one that is no object has neither text.
pub record RawFile : Type 0 where
  pub path : Option String
  pub action : Option String

pub record RawEnvelope : Type 0 where
  pub protocol_version : Option String
  pub repository : Option RawRepository
  pub branch : Option String
  pub base_branch : Option String
  pub base_commit : Option String
  pub expected_pre_publish_head : Option String
  pub allowed_files : Option (List RawFile)
  pub publication_fingerprint : Option String
  pub commit_message : Option String
  pub pr_expected : Option Bool
  pub pr_title : Option String
  pub pr_body : Option String

pub data ShapeError : Type 0 where
  not_an_object bad_protocol_version bad_repository bad_branch main_branch bad_base_branch
        bad_base_commit bad_expected_head no_allowed_files bad_fingerprint bad_commit_message
        bad_pr_expected pr_title_required pr_body_required :
      ShapeError
  bad_path bad_action : ℕ → ShapeError

-- The text of a field that has been validated.
abbrev pub text_of : Option String → String
text_of none = ""
text_of (some s) = s

unfoldable pub is_nonempty_text : Option String → Bool
is_nonempty_text none = false
is_nonempty_text (some s) = nonempty s

-- `value === literal`
unfoldable pub is_literal : String → Option String → Bool
is_literal t none = false
is_literal t (some s) = s == t

matches : (String → Bool) → Option String → Bool
matches p none = false
matches p (some s) = p s

unfoldable pub is_protected_branch : String → Bool
is_protected_branch s = s == "main" || s == "master"

unfoldable pub error_unless : Bool → ShapeError → List ShapeError
error_unless true error = []
error_unless false error = error ∷ []

valid_repository : Option RawRepository → Bool
valid_repository none = false
valid_repository (some r) =
    is_nonempty_text r.remote_name && is_nonempty_text r.owner && is_nonempty_text r.name

branch_errors : Option String → List ShapeError
branch_errors branch =
    if not (is_nonempty_text branch)
    then bad_branch ∷ []
    else error_unless (not (is_protected_branch (text_of branch))) main_branch

unfoldable pub is_allowed_action : Option String → Bool
is_allowed_action action = is_literal "present" action || is_literal "deletion" action

unfoldable pub file_errors : ℕ → List RawFile → List ShapeError
file_errors i [] = []
file_errors i (f ∷ files) =
    error_unless (is_nonempty_text f.path) (bad_path i)
    ++ (error_unless (is_allowed_action f.action) (bad_action i) ++ file_errors (suc i) files)

unfoldable pub files_errors : Option (List RawFile) → List ShapeError
files_errors none = no_allowed_files ∷ []
files_errors (some []) = no_allowed_files ∷ []
files_errors (some (f ∷ files)) = file_errors 0 (f ∷ files)

present : Option String → Bool
present none = false
present (some s) = true

pr_errors : RawEnvelope → Option Bool → List ShapeError
pr_errors e none = bad_pr_expected ∷ []
pr_errors e (some false) = []
pr_errors e (some true) =
    error_unless (is_nonempty_text e.pr_title) pr_title_required
    ++ error_unless (present e.pr_body) pr_body_required

-- `validateEnvelopeShape`: the errors, none for an envelope that is accepted.
unfoldable pub validate_envelope_shape : Option RawEnvelope → List ShapeError
unfolding matches valid_repository branch_errors present pr_errors
validate_envelope_shape none = not_an_object ∷ []
validate_envelope_shape (some e) =
    error_unless (is_literal "1.0.0" e.protocol_version) bad_protocol_version
    ++ (error_unless (valid_repository e.repository) bad_repository
        ++ (branch_errors e.branch
            ++ (error_unless (is_nonempty_text e.base_branch) bad_base_branch
                ++ (error_unless (matches is_hex40 e.base_commit) bad_base_commit
                    ++ (error_unless (matches is_hex40 e.expected_pre_publish_head)
                          bad_expected_head
                        ++ (files_errors e.allowed_files
                            ++ (error_unless (matches is_hex64 e.publication_fingerprint)
                                  bad_fingerprint
                                ++ (error_unless (is_nonempty_text e.commit_message)
                                      bad_commit_message
                                    ++ pr_errors e e.pr_expected))))))))
