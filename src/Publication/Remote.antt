-- ===== src/Publication/Remote.antt =====
-- `parseGitHubRemote` of scripts/dev/publication-builder.mjs.
pub mod RoundTrip
use mihver.Prelude.{
  String, Bool, true, false, not, ◌&&◌, Option, none, some, ◌==◌, nonempty, cut, has_code,
  strip_prefix, strip_suffix, trim, if◌then◌else◌,
}

pub record Remote : Type 0 where
  pub owner : String
  pub name : String

-- `([^/]+?)(?:\.git)?\/?$`
unfoldable pub match_name : String → Option String
match_name t =
    let base : String = elim (strip_suffix "/" t) [ none ↦ t | some u ↦ u ] in
    let name : String = elim (strip_suffix ".git" base) [
      | none ↦ base
      | some u ↦ if u == "" then base else u
    ] in
    if nonempty name && not (has_code b'/' name) then some name else none

unfoldable pub match_path : String × Option String → Option Remote
match_path (owner, none) = none
match_path (owner, some rest) =
    if nonempty owner
    then elim (match_name rest) [
      | none ↦ none
      | some name ↦ some (record { owner = owner; name = name })
    ]
    else none

unfoldable pub match_remote : String → String → Option Remote
match_remote prefix url = elim (strip_prefix prefix url) [
  | none ↦ none
  | some rest ↦ match_path (cut b'/' rest)
]

unfoldable pub parse_git_hub_remote : String → Option Remote
parse_git_hub_remote url = elim (match_remote "https://github.com/" (trim url)) [
  | some r ↦ some r
  | none ↦ match_remote "git@github.com:" (trim url)
]
