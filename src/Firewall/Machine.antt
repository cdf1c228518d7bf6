-- ===== src/Firewall/Machine.antt =====
-- What the orchestrator firewall takes from Node: paths, the file system, the clock and the
-- fingerprint of the workspace (tools/orchestrator-firewall/src/fingerprint.mjs).
-- A machine is what they are during one hook. It is a parameter, of which nothing is assumed.
pub mod Outside
use mihver.Prelude.{
  String, Bool, true, not, ◌&&◌, ◌||◌, Option, none, some, ◌==◌, nonempty, starts_with, trim,
  if◌then◌else◌,
}
use Prim.Native.String
use mihver.Json.{Json}

-- `fs.realpathSync.native`: the path, the error ENOENT or ENOTDIR, or any other error.
pub data RealPath : Type 0 where
  found : String → RealPath
  absent failing : RealPath

pub record Machine : Type 0 where
  pub resolve : String → String
  pub join : String → String → String
  pub relative : String → String → String
  pub is_absolute : String → Bool
  pub sep : String
  pub realpath : String → RealPath
  -- `fs.readFileSync` as a text, `none` if it throws
  pub read_file : String → Option String
  -- `JSON.parse`, `none` if it throws
  pub parse_json : String → Option Json
  pub base64url_decode : String → String
  pub now : String
  pub workspace_head : String
  pub workspace_fingerprint : String

module _ (m : Machine) where
  is_beneath : String → Bool
  is_beneath rel =
      rel == ""
      || not (rel == "..")
        && not (starts_with rel (String.◌++◌ ".." m.sep))
        && not (m.is_absolute rel)

  -- `beneath`, `within`
  unfoldable pub beneath : String → String → Bool
  unfolding is_beneath
  beneath candidate root = is_beneath (m.relative root candidate)

  -- The end of `inScope`: where the working directory is.
  unfoldable pub cwd_in_scope : String → String → String → RealPath → Bool
  cwd_in_scope raw lexical_root root (found cwd) = beneath cwd root
  cwd_in_scope raw lexical_root root absent = beneath raw lexical_root || beneath raw root
  cwd_in_scope raw lexical_root root failing = true

  unfoldable pub scope_of : Option String → String → String → Bool
  scope_of none lexical_root root = true
  scope_of (some cwd) lexical_root root =
      if not (nonempty (trim cwd)) || not (m.is_absolute cwd)
      then true
      else cwd_in_scope (m.resolve cwd) lexical_root root (m.realpath (m.resolve cwd))

  -- `inScope` of tools/orchestrator-firewall/src/scope.mjs
  unfoldable pub in_scope : Option String → String → Bool
  in_scope cwd canonical_root =
      if nonempty canonical_root
      then elim (m.realpath (m.resolve canonical_root)) [
        | found root ↦ scope_of cwd (m.resolve canonical_root) root
        | absent ↦ true
        | failing ↦ true
      ]
      else true
