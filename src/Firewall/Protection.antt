-- ===== src/Firewall/Protection.antt =====
-- The protected paths of tools/orchestrator-firewall/src/protected-paths.mjs.
-- The two regular expressions of `bashTargetsProtected` are spelled out: they ignore the case of
-- ASCII letters, and `[;&|]` separates the parts of a command.
use Prim.Native.String
use mihver.Prelude.{
  ℕ, String, Bool, false, ◌&&◌, ◌||◌, Option, none, some, List, [], ◌∷◌, ◌++◌, map, ◌==◌, any,
  includes, nonempty, has_text, lower_codes, occurs, is_space, eqb, if◌then◌else◌,
}
use mihver.Firewall.Machine.{Machine, beneath}
use mihver.Firewall.Policy.{ToolVerdict}

pub record Protection : Type 0 where
  pub roots : List String
  pub exact : List String

is_separator : ℕ → Bool
is_separator c = eqb c b';' || eqb c b'&' || eqb c b'|'

prefix_part : ℕ → List (List ℕ) → List (List ℕ)
prefix_part c [] = (c ∷ []) ∷ []
prefix_part c (part ∷ parts) = (c ∷ part) ∷ parts

-- The parts between the separators.
unfoldable pub parts_of : List ℕ → List (List ℕ)
unfolding is_separator prefix_part
parts_of [] = [] ∷ []
parts_of (c ∷ cs) =
    let rest = parts_of cs in if is_separator c then [] ∷ rest else prefix_part c rest

unfoldable pub skip_spaces : List ℕ → List ℕ
skip_spaces [] = []
skip_spaces (c ∷ cs) = let rest = skip_spaces cs in if is_space c then rest else c ∷ cs

-- A part `cd\s+…` that names the directory of the settings or the firewall.
unfoldable pub enters_trusted : List ℕ → Bool
enters_trusted (c ∷ d ∷ s ∷ rest) =
    eqb c b'c'
    && eqb d b'd'
    && is_space s
    && (occurs (lower_codes ".claude") rest || occurs (lower_codes "mihver-firewall") rest)
enters_trusted part = false

-- A later part that is followed by a separator.
unfoldable pub later_enters : List (List ℕ) → Bool
later_enters [] = false
later_enters (part ∷ []) = false
later_enters (part ∷ next ∷ parts) =
    enters_trusted (skip_spaces part) || later_enters (next ∷ parts)

unfoldable pub some_enters : List (List ℕ) → Bool
some_enters [] = false
some_enters (part ∷ []) = false
some_enters (part ∷ next ∷ parts) = enters_trusted part || later_enters (next ∷ parts)

unfoldable pub names_trusted : List ℕ → Bool
names_trusted command =
    occurs (lower_codes "settings.json") command
    || occurs (lower_codes "settings.local.json") command
    || occurs (lower_codes "mihver-firewall") command

module _ (m : Machine) where
  -- `protectedPaths`
  unfoldable pub protected_paths : String → String → String → List String → Protection
  protected_paths home trust_root canonical_root installed = record {
    roots = m.resolve trust_root ∷ [];
    exact =
        m.resolve (m.join (m.join home ".claude") "settings.json")
        ∷ m.resolve (m.join (m.join canonical_root ".claude") "settings.json")
        ∷ m.resolve (m.join (m.join canonical_root ".claude") "settings.local.json")
        ∷ map m.resolve installed;
  }

  -- `isProtectedPath`
  unfoldable pub is_protected_path : Option String → Protection → Bool
  is_protected_path none p = false
  is_protected_path (some path) p =
      if nonempty path
      then includes p.exact (m.resolve path)
        || any (λ root. beneath m (m.resolve path) root) p.roots
      else false

  unfoldable pub spellings : String → String → List String
  spellings home target =
      let rel = m.relative home target in
      target ∷ String.◌++◌ "~/" rel ∷ String.◌++◌ "$HOME/" rel ∷ String.◌++◌ "${HOME}/" rel ∷ []

  -- `bashTargetsProtected`
  unfoldable pub bash_targets_protected : Option String → Protection → String → Bool
  bash_targets_protected none p home = false
  bash_targets_protected (some command) p home =
      any (λ target. any (λ needle. has_text needle command) (spellings home target))
        (p.roots ++ p.exact)
      || some_enters (parts_of (lower_codes command)) && names_trusted (lower_codes command)

  -- `protectedToolVerdict`
  unfoldable pub protected_tool_verdict :
      String → Option String → Option String → Protection → String → Option ToolVerdict
  protected_tool_verdict tool file_path command p home =
      if includes ("Write" ∷ "Edit" ∷ "NotebookEdit" ∷ []) tool && is_protected_path file_path p
      then some (record {
        code = "PROTECTED_PATH_WRITE_DENIED";
        reason = "PROTECTED_PATH_WRITE_DENIED: writes to firewall trust/config paths are forbidden";
      })
      else if tool == "Bash" && bash_targets_protected command p home
      then some (record {
        code = "PROTECTED_PATH_BASH_DENIED";
        reason =
            "PROTECTED_PATH_BASH_DENIED: command heuristically targets firewall trust/config paths";
      })
      else none
