-- ===== src/Firewall/Delegation/Confined.antt =====
-- What the accepted parameters of a delegation may do:
-- tools/orchestrator-firewall/src/delegation.mjs.
use Prim.Native.String
use mihver.Firewall.Delegation.{
  Meta, ToolInput, Config, no_config, not_an_object, overrides, Given, other_type, or_else,
  config_refusal, approval_refusal, sandbox_refusal, place_refusal, delegation_cwd_in_scope,
  params_refusal, undefined, text, under_root,
}
use mihver.Firewall.Machine.{Machine, RealPath, found, absent, failing, beneath}
use mihver.Prelude.{
  ◌≡◌, ◌≢◌, refl, sym, ap, subst, ◌⊎◌, inl, inr, true, false, Option, none, some, [], ◌∷◌, arith,
  String, Bool-cases, ◌==◌, eq_iff, starts_with,
}

-- The sandbox of a role.
pub data Sandboxed : String → Option String → Type 0 where
  writable : Sandboxed "IMPLEMENTER" (some "workspace-write")
  read_only : {role : String} → role ≢ "IMPLEMENTER" → Sandboxed role (some "read-only")

-- The working directory is absolute and its real path lies at or below that of the root: the path
-- from the root to it is empty, or neither `..` nor below it nor absolute.
pub record Inside (m : Machine) (cwd root : String) : Type 0 where
  pub absolute : m.is_absolute cwd ≡ true
  pub real_cwd : String
  pub real_root : String
  pub cwd_found : m.realpath cwd ≡ found real_cwd
  pub root_found : m.realpath root ≡ found real_root
  pub below :
      (m.relative real_root real_cwd ≡ "")
      ⊎ ((m.relative real_root real_cwd ≢ "..")
          × (starts_with (m.relative real_root real_cwd) (String.◌++◌ ".." m.sep) ≡ false)
          × (m.is_absolute (m.relative real_root real_cwd) ≡ false))

-- Parameters that are accepted for a new thread: nothing of the config is overridden, the approval
-- policy is absent or one of two, the thread runs inside the repository, and only an implementer may
-- write.
pub record Confined (m : Machine) (meta : Meta) (input : ToolInput) (root : String) : Type 0 where
  pub no_overrides : (input.config ≡ no_config) ⊎ (input.config ≡ overrides [])
  pub approval :
      (input.approval_policy ≡ undefined)
      ⊎ (input.approval_policy ≡ text "never")
      ⊎ (input.approval_policy ≡ text "on-request")
  pub cwd : String
  pub given_cwd : input.cwd ≡ some cwd
  pub inside : Inside m cwd root
  pub sandboxed : Sandboxed meta.role input.sandbox

or_else-none : (m : Machine) (a b : Option String) → or_else m a b ≡ none → (a ≡ none) × (b ≡ none)
unfolding or_else
or_else-none m none b h = (refl, h)
or_else-none m (some a) b h = absurd (ground arith)

config-none :
    (m : Machine) (c : Config) → config_refusal m c ≡ none → (c ≡ no_config) ⊎ (c ≡ overrides [])
unfolding config_refusal
config-none m no_config h = inl refl
config-none m not_an_object h = absurd (ground arith)
config-none m (overrides []) h = inr refl
config-none m (overrides (k ∷ ks)) h = absurd (ground arith)

approval-none :
    (m : Machine) (g : Given)
    → approval_refusal m g ≡ none
    → (g ≡ undefined) ⊎ (g ≡ text "never") ⊎ (g ≡ text "on-request")
unfolding approval_refusal
approval-none m undefined h = inl refl
approval-none m other_type h = absurd (ground arith)
approval-none m (text p) h = elim (Bool-cases (p == "never")) [
  | inl e ↦ inr (inl (ap text ((eq_iff p "never").0 e)))
  | inr e ↦ inr (inr (ap text ((eq_iff p "on-request").0 (ground arith))))
]

sandbox-none :
    (m : Machine) (role : String) (sandbox : Option String)
    → sandbox_refusal m role sandbox ≡ none
    → Sandboxed role sandbox
unfolding sandbox_refusal
sandbox-none m role none h = absurd (ground arith)
sandbox-none m role (some s) h = elim (Bool-cases (role == "IMPLEMENTER")) [
  | inl e ↦
      subst (λ r. Sandboxed r (some s)) (sym ((eq_iff role "IMPLEMENTER").0 e))
        (subst (λ x. Sandboxed "IMPLEMENTER" (some x))
          (sym ((eq_iff s "workspace-write").0 (ground arith))) writable)
  | inr e ↦
      subst (λ x. Sandboxed role (some x)) (sym ((eq_iff s "read-only").0 (ground arith)))
        (read_only (λ same. ground (arith, eq_iff role "IMPLEMENTER")))
]

beneath-cases :
    (m : Machine) (candidate root : String)
    → beneath m candidate root ≡ true
    → (m.relative root candidate ≡ "")
      ⊎ ((m.relative root candidate ≢ "..")
          × (starts_with (m.relative root candidate) (String.◌++◌ ".." m.sep) ≡ false)
          × (m.is_absolute (m.relative root candidate) ≡ false))
unfolding beneath
beneath-cases m candidate root h =
    let rel = m.relative root candidate in
    elim (Bool-cases (rel == "")) [
      | inl e ↦ inl ((eq_iff rel "").0 e)
      | inr e ↦ inr ((λ same. ground (arith, eq_iff rel "..")), ground arith, ground arith)
    ]

delegation_cwd-Inside :
    (m : Machine) (cwd root : String)
    → delegation_cwd_in_scope m cwd root ≡ true
    → Inside m cwd root
unfolding delegation_cwd_in_scope
delegation_cwd-Inside m cwd root h = at (m.realpath cwd) (m.realpath root) refl refl (ground arith)
  where
    at :
        (a b : RealPath)
        → m.realpath cwd ≡ a
        → m.realpath root ≡ b
        → under_root m a b ≡ true
        → Inside m cwd root
    at (found a) (found b) e f k = record {
      absolute = ground arith;
      real_cwd = a;
      real_root = b;
      cwd_found = e;
      root_found = f;
      below = beneath-cases m a b (unfold under_root in k);
    }
    at (found a) absent e f k = absurd (unfold under_root in ground arith)
    at (found a) failing e f k = absurd (unfold under_root in ground arith)
    at absent b e f k = absurd (unfold under_root in ground arith)
    at failing b e f k = absurd (unfold under_root in ground arith)

place-none :
    (m : Machine) (role : String) (cwd sandbox : Option String) (root : String)
    → place_refusal m role cwd sandbox root ≡ none
    → (c : String) × (cwd ≡ some c) × Inside m c root × Sandboxed role sandbox
unfolding place_refusal
place-none m role none sandbox root h = absurd (ground arith)
place-none m role (some c) sandbox root h = (
  c,
  refl,
  delegation_cwd-Inside m c root (ground arith),
  sandbox-none m role sandbox (ground arith),
)

-- Parameters that are accepted for a new thread override nothing of the config, leave the approval
-- policy out or set it to `never` or `on-request`, name an absolute working directory whose real path
-- lies at or below that of the repository, and ask for the sandbox `workspace-write` if the role is
-- IMPLEMENTER and for `read-only` if it is another.
pub params_refusal-Confined :
    (m : Machine) (meta : Meta) (input : ToolInput) (root : String)
    → params_refusal m meta input root false ≡ none
    → Confined m meta input root
unfolding params_refusal
params_refusal-Confined m meta input root h =
    let (config, rest) = or_else-none m (config_refusal m input.config) _ h in
    let (approval, place) = or_else-none m (approval_refusal m input.approval_policy) _ rest in
    let (c, given, inside, sandboxed) = place-none m meta.role input.cwd input.sandbox root place in
    record {
      no_overrides = config-none m input.config config;
      approval = approval-none m input.approval_policy approval;
      cwd = c;
      given_cwd = given;
      inside = inside;
      sandboxed = sandboxed;
    }
