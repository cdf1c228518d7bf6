-- ===== src/Firewall/Machine/Outside.antt =====
-- Which working directories are left alone.
use mihver.Firewall.Machine.{
  Machine, RealPath, found, absent, failing, beneath, cwd_in_scope, scope_of, in_scope,
}
use mihver.Prelude.{◌≡◌, refl, ◌⊎◌, inl, inr, true, false, Option, none, some, String, arith}

-- A working directory outside: it and the root are known, and it is beneath the root neither as it
-- is spelled nor as it is resolved.
pub record Outside (m : Machine) (cwd : Option String) (root : String) : Type 0 where
  pub real_root : String
  pub root_found : m.realpath (m.resolve root) ≡ found real_root
  pub path : String
  pub given_cwd : cwd ≡ some path
  pub absolute : m.is_absolute path ≡ true
  pub elsewhere :
      ((real : String) × (m.realpath (m.resolve path) ≡ found real)
        × (beneath m real real_root ≡ false))
      ⊎ ((m.realpath (m.resolve path) ≡ absent)
          × (beneath m (m.resolve path) (m.resolve root) ≡ false)
          × (beneath m (m.resolve path) real_root ≡ false))

cwd_in_scope-elsewhere :
    (m : Machine) (raw lexical real_root : String) (r : RealPath)
    → cwd_in_scope m raw lexical real_root r ≡ false
    → ((real : String) × (r ≡ found real) × (beneath m real real_root ≡ false))
      ⊎ ((r ≡ absent) × (beneath m raw lexical ≡ false) × (beneath m raw real_root ≡ false))
unfolding cwd_in_scope
cwd_in_scope-elsewhere m raw lexical real_root (found real) h = inl (real, refl, h)
cwd_in_scope-elsewhere m raw lexical real_root absent h = inr (refl, ground arith, ground arith)
cwd_in_scope-elsewhere m raw lexical real_root failing h = absurd (ground arith)

scope_of-Outside :
    (m : Machine) (cwd : Option String) (root real_root : String)
    → m.realpath (m.resolve root) ≡ found real_root
    → scope_of m cwd (m.resolve root) real_root ≡ false
    → Outside m cwd root
unfolding scope_of
scope_of-Outside m none root real_root r h = absurd (ground arith)
scope_of-Outside m (some path) root real_root r h = record {
  real_root = real_root;
  root_found = r;
  path = path;
  given_cwd = refl;
  absolute = ground arith;
  elsewhere = cwd_in_scope-elsewhere m (m.resolve path) (m.resolve root) real_root _ (ground arith);
}

-- A hook is left alone only if the root is resolved and its working directory is an absolute path
-- that lies outside: resolved it is not beneath the resolved root, or it does not exist and is
-- beneath neither spelling of the root. Whatever else is ambiguous is in scope.
pub in_scope-Outside :
    (m : Machine) (cwd : Option String) (root : String)
    → in_scope m cwd root ≡ false
    → Outside m cwd root
unfolding in_scope
in_scope-Outside m cwd root h = given (m.realpath (m.resolve root)) refl (ground arith)
  where
    given :
        (r : RealPath)
        → m.realpath (m.resolve root) ≡ r
        → (elim r [
          | found real_root ↦ scope_of m cwd (m.resolve root) real_root
          | absent ↦ true
          | failing ↦ true
        ])
          ≡ false
        → Outside m cwd root
    given (found real_root) e k = scope_of-Outside m cwd root real_root e k
    given absent e k = absurd (ground arith)
    given failing e k = absurd (ground arith)
