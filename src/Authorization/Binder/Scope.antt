-- ===== src/Authorization/Binder/Scope.antt =====
-- The scope that an envelope grants: the task's allowed tokens without its forbidden ones.
use mihver.Authorization.Rederive.{canonical_tokens, canonical_scope, tokens_or_none}
use mathlib.Core.List.{append-nil, append_assoc}
use mihver.Prelude.{
  String, ◌≡◌, refl, not, ◌&&◌, List, [], ◌∷◌, arith, eq_iff, includes, Distinct, sym, ◌∙◌,
  Bool-cases, inl, inr, Option, none, some, ◌++◌,
}
use mihver.Authorization.Records.{TaskBody, scope_from, or_empty, derive_scope}

includes-scope_from :
    (forbidden seen tokens : List String) (x : String)
    → includes (scope_from forbidden seen tokens) x
      ≡ (includes tokens x && not (includes forbidden x) && not (includes seen x))
unfolding scope_from includes
includes-scope_from forbidden seen [] x = refl
includes-scope_from forbidden seen (t ∷ tokens) x = ground (
  arith,
  includes-scope_from forbidden seen tokens x,
  includes-scope_from forbidden (t ∷ seen) tokens x,
  eq_iff t x,
)

Distinct-scope_from :
    (forbidden seen tokens : List String) → Distinct (scope_from forbidden seen tokens)
unfolding scope_from includes
Distinct-scope_from forbidden seen [] = tt
Distinct-scope_from forbidden seen (t ∷ tokens) = ground (
  arith,
  Distinct-scope_from forbidden seen tokens,
  Distinct-scope_from forbidden (t ∷ seen) tokens,
  includes-scope_from forbidden (t ∷ seen) tokens t,
  eq_iff t t,
)

-- The derived scope holds exactly the tokens that the task allows and does not forbid.
includes-derive_scope :
    (t : TaskBody) (x : String)
    → includes (derive_scope t) x
      ≡ (includes t.allowed_scope x && not (includes (or_empty t.forbidden_scope) x))
unfolding derive_scope includes
includes-derive_scope t x =
    ground (arith, includes-scope_from (or_empty t.forbidden_scope) [] t.allowed_scope x)

-- The derived scope holds no token twice.
derive_scope-Distinct : (t : TaskBody) → Distinct (derive_scope t)
unfolding derive_scope
derive_scope-Distinct t = Distinct-scope_from (or_empty t.forbidden_scope) [] t.allowed_scope

canonical_tokens-scope_from :
    (forbidden seen scope tokens : List String)
    → canonical_tokens forbidden seen scope tokens ≡ scope ++ scope_from forbidden seen tokens
unfolding canonical_tokens scope_from
canonical_tokens-scope_from forbidden seen scope [] = sym (append-nil scope)
canonical_tokens-scope_from forbidden seen scope (t ∷ tokens) =
    elim (Bool-cases (not (includes forbidden t) && not (includes seen t))) [
      | inl e ↦ rw e (
          canonical_tokens-scope_from forbidden (t ∷ seen) (scope ++ t ∷ []) tokens
          ∙ append_assoc scope (t ∷ []) (scope_from forbidden (t ∷ seen) tokens))
      | inr e ↦ rw e (canonical_tokens-scope_from forbidden seen scope tokens)
    ]

-- The two scopes are the same.
pub canonical_scope-eq-derive_scope : (t : TaskBody) → canonical_scope t ≡ derive_scope t
unfolding canonical_scope derive_scope
canonical_scope-eq-derive_scope t = by_forbidden t.forbidden_scope
  where
    by_forbidden :
        (o : Option (List String))
        → canonical_tokens (tokens_or_none o) [] [] t.allowed_scope
          ≡ scope_from (or_empty o) [] t.allowed_scope
    by_forbidden none = unfold or_empty in canonical_tokens-scope_from [] [] [] t.allowed_scope
    by_forbidden (some f) = unfold or_empty in canonical_tokens-scope_from f [] [] t.allowed_scope
