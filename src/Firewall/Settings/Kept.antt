-- ===== src/Firewall/Settings/Kept.antt =====
-- What a change of the settings that is not denied leaves in place.
use mihver.Firewall.Settings.{
  OwnedEntry, is_true, hooks_have, names_firewall, is_hook_key, walk, walk_items, walk_fields,
  settings_affect_firewall, read_settings, change_denied, config_change_denied,
}
use mihver.Firewall.Delegation.{value_at}
use mihver.Firewall.Machine.{Machine}
use mihver.Json.{Json, Items, Fields, null, bool, nat, num, str, arr, obj, nil, cons, end, field}
use mihver.Prelude.{
  ◌≡◌, refl, subst, ℕ, ◌⊎◌, inl, inr, true, false, not, ◌&&◌, Option, none, some, List, [], ◌∷◌,
  ◌++◌, String, All, any, includes, arith, lower_codes, ◌↔◌,
}

-- The texts of a value, each with its path of keys behind that of the value.
mutual
  pub Reaches : List ℕ → Json → List ℕ → String → Type 0
  Reaches key (str s) path t = (key ≡ path) × (s ≡ t)
  Reaches key (arr items) path t = ReachesItems key items path t
  Reaches key (obj fields) path t = ReachesFields key fields path t
  Reaches key _ path t = ⊥

  pub ReachesItems : List ℕ → Items → List ℕ → String → Type 0
  ReachesItems key nil path t = ⊥
  ReachesItems key (cons v rest) path t = Reaches key v path t ⊎ ReachesItems key rest path t

  pub ReachesFields : List ℕ → Fields → List ℕ → String → Type 0
  ReachesFields key end path t = ⊥
  ReachesFields key (field k v rest) path t =
      Reaches (key ++ b'.' ∷ lower_codes k) v path t ⊎ ReachesFields key rest path t

-- No text that names the firewall stands under a key of hooks.
abbrev pub Unnamed : List ℕ → String → Type 0
Unnamed path t = (names_firewall (lower_codes t) && is_hook_key path) ≡ false

mutual
  unfolding Reaches walk

  walk-Unnamed :
      (key : List ℕ) (v : Json) (path : List ℕ) (t : String)
      → walk key v ≡ false
      → Reaches key v path t
      → Unnamed path t
  walk-Unnamed key null path t h r = absurd r
  walk-Unnamed key (bool b) path t h r = absurd r
  walk-Unnamed key (nat n) path t h r = absurd r
  walk-Unnamed key (num n) path t h r = absurd r
  walk-Unnamed key (str s) path t h (a, b) =
      subst (λ k. Unnamed k t) a (subst (λ u. Unnamed key u) b h)
  walk-Unnamed key (arr items) path t h r = walk_items-Unnamed key items path t h r
  walk-Unnamed key (obj fields) path t h r = walk_fields-Unnamed key fields path t h r

  walk_items-Unnamed :
      (key : List ℕ) (items : Items) (path : List ℕ) (t : String)
      → walk_items key items ≡ false
      → ReachesItems key items path t
      → Unnamed path t
  walk_items-Unnamed key nil path t h r = absurd r
  walk_items-Unnamed key (cons v rest) path t h (inl r) = walk-Unnamed key v path t (ground arith) r
  walk_items-Unnamed key (cons v rest) path t h (inr r) =
      walk_items-Unnamed key rest path t (ground arith) r

  walk_fields-Unnamed :
      (key : List ℕ) (fields : Fields) (path : List ℕ) (t : String)
      → walk_fields key fields ≡ false
      → ReachesFields key fields path t
      → Unnamed path t
  walk_fields-Unnamed key end path t h r = absurd r
  walk_fields-Unnamed key (field k v rest) path t h (inl r) =
      walk-Unnamed (key ++ b'.' ∷ lower_codes k) v path t (ground arith) r
  walk_fields-Unnamed key (field k v rest) path t h (inr r) =
      walk_fields-Unnamed key rest path t (ground arith) r

-- Settings that a change may bring: they are an object that neither disables the hooks nor allows
-- only managed ones, that holds each owned entry under its event, and in which no text below a key
-- of hooks names the firewall.
pub record Kept (m : Machine) (owned : List OwnedEntry) (path : String) : Type 0 where
  pub fields : Fields
  pub readable : read_settings m path ≡ some fields
  pub hooks_enabled : is_true (value_at "disableAllHooks" fields) ≡ false
  pub not_only_managed : is_true (value_at "allowManagedHooksOnly" fields) ≡ false
  pub holds_owned : All (λ o. hooks_have o (value_at "hooks" fields) ≡ true) owned
  pub unnamed : (key : List ℕ) (t : String) → Reaches [] (obj fields) key t → Unnamed key t

owned-kept :
    (owned : List OwnedEntry) (hooks : Option Json)
    → any (λ o. not (hooks_have o hooks)) owned ≡ false
    → All (λ o. hooks_have o hooks ≡ true) owned
unfolding any
owned-kept [] hooks h = tt
owned-kept (o ∷ owned) hooks h = (ground arith, owned-kept owned hooks (ground arith))

mutual
  unfolding Reaches walk

  walk-quiet :
      (key : List ℕ) (v : Json)
      → ((path : List ℕ) (t : String) → Reaches key v path t → Unnamed path t)
      → walk key v ≡ false
  walk-quiet key null h = refl
  walk-quiet key (bool b) h = refl
  walk-quiet key (nat n) h = refl
  walk-quiet key (num n) h = refl
  walk-quiet key (str s) h = h key s (refl, refl)
  walk-quiet key (arr items) h = walk_items-quiet key items h
  walk-quiet key (obj fields) h = walk_fields-quiet key fields h

  walk_items-quiet :
      (key : List ℕ) (items : Items)
      → ((path : List ℕ) (t : String) → ReachesItems key items path t → Unnamed path t)
      → walk_items key items ≡ false
  walk_items-quiet key nil h = refl
  walk_items-quiet key (cons v rest) h =
      rw (walk-quiet key v (λ path t r. h path t (inl r)))
        (walk_items-quiet key rest (λ path t r. h path t (inr r)))

  walk_fields-quiet :
      (key : List ℕ) (fields : Fields)
      → ((path : List ℕ) (t : String) → ReachesFields key fields path t → Unnamed path t)
      → walk_fields key fields ≡ false
  walk_fields-quiet key end h = refl
  walk_fields-quiet key (field k v rest) h =
      rw (walk-quiet (key ++ b'.' ∷ lower_codes k) v (λ path t r. h path t (inl r)))
        (walk_fields-quiet key rest (λ path t r. h path t (inr r)))

kept-owned :
    (owned : List OwnedEntry) (hooks : Option Json)
    → All (λ o. hooks_have o hooks ≡ true) owned
    → any (λ o. not (hooks_have o hooks)) owned ≡ false
unfolding any
kept-owned [] hooks h = refl
kept-owned (o ∷ owned) hooks h = rw h.0 (kept-owned owned hooks h.1)

Kept-of_accepted :
    (m : Machine) (owned : List OwnedEntry) (path : String) (r : Option Fields)
    → read_settings m path ≡ r
    → change_denied owned r ≡ false
    → Kept m owned path
Kept-of_accepted m owned path none e k = absurd (unfold change_denied in ground arith)
Kept-of_accepted m owned path (some fields) e k =
    let accepted : settings_affect_firewall owned fields ≡ false = unfold change_denied in k in
    unfold settings_affect_firewall in
    record {
      fields = fields;
      readable = e;
      hooks_enabled = ground arith;
      not_only_managed = ground arith;
      holds_owned = owned-kept owned (value_at "hooks" fields) (ground arith);
      unnamed = λ key t r. walk-Unnamed [] (obj fields) key t (ground arith) r;
    }

accepted-of_Kept :
    (m : Machine) (owned : List OwnedEntry) (path : String)
    → Kept m owned path
    → change_denied owned (read_settings m path) ≡ false
unfolding change_denied settings_affect_firewall
accepted-of_Kept m owned path k =
    rw
      (
        k.readable,
        k.hooks_enabled,
        k.not_only_managed,
        kept-owned owned (value_at "hooks" k.fields) k.holds_owned,
      )
      (walk-quiet [] (obj k.fields) k.unnamed)

pub config_change_denied-Kept :
    (m : Machine) (owned : List OwnedEntry) (source path : String)
    → includes ("user_settings" ∷ "project_settings" ∷ "local_settings" ∷ []) source ≡ true
    → (config_change_denied m owned source path ≡ false) ↔ Kept m owned path
unfolding config_change_denied
config_change_denied-Kept m owned source path known = (
  λ h. Kept-of_accepted m owned path (read_settings m path) refl (ground arith),
  λ k. ground (arith, accepted-of_Kept m owned path k),
)
