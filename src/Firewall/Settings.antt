-- ===== src/Firewall/Settings.antt =====
-- Changes of the settings: `settingsAffectFirewall` and `configChange` of
-- tools/orchestrator-firewall/bin/mihver-firewall.mjs.
pub mod Kept
use mihver.Prelude.{
  ℕ, String, Bool, true, false, not, ◌&&◌, ◌||◌, Option, none, some, List, [], ◌∷◌, ◌++◌, any,
  includes, occurs, lower_codes, same_codes,
}
use mihver.Json.{Json, Items, Fields, bool, str, arr, obj, nil, cons, end, field, canonicalize_json}
use mihver.Firewall.Machine.{Machine}
use mihver.Firewall.Delegation.{value_at}

-- An entry of `ownedHookEntries` of the manifest; an event that is no text is `none`.
pub record OwnedEntry : Type 0 where
  pub event : Option String
  pub entry : Json

unfoldable pub is_true : Option Json → Bool
is_true (some (bool b)) = b
is_true _ = false

unfoldable pub items_have : Json → Items → Bool
items_have entry nil = false
items_have entry (cons candidate rest) =
    same_codes (canonicalize_json candidate) (canonicalize_json entry) || items_have entry rest

unfoldable pub holds_entry : Json → Option Json → Bool
holds_entry entry (some (arr items)) = items_have entry items
holds_entry entry _ = false

unfoldable pub hooks_have : OwnedEntry → Option Json → Bool
hooks_have owned (some (obj hooks)) = elim owned.event [
  | none ↦ false
  | some event ↦ holds_entry owned.entry (value_at event hooks)
]
hooks_have owned _ = false

unfoldable pub names_firewall : List ℕ → Bool
names_firewall text =
    occurs (lower_codes "mihver-firewall") text
    || occurs (lower_codes "mihver_firewall") text
    || occurs (lower_codes "orchestrator-firewall") text

unfoldable pub is_hook_key : List ℕ → Bool
is_hook_key key =
    occurs (lower_codes "hook") key
    || occurs (lower_codes "command") key
    || occurs (lower_codes "mihver") key

-- `walk`: the key is the path of keys, in lower case.
unfoldable mutual
  pub walk : List ℕ → Json → Bool
  walk key (str s) = names_firewall (lower_codes s) && is_hook_key key
  walk key (arr items) = walk_items key items
  walk key (obj fields) = walk_fields key fields
  walk key _ = false

  pub walk_items : List ℕ → Items → Bool
  walk_items key nil = false
  walk_items key (cons v rest) = walk key v || walk_items key rest

  pub walk_fields : List ℕ → Fields → Bool
  walk_fields key end = false
  walk_fields key (field k v rest) = walk (key ++ b'.' ∷ lower_codes k) v || walk_fields key rest

-- `settingsAffectFirewall`
unfoldable pub settings_affect_firewall : List OwnedEntry → Fields → Bool
settings_affect_firewall owned fields =
    is_true (value_at "disableAllHooks" fields)
    || is_true (value_at "allowManagedHooksOnly" fields)
    || any (λ o. not (hooks_have o (value_at "hooks" fields))) owned
    || walk [] (obj fields)

-- The settings of a file, if they are a JSON object.
unfoldable pub parsed_settings : Option Json → Option Fields
parsed_settings (some (obj fields)) = some fields
parsed_settings _ = none

unfoldable pub read_settings : Machine → String → Option Fields
read_settings m path = elim (m.read_file path) [
  | none ↦ none
  | some content ↦ parsed_settings (m.parse_json content)
]

unfoldable pub change_denied : List OwnedEntry → Option Fields → Bool
change_denied owned none = true
change_denied owned (some fields) = settings_affect_firewall owned fields

-- `configChange`: whether the change is denied.
unfoldable pub config_change_denied : Machine → List OwnedEntry → String → String → Bool
config_change_denied m owned source path =
    includes ("user_settings" ∷ "project_settings" ∷ "local_settings" ∷ []) source
    && change_denied owned (read_settings m path)
