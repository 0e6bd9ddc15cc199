-- ===== src/Keys/Sync.antt =====
-- internal/billing/keys.go, SyncKeys and ensureKey: the keys of the store after the proxy has listed
-- those that it holds.
pub mod Listing
use cpa_plugin_group_billing.Prelude.{
  ℕ, ◌+◌, ◌≡◌, Bool, true, false, not, ◌&&◌, ◌||◌, Option, none, some, List, [], ◌∷◌, ltb,
  if◌then◌else◌,
}
use cpa_plugin_group_billing.Prelude.Int64.{pos}
use cpa_plugin_group_billing.Prelude.Table.{Table, lookup, insert}
use cpa_plugin_group_billing.Prelude.Text.{Text, codes, text_eq, is_empty, trim_space}
use cpa_plugin_group_billing.Calendar.{Time, is_zero}
use cpa_plugin_group_billing.Errors.{Result, ok, err, invalidf}
use cpa_plugin_group_billing.GroupConfig.{Edit}
use cpa_plugin_group_billing.Identity.{preview_key}
use cpa_plugin_group_billing.Routing.{empty_rule}
use cpa_plugin_group_billing.State.{State, KeyState}
use cpa_plugin_group_billing.State.Changes.{Changes, no_changes}
use cpa_plugin_group_billing.Store.{Repository, Store, edit_configuration}

pub record SyncResult : Type 0 where
  pub added : ℕ
  pub deleted : ℕ

-- `UnknownKeyPreview`
abbrev pub unknown_key_preview : Text
unknown_key_preview = codes "unknown"

-- The map from the scopes of the listed keys to their previews. `hash` is the salted SHA-256 sum of
-- `CallerScope`.
module _ (hash : Text → Text) where
  unfoldable pub scope_of : Text → Text
  scope_of value = let v = trim_space value in if is_empty v then [] else hash v

  unfoldable pub listed_scopes : List Text → Table Text → Table Text
  listed_scopes [] scopes = scopes
  listed_scopes (key ∷ keys) scopes =
      let skip = listed_scopes keys scopes in
      let take = listed_scopes keys (insert (scope_of key) (preview_key key) scopes) in
      if is_empty (scope_of key) then skip else take

abbrev pub is_listed : Text → Table Text → Bool
is_listed scope scopes = elim (lookup scope scopes) [ none ↦ false | some preview ↦ true ]

module _ {F : Type 0} where
  -- `KeyState{Preview: preview}`
  abbrev pub new_key : Text → KeyState F
  new_key preview = record {
    preview = preview;
    label = [];
    in_config = false;
    deleted_at = 0;
    plan_id = [];
    concurrency_limit = pos 0;
    route_bindings = record { route_ids = []; rule = empty_rule };
    cycles = [];
  }

  -- `ensureKey`: the key that is stored under a scope that is not blank.
  unfoldable pub ensured : Text → Option (KeyState F) → KeyState F
  ensured preview old =
      let p = trim_space preview in
      let named = if is_empty p then unknown_key_preview else p in
      elim old [
        | none ↦ new_key named
        | some key ↦
            if is_empty key.preview || text_eq key.preview unknown_key_preview
            then record key { preview = named }
            else key
      ]

  -- What a listed key becomes, and whether that is another value.
  unfoldable pub listed : Text → Option (KeyState F) → KeyState F
  unfolding ensured
  listed preview old = record (ensured preview old) {
    preview = preview;
    deleted_at = 0;
    in_config = true;
  }

  unfoldable pub is_changed : Text → Option (KeyState F) → Bool
  unfolding ensured
  is_changed preview old =
      let renamed : Bool = elim old [
        | none ↦ true
        | some key ↦ not (text_eq key.preview preview)
      ] in
      let key = ensured preview old in
      renamed || (not (is_zero key.deleted_at) || not key.in_config)

  -- The loop over the listed scopes: the keys, how many were not in the configuration, and whether
  -- anything has changed.
  unfoldable pub list_keys : Table Text → Table (KeyState F) → Table (KeyState F) × ℕ × Bool
  unfolding ensured listed is_changed
  list_keys [] keys = (keys, 0, false)
  list_keys ((scope, preview) ∷ rest) keys =
      let old = lookup scope keys in
      let (keys', added, changed) = list_keys rest (insert scope (listed preview old) keys) in
      (
        keys',
        if (ensured preview old).in_config then added else added + 1,
        is_changed preview old || changed,
      )

  -- What a key that is not listed becomes.
  abbrev pub unlisted : Time → KeyState F → KeyState F
  unlisted now key =
      if key.in_config then record key { in_config = false; deleted_at = now } else key

  -- The loop over all keys: the keys, and how many of them are now deleted.
  unfoldable pub unlist_keys : Table Text → Time → Table (KeyState F) → Table (KeyState F) × ℕ
  unlist_keys scopes now [] = ([], 0)
  unlist_keys scopes now ((scope, key) ∷ keys) =
      let (rest, deleted) = unlist_keys scopes now keys in
      if is_listed scope scopes
      then ((scope, key) ∷ rest, deleted)
      else ((scope, unlisted now key) ∷ rest, if key.in_config then deleted + 1 else deleted)

  -- The function that `SyncKeys` hands to `editConfiguration`.
  unfoldable pub sync_edit : Table Text → Time → State F → Edit F SyncResult
  unfolding list_keys unlist_keys
  sync_edit scopes now s =
      let (keys, added, changed) = list_keys scopes s.keys in
      let (keys', deleted) = unlist_keys scopes now keys in
      let c : Changes F = no_changes in
      ok (
        record { added = added; deleted = deleted },
        record s { keys = keys' },
        if changed || ltb 0 deleted then record c { all_keys = true } else no_changes,
      )

module _ {F D : Type 0} ⦃repository : Repository F D⦄ (hash : Text → Text) where
  -- `SyncKeys`, at the time that it reads.
  unfoldable pub sync_keys : Store F D → List Text → Bool → Time → Result SyncResult × Store F D
  unfolding sync_edit
  sync_keys s keys allow_empty now =
      let scopes = listed_scopes hash keys [] in
      if is_empty scopes && not allow_empty
      then (err (invalidf "API Key 列表为空；如需清空，请传入 allow_empty"), s)
      else edit_configuration s (sync_edit scopes now)
