-- ===== src/Plans/Subscriptions/Keys.antt =====
-- internal/billing/keys.go, ResetQuota and SyncKeys: both leave every key with a plan that is there and
-- with cycles of that plan's windows.
use cpa_plugin_group_billing.Prelude.{
  refl, ◌||◌, some, List, [], ◌∷◌, Option-cases, Bool-cases, inl, inr,
}
use cpa_plugin_group_billing.Prelude.Table.{Table, lookup, insert, insert-Every}
use cpa_plugin_group_billing.Prelude.Text.{Text, text_eq, is_empty}
use cpa_plugin_group_billing.Calendar.{Time}
use cpa_plugin_group_billing.Keys.Reset.{drop_cycles}
use cpa_plugin_group_billing.Keys.Sync.{
  unknown_key_preview, ensured, listed, list_keys, is_listed, unlisted, unlist_keys,
}
use cpa_plugin_group_billing.Plans.Subscriptions.{IsSubscribed, AllSubscribed, lookup-IsSubscribed}
use cpa_plugin_group_billing.State.{Plan, KeyState}

module _ {F : Type 0} (ps : List (Plan F)) where
  dropped-IsSubscribed :
      (key : KeyState F) → IsSubscribed ps key → IsSubscribed ps (record key { cycles = [] })
  dropped-IsSubscribed key (inl (free, none_left)) = inl (free, refl)
  dropped-IsSubscribed key (inr (p, found, fits)) = inr (p, found, tt)

  pub drop_cycles-AllSubscribed :
      (scopes : List Text) (keys : Table (KeyState F))
      → AllSubscribed ps keys
      → AllSubscribed ps (drop_cycles scopes keys).0
  unfolding drop_cycles
  drop_cycles-AllSubscribed [] keys h = h
  drop_cycles-AllSubscribed (scope ∷ rest) keys h = elim (Option-cases (lookup scope keys)) [
    | inl missing ↦ rw (missing, drop_cycles) (drop_cycles-AllSubscribed rest keys h)
    | inr (key, there) ↦
        let new : KeyState F = record key { cycles = [] } in
        let later = drop_cycles-AllSubscribed rest (insert scope new keys) (
          insert-Every (λ scope key. IsSubscribed ps key) scope new keys
            (dropped-IsSubscribed key (lookup-IsSubscribed ps scope key keys h there)) h) in
        elim (Bool-cases (is_empty key.cycles)) [
          | inl unused ↦ rw (there, unused, drop_cycles) later
          | inr used ↦ rw (there, used, drop_cycles) later
        ]
  ]

  listed-IsSubscribed :
      (preview : Text) (key : KeyState F)
      → IsSubscribed ps key
      → IsSubscribed ps (listed preview (some key))
  unfolding listed ensured
  listed-IsSubscribed preview key h =
      elim (Bool-cases (is_empty key.preview || text_eq key.preview unknown_key_preview)) [
        | inl unknown ↦ rw (unknown, listed, ensured) h
        | inr known ↦ rw (known, listed, ensured) h
      ]

  stored-IsSubscribed :
      (scope preview : Text) (keys : Table (KeyState F))
      → AllSubscribed ps keys
      → IsSubscribed ps (listed preview (lookup scope keys))
  unfolding listed ensured
  stored-IsSubscribed scope preview keys h = elim (Option-cases (lookup scope keys)) [
    | inl missing ↦ rw (missing) (inl (refl, refl))
    | inr (key, there) ↦
        rw (there) (listed-IsSubscribed preview key (lookup-IsSubscribed ps scope key keys h there))
  ]

  pub list_keys-AllSubscribed :
      (scopes : Table Text) (keys : Table (KeyState F))
      → AllSubscribed ps keys
      → AllSubscribed ps (list_keys scopes keys).0
  unfolding list_keys
  list_keys-AllSubscribed [] keys h = h
  list_keys-AllSubscribed ((scope, preview) ∷ rest) keys h =
      let new = listed preview (lookup scope keys) in
      list_keys-AllSubscribed rest (insert scope new keys) (
        insert-Every (λ scope key. IsSubscribed ps key) scope new keys
          (stored-IsSubscribed scope preview keys h) h)

  unlisted-IsSubscribed :
      (now : Time) (key : KeyState F) → IsSubscribed ps key → IsSubscribed ps (unlisted now key)
  unlisted-IsSubscribed now key h = elim (Bool-cases key.in_config) [
    | inl held ↦ rw (held) h
    | inr free ↦ rw (free) h
  ]

  pub unlist_keys-AllSubscribed :
      (scopes : Table Text) (now : Time) (keys : Table (KeyState F))
      → AllSubscribed ps keys
      → AllSubscribed ps (unlist_keys scopes now keys).0
  unfolding unlist_keys
  unlist_keys-AllSubscribed scopes now [] h = tt
  unlist_keys-AllSubscribed scopes now ((scope, key) ∷ keys) (h, hs) =
      let rest = unlist_keys-AllSubscribed scopes now keys hs in
      elim (Bool-cases (is_listed scope scopes)) [
        | inl there ↦ rw (there, unlist_keys) (h, rest)
        | inr gone ↦ rw (gone, unlist_keys) (unlisted-IsSubscribed now key h, rest)
      ]
