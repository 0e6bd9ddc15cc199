-- ===== src/Keys/Sync/Listing.antt =====
-- internal/billing/keys.go, SyncKeys: what a synchronisation makes of each key.
use cpa_plugin_group_billing.Prelude.{
  ◌≡◌, refl, true, false, ◌||◌, Option, none, some, List, [], ◌∷◌, arith, ap, ◌∙◌, ◌⊎◌, ltb, sym,
  Option-cases, Bool-cases, inl, inr, if◌then◌else◌,
}
use cpa_plugin_group_billing.Prelude.Table.{Table, lookup, insert, lookup-insert}
use cpa_plugin_group_billing.Prelude.Text.{Text, text_eq, text_eq_iff, is_empty}
use cpa_plugin_group_billing.Calendar.{Time}
use cpa_plugin_group_billing.Errors.{ok}
use cpa_plugin_group_billing.Identity.{preview_key}
use cpa_plugin_group_billing.Keys.Sync.{
  SyncResult, unknown_key_preview, new_key, is_changed, ensured, scope_of, listed_scopes, listed,
  list_keys, is_listed, unlist_keys, sync_edit,
}
use cpa_plugin_group_billing.State.{State, KeyState}
use cpa_plugin_group_billing.State.Changes.{Changes}

-- No two entries of a table have the same key.
abbrev pub AreApart : {V : Type 0} → Table V → Type 0
AreApart [] = Unit
AreApart ((k, v) ∷ m) = (lookup k m ≡ none) × AreApart m

insert-AreApart :
    {V : Type 0} (k : Text) (v : V) (m : Table V) → AreApart m → AreApart (insert k v m)
unfolding insert lookup
insert-AreApart k v [] h = (refl, tt)
insert-AreApart k v ((j, w) ∷ m) (h, hs) = elim (Bool-cases (text_eq j k)) [
  | inl same ↦ rw (same, insert) (ap (λ t. lookup t m) (sym ((text_eq_iff j k).0 same)) ∙ h, hs)
  | inr apart ↦
      rw (apart, insert)
        (
          ground (arith, text_eq_iff j k, text_eq_iff k j, lookup-insert k j v m),
          insert-AreApart k v m hs,
        )
]

pub listed_scopes-AreApart :
    (hash : Text → Text) (keys : List Text) (scopes : Table Text)
    → AreApart scopes
    → AreApart (listed_scopes hash keys scopes)
unfolding listed_scopes
listed_scopes-AreApart hash [] scopes h = h
listed_scopes-AreApart hash (key ∷ keys) scopes h =
    elim (Bool-cases (is_empty (scope_of hash key))) [
      | inl blank ↦ rw (blank, listed_scopes) (listed_scopes-AreApart hash keys scopes h)
      | inr named ↦
          rw (named, listed_scopes)
            (listed_scopes-AreApart hash keys (insert (scope_of hash key) (preview_key key) scopes)
              (insert-AreApart (scope_of hash key) (preview_key key) scopes h))
    ]

module _ {F : Type 0} where
  -- What the loop over the listed scopes makes of a key.
  abbrev after_listing : Option Text → Option (KeyState F) → Option (KeyState F)
  after_listing none old = old
  after_listing (some preview) old = some (listed preview old)

  lookup-list_keys :
      (scopes : Table Text) (keys : Table (KeyState F)) (scope : Text)
      → AreApart scopes
      → lookup scope (list_keys scopes keys).0
        ≡ after_listing (lookup scope scopes) (lookup scope keys)
  unfolding list_keys lookup
  lookup-list_keys [] keys scope h = refl
  lookup-list_keys ((k, preview) ∷ rest) keys scope (h, hs) =
      let new = listed preview (lookup k keys) in
      let later = lookup-list_keys rest (insert k new keys) scope hs in
      elim (Bool-cases (text_eq k scope)) [
        | inl same ↦
            let e = (text_eq_iff k scope).0 same in
            let gone : lookup scope rest ≡ none = ap (λ t. lookup t rest) (sym e) ∙ h in
            let value : after_listing (lookup scope rest) (lookup scope (insert k new keys))
                ≡ some new =
              rw (gone, lookup-insert k scope new keys, same) refl in
            let here : new ≡ listed preview (lookup scope keys) =
              ap (λ t. listed preview (lookup t keys)) e in
            rw (same, lookup) (later ∙ value ∙ ap some here)
        | inr apart ↦ rw (apart, lookup) (rw (lookup-insert k scope new keys, apart) at later)
      ]

  -- What a synchronisation makes of a key: a listed one is stored, live and in the configuration, with
  -- the preview of the list, and keeps its settings and its usage; one that has left the list is deleted
  -- now, if it was in the configuration, and any other key is as it was.
  abbrev pub synced : Time → Option Text → Option (KeyState F) → Option (KeyState F)
  synced now (some preview) none = some (record (new_key preview) { in_config = true })
  synced now (some preview) (some key) =
      some (record key { preview = preview; deleted_at = 0; in_config = true })
  synced now none none = none
  synced now none (some key) =
      some (if key.in_config then record key { in_config = false; deleted_at = now } else key)

  listed-synced :
      (now : Time) (preview : Text) (old : Option (KeyState F))
      → some (listed preview old) ≡ synced now (some preview) old
  unfolding listed ensured
  listed-synced now preview none = refl
  listed-synced now preview (some key) =
      elim (Bool-cases (is_empty key.preview || text_eq key.preview unknown_key_preview)) [
        | inl unknown ↦ rw (unknown, listed, ensured) refl
        | inr known ↦ rw (known, listed, ensured) refl
      ]

  lookup-unlist_keys :
      (scopes : Table Text) (now : Time) (keys : Table (KeyState F)) (scope : Text)
      → lookup scope (unlist_keys scopes now keys).0 ≡ (
          if is_listed scope scopes then lookup scope keys else synced now none (lookup scope keys))
  unfolding unlist_keys lookup
  lookup-unlist_keys scopes now [] scope = ground arith
  lookup-unlist_keys scopes now ((k, key) ∷ keys) scope =
      let listed_same : text_eq k scope ≡ true → is_listed k scopes ≡ is_listed scope scopes =
        λ same. ap (λ t. is_listed t scopes) ((text_eq_iff k scope).0 same) in
      ground (arith, listed_same, lookup-unlist_keys scopes now keys scope)

  lookup-sync_keys :
      (scopes : Table Text) (now : Time) (keys : Table (KeyState F)) (scope : Text)
      → AreApart scopes
      → lookup scope (unlist_keys scopes now (list_keys scopes keys).0).0
        ≡ synced now (lookup scope scopes) (lookup scope keys)
  lookup-sync_keys scopes now keys scope apart =
      let first = lookup-list_keys scopes keys scope apart in
      lookup-unlist_keys scopes now (list_keys scopes keys).0 scope
      ∙ elim (Option-cases (lookup scope scopes)) [
        | inl missing ↦
            let same = rw (missing) at first in
            let unseen : is_listed scope scopes ≡ false = ground arith in
            rw (missing, unseen, same) refl
        | inr (preview, there) ↦
            let new = rw (there) at first in
            let seen : is_listed scope scopes ≡ true = ground arith in
            rw (there, seen, new) (listed-synced now preview (lookup scope keys))
      ]

  listed-same :
      (preview : Text) (key : KeyState F)
      → is_changed preview (some key) ≡ false
      → listed preview (some key) ≡ key
  unfolding is_changed listed ensured
  listed-same preview key e =
      let (same, live, held) : (key.preview ≡ preview)
          × (key.deleted_at ≡ 0)
          × (key.in_config ≡ true) =
        ground (arith, text_eq_iff key.preview preview) in
      let base : record key { preview = preview; deleted_at = 0; in_config = true } ≡ key =
        ap (λ p. record key { preview = p; deleted_at = 0; in_config = true }) (sym same)
        ∙ ap (λ t. record key { deleted_at = t; in_config = true }) (sym live)
        ∙ ap (λ b. record key { in_config = b }) (sym held) in
      elim (Bool-cases (is_empty key.preview || text_eq key.preview unknown_key_preview)) [
        | inl unknown ↦ rw (unknown, listed, ensured) base
        | inr known ↦ rw (known, listed, ensured) base
      ]

  stored-same :
      (preview : Text) (old : Option (KeyState F))
      → is_changed preview old ≡ false
      → some (listed preview old) ≡ old
  unfolding is_changed ensured
  stored-same preview none e = absurd (ground arith)
  stored-same preview (some key) e = ap some (listed-same preview key e)

  lookup-list_keys_unchanged :
      (scopes : Table Text) (keys : Table (KeyState F)) (scope : Text)
      → (list_keys scopes keys).2 ≡ false
      → lookup scope (list_keys scopes keys).0 ≡ lookup scope keys
  unfolding list_keys
  lookup-list_keys_unchanged [] keys scope e = refl
  lookup-list_keys_unchanged ((k, preview) ∷ rest) keys scope e =
      let old = lookup k keys in
      let first : is_changed preview old ≡ false = ground arith in
      let keys' = insert k (listed preview old) keys in
      let later = lookup-list_keys_unchanged rest keys' scope (ground arith) in
      later
      ∙ lookup-insert k scope (listed preview old) keys
      ∙ elim (Bool-cases (text_eq k scope)) [
        | inl same ↦
            rw (same) (
              stored-same preview old first
              ∙ ap (λ t. lookup t keys) ((text_eq_iff k scope).0 same))
        | inr apart ↦ rw (apart) refl
      ]

  lookup-unlist_keys_unchanged :
      (scopes : Table Text) (now : Time) (keys : Table (KeyState F)) (scope : Text)
      → (unlist_keys scopes now keys).1 ≡ 0
      → lookup scope (unlist_keys scopes now keys).0 ≡ lookup scope keys
  unfolding unlist_keys lookup
  lookup-unlist_keys_unchanged scopes now [] scope e = refl
  lookup-unlist_keys_unchanged scopes now ((k, key) ∷ keys) scope e =
      ground (arith, lookup-unlist_keys_unchanged scopes now keys scope)

  synced_keys :
      (scopes : Table Text) (now : Time) (s next : State F) (out : SyncResult) (changes : Changes F)
      → sync_edit scopes now s ≡ ok (out, next, changes)
      → let listed_keys = list_keys scopes s.keys in
        let unlisted_keys = unlist_keys scopes now listed_keys.0 in
        (next.keys ≡ unlisted_keys.0)
        × ((changes.all_keys ≡ true) ⊎ ((listed_keys.2 ≡ false) × (unlisted_keys.1 ≡ 0)))
  unfolding sync_edit
  synced_keys scopes now s next out changes e =
      let keys = (list_keys scopes s.keys).0 in
      elim (Bool-cases ((list_keys scopes s.keys).2 || ltb 0 (unlist_keys scopes now keys).1)) [
        | inl changed ↦ (ground arith, inl (ground arith))
        | inr same ↦ (ground arith, inr (ground arith, ground arith))
      ]

  -- A synchronisation gives every key what the list makes of it, in whatever order the map of the
  -- listed scopes is gone through, and either names all keys to be saved or leaves every key as it was.
  pub sync_edit-keys :
      (hash : Text → Text) (list : List Text) (now : Time) (s next : State F) (out : SyncResult)
      (changes : Changes F) (scope : Text)
      → sync_edit (listed_scopes hash list []) now s ≡ ok (out, next, changes)
      → (lookup scope next.keys
          ≡ synced now (lookup scope (listed_scopes hash list [])) (lookup scope s.keys))
        × ((changes.all_keys ≡ true) ⊎ (lookup scope next.keys ≡ lookup scope s.keys))
  sync_edit-keys hash list now s next out changes scope e =
      let scopes = listed_scopes hash list [] in
      let keys = (list_keys scopes s.keys).0 in
      let (result, all) = synced_keys scopes now s next out changes e in
      (
        ap (lookup scope) result
            ∙ lookup-sync_keys scopes now s.keys scope (listed_scopes-AreApart hash list [] tt),
        elim all [
          | inl saved ↦ inl saved
          | inr (kept, none_left) ↦ inr (
              ap (lookup scope) result
              ∙ lookup-unlist_keys_unchanged scopes now keys scope none_left
              ∙ lookup-list_keys_unchanged scopes s.keys scope kept)
        ],
      )
