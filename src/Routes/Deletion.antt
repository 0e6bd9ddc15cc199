-- ===== src/Routes/Deletion.antt =====
-- internal/billing/routing.go, DeleteRoute: what a deletion takes from the keys, and what it reports.
use cpa_plugin_group_billing.Prelude.{
  ℕ, ◌+◌, ◌≡◌, refl, Bool, false, not, ◌&&◌, Option, none, some, List, [], ◌∷◌, arith, ap, ◌∙◌,
  Bool-cases, inl, inr, if◌then◌else◌,
}
use cpa_plugin_group_billing.Prelude.Table.{Table, lookup}
use cpa_plugin_group_billing.Prelude.Text.{Text, contains}
use cpa_plugin_group_billing.Calendar.{is_zero}
use cpa_plugin_group_billing.Errors.{ok}
use cpa_plugin_group_billing.Routes.{RouteDeleteResult, drop_id, with_ids, unbind, delete_edit}
use cpa_plugin_group_billing.Routes.Edits.{removed}
use cpa_plugin_group_billing.Routes.Links.{drop_id_absent}
use cpa_plugin_group_billing.RoutePolicy.{routing_restricted}
use cpa_plugin_group_billing.State.{State, KeyState}
use cpa_plugin_group_billing.State.Changes.{Changes}

module _ {F : Type 0} where
  abbrev pub lists_route : Text → KeyState F → Bool
  lists_route id key = contains id key.route_bindings.route_ids

  -- A key without one of its routes.
  abbrev pub without : Text → KeyState F → KeyState F
  without id key = with_ids (drop_id id key.route_bindings.route_ids) key

  abbrev pub map_key : Text → Option (KeyState F) → Option (KeyState F)
  map_key id none = none
  map_key id (some key) = some (without id key)

  -- How many keys pass a test.
  abbrev pub count_keys : (KeyState F → Bool) → Table (KeyState F) → ℕ
  count_keys p [] = 0
  count_keys p ((scope, key) ∷ keys) = (if p key then 1 else 0) + count_keys p keys

  abbrev pub is_deleted : KeyState F → Bool
  is_deleted key = not (is_zero key.deleted_at)

  -- A live key that listed the route and that nothing restricts without it.
  abbrev pub is_set_free : State F → Text → KeyState F → Bool
  is_set_free s id key =
      lists_route id key && not (is_deleted key) && not (routing_restricted s (without id key))

  without_absent :
      (id : Text) (key : KeyState F) → lists_route id key ≡ false → without id key ≡ key
  without_absent id key e =
      ap (λ ids. with_ids ids key) (drop_id_absent id key.route_bindings.route_ids e)

  lookup-unbind :
      (s : State F) (id scope : Text) (keys : Table (KeyState F))
      → lookup scope (unbind s id keys).0 ≡ map_key id (lookup scope keys)
  unfolding unbind lookup
  lookup-unbind s id scope [] = refl
  lookup-unbind s id scope ((j, key) ∷ keys) =
      let rest = lookup-unbind s id scope keys in
      elim (Bool-cases (lists_route id key)) [
        | inl has ↦ rw (has, unbind) (ground arith)
        | inr hasnt ↦ let same = without_absent id key hasnt in rw (hasnt, unbind) (ground arith)
      ]

  counts-unbind :
      (s : State F) (id : Text) (keys : Table (KeyState F))
      → let out = (unbind s id keys).2 in
        (out.affected_keys ≡ count_keys (lists_route id) keys)
        × (out.deleted_keys ≡ count_keys (λ key. lists_route id key && is_deleted key) keys)
        × (out.fully_unrestricted_keys ≡ count_keys (is_set_free s id) keys)
  unfolding unbind
  counts-unbind s id [] = (refl, refl, refl)
  counts-unbind s id ((j, key) ∷ keys) = ground (arith, counts-unbind s id keys)

  contains-unbind :
      (s : State F) (id scope : Text) (keys : Table (KeyState F))
      → contains scope (unbind s id keys).1 ≡ false
      → map_key id (lookup scope keys) ≡ lookup scope keys
  unfolding unbind lookup contains
  contains-unbind s id scope [] e = refl
  contains-unbind s id scope ((j, key) ∷ keys) e =
      ground (arith, contains-unbind s id scope keys, without_absent id key)

contains-drop_id : (id : Text) (ids : List Text) → contains id (drop_id id ids) ≡ false
unfolding contains drop_id
contains-drop_id id [] = refl
contains-drop_id id (j ∷ js) = ground (arith, contains-drop_id id js)

count_keys-unbind :
    {F : Type 0} (s : State F) (id : Text) (keys : Table (KeyState F))
    → count_keys (lists_route id) (unbind s id keys).0 ≡ 0
unfolding unbind
count_keys-unbind s id [] = refl
count_keys-unbind s id ((scope, key) ∷ keys) =
    ground (arith, count_keys-unbind s id keys, contains-drop_id id key.route_bindings.route_ids)

deleted_changes :
    {F : Type 0} (s next : State F) (id : Text) (out : RouteDeleteResult) (changes : Changes F)
    → delete_edit id s ≡ ok (out, next, changes)
    → changes.keys ≡ (unbind s id s.keys).1
unfolding delete_edit
deleted_changes s next id out changes e = ground arith

-- A deletion that is accepted takes the route from every key that lists it, wherever it stands in the
-- list, and changes no key besides: a key outside the reported changes is as it was, and no key lists
-- the route any more. It counts the keys that listed the route, those of them that are deleted, and
-- the live ones of them that nothing restricts any more.
pub delete_edit-keys :
    {F : Type 0} (s next : State F) (id scope : Text) (out : RouteDeleteResult)
    (changes : Changes F)
    → delete_edit id s ≡ ok (out, next, changes)
    → (lookup scope next.keys ≡ map_key id (lookup scope s.keys))
      × (lookup scope next.keys ≡ (
          if contains scope changes.keys
          then map_key id (lookup scope s.keys)
          else lookup scope s.keys))
      × (count_keys (lists_route id) next.keys ≡ 0)
      × (out.affected_keys ≡ count_keys (lists_route id) s.keys)
      × (out.deleted_keys ≡ count_keys (λ key. lists_route id key && is_deleted key) s.keys)
      × (out.fully_unrestricted_keys ≡ count_keys (is_set_free s id) s.keys)
delete_edit-keys s next id scope out changes e =
    let (there, routes, keys, counts) = removed s next changes id out e in
    let mapped = ap (lookup scope) keys ∙ lookup-unbind s id scope s.keys in
    let (affected, deleted, free) = counts-unbind s id s.keys in
    let named = deleted_changes s next id out changes e in
    (
      mapped,
      ground (arith, contains-unbind s id scope s.keys),
      ap (count_keys (lists_route id)) keys ∙ count_keys-unbind s id s.keys,
      ap (λ (o : RouteDeleteResult). o.affected_keys) counts ∙ affected,
      ap (λ (o : RouteDeleteResult). o.deleted_keys) counts ∙ deleted,
      ap (λ (o : RouteDeleteResult). o.fully_unrestricted_keys) counts ∙ free,
    )
