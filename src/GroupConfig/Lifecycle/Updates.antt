-- ===== src/GroupConfig/Lifecycle/Updates.antt =====
-- internal/billing/group_config.go, UpdateResourceGroup: updates and the owners of models.
use cpa_plugin_group_billing.Prelude.{
  ◌≡◌, ◌≢◌, sym, ap, subst, ◌∙◌, inl, inr, true, not, ◌&&◌, some, arith,
}
use cpa_plugin_group_billing.Prelude.Table.{lookup, insert}
use cpa_plugin_group_billing.Prelude.Text.{Text}
use cpa_plugin_group_billing.Calendar.{Time}
use cpa_plugin_group_billing.Errors.{ok, bind-ok, ok-injective, refuse, ◌>>◌, conflictf}
use cpa_plugin_group_billing.GroupConfig.{Clock, normalize_group, group_revision}
use cpa_plugin_group_billing.GroupConfig.Lifecycle.{
  GroupPatch, patched, update_edit, get_group, is_some, is_status,
}
use cpa_plugin_group_billing.GroupConfig.Lifecycle.Membership.{update_edit-membership}
use cpa_plugin_group_billing.GroupConfig.Lifecycle.Ownership.{IsExclusive, insert-IsExclusive}
use cpa_plugin_group_billing.GroupConfig.Lifecycle.Revision.{get_group_ok}
use cpa_plugin_group_billing.Groups.{GroupState, ResourceGroup, draft, empty_groups, owns}
use cpa_plugin_group_billing.Routing.{normalize_route_strings}
use cpa_plugin_group_billing.State.{State}
use cpa_plugin_group_billing.State.Changes.{Changes}

-- Every group stands under its own identifier, and its models are in their normal form, as groups are
-- stored.
abbrev pub IsNormal : GroupState → Type 0
IsNormal g =
    (i : Text) (a : ResourceGroup)
    → lookup i g.groups ≡ some a
    → (a.id ≡ i) × (normalize_route_strings a.models ≡ ok a.models)

not_draft : (a : ResourceGroup) (key : Text) (at : Time) → owns a key at ≡ true → a.status ≢ draft
unfolding owns
not_draft a key at o d = ground arith

-- A group that owns models after an update owned them before it.
owns-updated :
    (old new : ResourceGroup) (key : Text) (at : Time)
    → new.status ≡ old.status
    → new.published_at ≡ old.published_at
    → (old.status ≢ draft → new.models ≡ old.models)
    → owns new key at ≡ true
    → owns old key at ≡ true
unfolding owns
owns-updated old new key at s p m o =
    let same = m (λ d. not_draft new key at o (s ∙ d)) in rw (s, p, same) at o

module _ {F : Type 0} where
  update_edit-stored :
      (clock : Clock) (patch : GroupPatch) (s next : State F) (g' : ResourceGroup)
      (changes : Changes F)
      → update_edit clock patch s ≡ ok (g', next, changes)
      → (old : ResourceGroup) × (lookup patch.group_id s.grouped.groups ≡ some old)
        × (next.grouped.groups ≡ insert g'.id g' s.grouped.groups)
  unfolding update_edit
  update_edit-stored clock patch s next g' changes e =
      let (old, got, e1) = bind-ok (get_group s.grouped patch.group_id) _ (g', next, changes) e in
      let (g, e2, e3) =
        bind-ok
          (group_revision old.revision patch.expected_revision
            >> refuse (is_some patch.models && not (is_status old.status draft))
                (conflictf "published_model_membership_immutable: 发布后的模型成员需维护迁移")
            >> normalize_group (patched old patch))
          _ (g', next, changes) e1 in
      let pair = ok-injective _ (g', next, changes) e3 in
      let made = ap (λ x. x.0) pair in
      (
        old,
        get_group_ok s.grouped patch.group_id old got,
        sym (ap (λ x. x.1.grouped.groups) pair) ∙ ap (λ h. insert h.id h s.grouped.groups) made,
      )

  -- Updating a group keeps the models exclusive, where the groups are stored in their normal form under
  -- their own identifiers.
  pub update_edit-IsExclusive :
      (clock : Clock) (patch : GroupPatch) (s next : State F) (g' : ResourceGroup)
      (changes : Changes F)
      → IsExclusive s.grouped
      → IsNormal s.grouped
      → update_edit clock patch s ≡ ok (g', next, changes)
      → IsExclusive next.grouped
  update_edit-IsExclusive clock patch s next g' changes x normal e =
      let (old, found, stored) = update_edit-stored clock patch s next g' changes e in
      let (i, st, pub_at, _, models) =
        update_edit-membership clock patch s next old g' changes found e in
      let (own, ms) = normal patch.group_id old found in
      let keeps : old.status ≢ draft → g'.models ≡ old.models = λ left. elim models [
        | inl fresh ↦ absurd (left fresh)
        | inr kept ↦ ok-injective g'.models old.models (sym kept ∙ ms)
      ] in
      subst (λ m. IsExclusive (record empty_groups { groups = m })) (sym stored)
        (insert-IsExclusive s.grouped g'.id g' x (λ j b key at lb k on ob.
          sym (
            x patch.group_id j old b key at found lb k
              (owns-updated old g' key at st pub_at keeps on) ob)
          ∙ sym (i ∙ own)))
