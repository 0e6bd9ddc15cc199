-- ===== src/GroupConfig/Lifecycle/Membership.antt =====
-- internal/billing/group_config.go, UpdateResourceGroup: what an update of a group cannot change.
use cpa_plugin_group_billing.Prelude.{
  ◌≡◌, refl, ◌⊎◌, inl, inr, true, not, ◌&&◌, some, arith, Bool-cases,
}
use cpa_plugin_group_billing.Prelude.Int64.{pos, add64}
use cpa_plugin_group_billing.Prelude.Table.{lookup}
use cpa_plugin_group_billing.Errors.{ok, bind-ok, refuse-ok, refuse, ◌>>◌, conflictf}
use cpa_plugin_group_billing.GroupConfig.{Clock, normalize_group, group_revision}
use cpa_plugin_group_billing.GroupConfig.Lifecycle.{
  GroupPatch, patched, update_edit, get_group, is_some, is_status,
}
use cpa_plugin_group_billing.GroupConfig.Lifecycle.Revision.{get_group_ok, group_revision_ok}
use cpa_plugin_group_billing.Groups.{ResourceGroup, Status, draft, published, archived}
use cpa_plugin_group_billing.Routing.{normalize_route_strings}
use cpa_plugin_group_billing.State.{State}
use cpa_plugin_group_billing.State.Changes.{Changes}

normalize_group_kept :
    (g g' : ResourceGroup)
    → normalize_group g ≡ ok g'
    → (g'.id ≡ g.id)
      × (g'.status ≡ g.status)
      × (g'.published_at ≡ g.published_at)
      × (g'.revision ≡ g.revision)
      × (normalize_route_strings g.models ≡ ok g'.models)
unfolding normalize_group
normalize_group_kept g g' e = ground arith

is_draft_only : (status : Status) → is_status status draft ≡ true → status ≡ draft
is_draft_only draft e = refl
is_draft_only published e = absurd cc
is_draft_only archived e = absurd cc

pub update_edit-membership :
    {F : Type 0} (clock : Clock) (patch : GroupPatch) (s next : State F) (old g' : ResourceGroup)
    (changes : Changes F)
    → lookup patch.group_id s.grouped.groups ≡ some old
    → update_edit clock patch s ≡ ok (g', next, changes)
    → (g'.id ≡ old.id)
      × (g'.status ≡ old.status)
      × (g'.published_at ≡ old.published_at)
      × (g'.revision ≡ add64 patch.expected_revision (pos 1))
      × ((old.status ≡ draft) ⊎ (normalize_route_strings old.models ≡ ok g'.models))
unfolding update_edit patched
update_edit-membership clock patch s next old g' changes found e =
    let (old', got, e1) = bind-ok (get_group s.grouped patch.group_id) _ (g', next, changes) e in
    let same = get_group_ok s.grouped patch.group_id old' got in
    let (g, e2, e3) =
      bind-ok
        (group_revision old'.revision patch.expected_revision
          >> refuse (is_some patch.models && not (is_status old'.status draft))
              (conflictf "published_model_membership_immutable: 发布后的模型成员需维护迁移")
          >> normalize_group (patched old' patch))
        _ (g', next, changes) e1 in
    let (u, e4, norm) =
      bind-ok
        (group_revision old'.revision patch.expected_revision
          >> refuse (is_some patch.models && not (is_status old'.status draft))
              (conflictf "published_model_membership_immutable: 发布后的模型成员需维护迁移"))
        (λ _. normalize_group (patched old' patch)) g e2 in
    let (v, rev, e5) =
      bind-ok (group_revision old'.revision patch.expected_revision)
        (λ _.
          refuse (is_some patch.models && not (is_status old'.status draft))
            (conflictf "published_model_membership_immutable: 发布后的模型成员需维护迁移"))
        u e4 in
    let draft_only = refuse-ok (is_some patch.models && not (is_status old'.status draft)) _ u e5 in
    let (i, st, pub_at, r, ms) = normalize_group_kept (patched old' patch) g norm in
    let expected = group_revision_ok old'.revision patch.expected_revision v rev in
    elim (Bool-cases (is_status old.status draft)) [
      | inl fresh ↦
          let it = is_draft_only old.status fresh in
          (ground arith, ground arith, ground arith, ground arith, inl it)
      | inr left ↦ (ground arith, ground arith, ground arith, ground arith, inr (ground arith))
    ]
