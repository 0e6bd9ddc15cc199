-- ===== src/GroupConfig/Lifecycle.antt =====
-- internal/billing/group_config.go: resource groups are created as drafts, edited, published and
-- archived.
pub mod Membership
pub mod Ownership
pub mod Updates
pub mod Revision
use cpa_plugin_group_billing.Prelude.{
  ℕ, zero, suc, ◌+◌, ◌≡◌, refl, Bool, true, false, not, ◌&&◌, ◌||◌, Option, none, some, List, [],
  ◌∷◌, if◌then◌else◌,
}
use cpa_plugin_group_billing.Prelude.Int64.{ℤ, pos, add64}
use cpa_plugin_group_billing.Prelude.Table.{lookup, insert}
use cpa_plugin_group_billing.Prelude.Text.{Text, codes}
use cpa_plugin_group_billing.Calendar.{Time}
use cpa_plugin_group_billing.Errors.{
  Error, Result, ok, err, not_foundf, conflictf, refuse, ◌>>=◌, ◌>>◌,
}
use cpa_plugin_group_billing.GroupConfig.{
  Clock, Edit, normalize_group, group_audit, grouped_changes, group_revision, group_reason,
}
use cpa_plugin_group_billing.Groups.{
  GroupPool, ResourceGroup, Status, draft, published, archived, GroupState, model_owner,
}
use cpa_plugin_group_billing.Identity.{new_id}
use cpa_plugin_group_billing.State.{State}
use cpa_plugin_group_billing.State.Changes.{
  Changes, GroupAudit, nothing, a_group, Action, create, update, publish, archive,
}
use cpa_plugin_group_billing.Store.{Repository, Store, edit_configuration}

pub record GroupPatch : Type 0 where
  pub group_id : Text
  pub expected_revision : ℤ
  pub name : Option Text
  pub description : Option Text
  pub enabled : Option Bool
  pub models : Option (List Text)
  pub pool : Option GroupPool
  pub reason : Text

abbrev or_else {ℓ} : {A : Type ℓ} → Option A → A → A
or_else none a = a
or_else (some b) a = b

abbrev pub is_some {ℓ} : {A : Type ℓ} → Option A → Bool
is_some none = false
is_some (some a) = true

abbrev pub is_status : Status → Status → Bool
is_status draft draft = true
is_status published published = true
is_status archived archived = true
is_status _ _ = false

-- The group with the fields of a patch.
unfoldable pub patched : ResourceGroup → GroupPatch → ResourceGroup
patched g p = record g {
  name = or_else p.name g.name;
  description = or_else p.description g.description;
  enabled = or_else p.enabled g.enabled;
  models = or_else p.models g.models;
  pool = or_else p.pool g.pool;
}

abbrev pub get_group : GroupState → Text → Result ResourceGroup
get_group g id = elim (lookup id g.groups) [
  | none ↦ err (not_foundf "资源组不存在")
  | some group ↦ ok group
]

-- No model of the list has an owner, each at its own reading of the clock.
unfoldable pub check_owners : GroupState → List Text → Clock → Result (Unit {0})
check_owners g [] clock = ok tt
check_owners g (m ∷ ms) clock =
    let rest = check_owners g ms (λ n. clock (n + 1)) in
    elim (model_owner g m (clock 0)) [
      | some owner ↦ err (conflictf "model_group_conflict: 模型 %q 已属于 %q")
      | none ↦ rest
    ]

abbrev pub skip : {A : Type 0} → List A → Clock → Clock
skip [] clock = clock
skip (x ∷ xs) clock = skip xs (λ n. clock (n + 1))

-- The group with its new status, the action, and the clock after the readings made.
unfoldable pub change_status :
    GroupState → ResourceGroup → Bool → Clock → Result (ResourceGroup × Action × Clock)
change_status g group true clock =
    refuse (not (is_status group.status published)) (conflictf "只能归档已发布的组")
    >> ok (record group { status = archived; enabled = false }, archive, clock)
change_status g group false clock =
    refuse (not (is_status group.status draft)) (conflictf "只能发布草稿")
    >> check_owners g group.models clock
    >> let after = skip group.models clock in
      ok (
        record group { status = published; published_at = some (after 0) },
        publish,
        (λ n. after (n + 1)),
      )

module _ {F : Type 0} where
  abbrev pub put_group : State F → Text → ResourceGroup → State F
  put_group s id group =
      let g = s.grouped in record s { grouped = record g { groups = insert id group g.groups } }

  unfoldable pub create_edit : Clock → ResourceGroup → State F → Edit F ResourceGroup
  create_edit clock group s =
      let id = new_id s.grouped.groups group.name (codes "group") in
      let group' = record group {
        id = id;
        status = draft;
        enabled = true;
        revision = pos 1;
        published_at = none;
        created_at = clock 0;
        updated_at = clock 0;
      } in
      ok (
        group',
        put_group s id group',
        grouped_changes (group_audit (clock 1) create id [] nothing (a_group group')),
      )

  unfoldable pub update_edit : Clock → GroupPatch → State F → Edit F ResourceGroup
  update_edit clock patch s = get_group s.grouped patch.group_id >>= λ old.
      group_revision old.revision patch.expected_revision
      >> refuse (is_some patch.models && not (is_status old.status draft))
          (conflictf "published_model_membership_immutable: 发布后的模型成员需维护迁移")
      >> normalize_group (patched old patch)
      >>= λ g.
          let g' = record g { revision = add64 g.revision (pos 1); updated_at = clock 0 } in
          ok (
            g',
            put_group s g'.id g',
            grouped_changes
                (group_audit (clock 1) update g'.id patch.reason (a_group old) (a_group g')),
          )

  unfoldable pub publish_edit : Clock → Text → ℤ → Text → Bool → State F → Edit F ResourceGroup
  publish_edit clock id revision reason is_archive s = get_group s.grouped id >>= λ old.
      group_revision old.revision revision
      >> change_status s.grouped old is_archive clock
      >>= λ (g, action, after).
          let g' = record g { revision = add64 g.revision (pos 1); updated_at = after 0 } in
          ok (
            g',
            put_group s id g',
            grouped_changes (group_audit (after 1) action id reason (a_group old) (a_group g')),
          )

module _ {F D : Type 0} ⦃repository : Repository F D⦄ where
  -- `CreateResourceGroup`
  unfoldable pub create_resource_group :
      Clock → Store F D → ResourceGroup → Result ResourceGroup × Store F D
  create_resource_group clock s input = elim (normalize_group input) [
    | err e ↦ (err e, s)
    | ok group ↦ edit_configuration s (create_edit clock group)
  ]

  -- `UpdateResourceGroup`
  unfoldable pub update_resource_group :
      Clock → Store F D → GroupPatch → Result ResourceGroup × Store F D
  update_resource_group clock s patch = elim (group_reason patch.reason) [
    | err e ↦ (err e, s)
    | ok _ ↦ edit_configuration s (update_edit clock patch)
  ]

  -- `PublishResourceGroup`
  unfoldable pub publish_resource_group :
      Clock → Store F D → Text → ℤ → Text → Bool → Result ResourceGroup × Store F D
  publish_resource_group clock s id revision reason is_archive = elim (group_reason reason) [
    | err e ↦ (err e, s)
    | ok _ ↦ edit_configuration s (publish_edit clock id revision reason is_archive)
  ]
