-- ===== src/GroupConfig/Lifecycle/Revision.antt =====
-- internal/billing/group_config.go: the revision of a resource group orders its edits.
use cpa_plugin_group_billing.Prelude.{
  ◌≡◌, ◌≢◌, sym, ap, ◌∙◌, inl, inr, Bool, true, false, not, some, arith, Bool-cases,
}
use cpa_plugin_group_billing.Prelude.Int64.{ℤ, pos, negsuc, add64, eqb_ℤ, eqb_ℤ_iff}
use cpa_plugin_group_billing.Prelude.Table.{lookup, lookup-insert_self}
use cpa_plugin_group_billing.Prelude.Text.{Text}
use cpa_plugin_group_billing.Errors.{ok, err, conflictf, bind-ok, refuse-ok, ◌>>◌}
use cpa_plugin_group_billing.GroupConfig.{Clock, group_revision}
use cpa_plugin_group_billing.GroupConfig.Lifecycle.{
  GroupPatch, change_status, publish_edit, update_edit, put_group, get_group,
}
use cpa_plugin_group_billing.Groups.{GroupState, ResourceGroup}
use cpa_plugin_group_billing.State.{State}
use cpa_plugin_group_billing.State.Changes.{Changes, Action}

-- A revision that is counted up is another one.
add64_other : (r : ℤ) → add64 r (pos 1) ≢ r
unfolding add64
add64_other (pos n) e = ground arith
add64_other (negsuc n) e = ground arith

pub get_group_ok :
    (g : GroupState) (id : Text) (group : ResourceGroup)
    → get_group g id ≡ ok group
    → lookup id g.groups ≡ some group
get_group_ok g id group h = ground arith

pub group_revision_ok :
    (actual expected : ℤ) (u : Unit {0}) → group_revision actual expected ≡ ok u → actual ≡ expected
group_revision_ok actual expected u h =
    (eqb_ℤ_iff actual expected).0 (ground (arith, refuse-ok (not (eqb_ℤ actual expected)) _ u h))

change_status-revision :
    (g : GroupState) (old new : ResourceGroup) (action : Action) (is_archive : Bool)
    (clock after : Clock)
    → change_status g old is_archive clock ≡ ok (new, action, after)
    → new.revision ≡ old.revision
unfolding change_status
change_status-revision g old new action true clock after e = ground arith
change_status-revision g old new action false clock after e = ground arith

stale_update :
    {F : Type 0} (clock : Clock) (patch : GroupPatch) (s : State F) (group : ResourceGroup)
    → lookup patch.group_id s.grouped.groups ≡ some group
    → group.revision ≢ patch.expected_revision
    → update_edit clock patch s ≡ err (conflictf "revision_conflict: 数据已修改，请刷新后重试")
unfolding update_edit
stale_update clock patch s group found stale =
    elim (Bool-cases (eqb_ℤ group.revision patch.expected_revision)) [
      | inl same ↦ absurd (stale ((eqb_ℤ_iff _ _).0 same))
      | inr other ↦ ground arith
    ]

stale_publish :
    {F : Type 0} (clock : Clock) (id : Text) (revision : ℤ) (reason : Text) (is_archive : Bool)
    (s : State F) (group : ResourceGroup)
    → lookup id s.grouped.groups ≡ some group
    → group.revision ≢ revision
    → publish_edit clock id revision reason is_archive s
      ≡ err (conflictf "revision_conflict: 数据已修改，请刷新后重试")
unfolding publish_edit
stale_publish clock id revision reason is_archive s group found stale =
    elim (Bool-cases (eqb_ℤ group.revision revision)) [
      | inl same ↦ absurd (stale ((eqb_ℤ_iff _ _).0 same))
      | inr other ↦ ground arith
    ]

module _ {F : Type 0} where
  -- What a publication or an archiving that succeeds found, and what it leaves.
  abbrev pub PublishedFrom : Clock → Text → ℤ → Bool → State F → ResourceGroup → State F → Type 0
  PublishedFrom clock id revision is_archive s g' next =
      (old g : ResourceGroup) × (action : Action) × (after : Clock) × (lookup id s.grouped.groups
        ≡ some old)
      × (old.revision ≡ revision)
      × (change_status s.grouped old is_archive clock ≡ ok (g, action, after))
      × (g' ≡ record g { revision = add64 g.revision (pos 1); updated_at = after 0 })
      × (next ≡ put_group s id g')

  pub publish_edit_ok :
      (clock : Clock) (id : Text) (revision : ℤ) (reason : Text) (is_archive : Bool) (s : State F)
      (g' : ResourceGroup) (next : State F) (changes : Changes F)
      → publish_edit clock id revision reason is_archive s ≡ ok (g', next, changes)
      → PublishedFrom clock id revision is_archive s g' next
  unfolding publish_edit
  publish_edit_ok clock id revision reason is_archive s g' next changes e =
      let (old, found, e1) = bind-ok (get_group s.grouped id) _ (g', next, changes) e in
      let ((g, action, after), e2, e3) =
        bind-ok
          (group_revision old.revision revision >> change_status s.grouped old is_archive clock) _
          (g', next, changes) e1 in
      let (u, rev, st) =
        bind-ok (group_revision old.revision revision)
          (λ _. change_status s.grouped old is_archive clock) (g, action, after) e2 in
      (
        old,
        g,
        action,
        after,
        get_group_ok s.grouped id old found,
        group_revision_ok old.revision revision u rev,
        st,
        cc,
        cc,
      )

  -- A successful publication or archiving counts the revision up and stores the group, and in the state
  -- that it leaves an update of the group, a publication and an archiving that expect the old revision
  -- are refused as conflicts.
  pub publish_edit_supersedes :
      (clock later : Clock) (id : Text) (revision : ℤ) (reason : Text) (is_archive : Bool)
      (s : State F) (g' : ResourceGroup) (next : State F) (changes : Changes F) (patch : GroupPatch)
      (reason' : Text) (is_archive' : Bool)
      → publish_edit clock id revision reason is_archive s ≡ ok (g', next, changes)
      → patch.group_id ≡ id
      → patch.expected_revision ≡ revision
      → (g'.revision ≡ add64 revision (pos 1))
        × (lookup id next.grouped.groups ≡ some g')
        × (update_edit later patch next ≡ err (conflictf "revision_conflict: 数据已修改，请刷新后重试"))
        × (publish_edit later id revision reason' is_archive' next
            ≡ err (conflictf "revision_conflict: 数据已修改，请刷新后重试"))
  publish_edit_supersedes clock later id revision reason is_archive s g' next changes patch reason'
        is_archive' e i r =
      let (old, g, action, after, found, rev, st, eg, en) =
        publish_edit_ok clock id revision reason is_archive s g' next changes e in
      let kept : g.revision ≡ old.revision =
        change_status-revision s.grouped old g action is_archive clock after st in
      let counted : g'.revision ≡ add64 revision (pos 1) =
        ap (λ h. h.revision) eg ∙ ap (λ r'. add64 r' (pos 1)) (kept ∙ rev) in
      let stored : lookup id next.grouped.groups ≡ some g' =
        ap (λ t. lookup id t.grouped.groups) en ∙ lookup-insert_self id g' s.grouped.groups in
      (
        counted,
        stored,
        stale_update later patch next g' (ap (λ k. lookup k next.grouped.groups) i ∙ stored)
            (λ same. add64_other revision (sym counted ∙ same ∙ r)),
        stale_publish later id revision reason' is_archive' next g' stored
            (λ same. add64_other revision (sym counted ∙ same)),
      )
