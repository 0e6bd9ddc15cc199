-- ===== src/GroupConfig/Lifecycle/Ownership.antt =====
-- internal/billing/group_config.go, PublishResourceGroup, and modelOwner of group_types.go: a model
-- belongs to one group at most.
use cpa_plugin_group_billing.Prelude.{
  ℕ, ◌+◌, ◌≤◌, ◌≡◌, sym, ap, subst, ◌∙◌, inl, inr, Bool, true, false, none, some, List, length, ◌^◌,
  [], ◌∷◌, any, arith, Bool-cases, Option-cases,
}
use cpa_plugin_group_billing.Prelude.Table.{
  Table, lookup, insert, lookup-insert, lookup-insert_self,
}
use cpa_plugin_group_billing.Prelude.Text.{Text, text_eq, text_eq_iff, is_empty, codes}
use cpa_plugin_group_billing.Calendar.{Time}
use cpa_plugin_group_billing.Errors.{ok, ok-injective}
use cpa_plugin_group_billing.GroupConfig.{Clock}
use cpa_plugin_group_billing.GroupConfig.Lifecycle.Revision.{publish_edit_ok}
use cpa_plugin_group_billing.Prelude.Int64.{ℤ}
use cpa_plugin_group_billing.Identity.{new_id}
use cpa_plugin_group_billing.Identity.FreeId.{new_id_free}
use cpa_plugin_group_billing.State.{State}
use cpa_plugin_group_billing.GroupConfig.Lifecycle.{
  create_edit, check_owners, change_status, publish_edit,
}
use cpa_plugin_group_billing.State.Changes.{Action, Changes}
use cpa_plugin_group_billing.Groups.{
  GroupState, ResourceGroup, owns, find_owner, model_owner, group_model, empty_groups,
}

-- A lookup that finds no owner rules out every group of the table.
pub find_owner-none :
    (m : Table ResourceGroup) (key : Text) (at : Time) (i : Text) (a : ResourceGroup)
    → find_owner m key at ≡ none
    → lookup i m ≡ some a
    → owns a key at ≡ false
unfolding find_owner lookup
find_owner-none [] key at i a n l = cc
find_owner-none ((j, b) ∷ m) key at i a n l = ground (arith, find_owner-none m key at i a)

-- Once a group owns a model it owns it from its publication on.
owns_from :
    (a : ResourceGroup) (key : Text) (at now : Time)
    → owns a key at ≡ true
    → ((t : Time) → a.published_at ≡ some t → t ≤ now)
    → owns a key now ≡ true
unfolding owns
owns_from a key at now o p = elim (Option-cases a.published_at) [
  | inl e ↦ absurd (ground arith)
  | inr (t, e) ↦ let le = p t e in ground arith
]

owned_none :
    (g : GroupState) (m key : Text) (at : Time)
    → model_owner g m at ≡ none
    → group_model m ≡ key
    → is_empty key ≡ false
    → find_owner g.groups key at ≡ none
unfolding model_owner
owned_none g m key at n e k = ground (arith, ap is_empty e, ap (λ x. find_owner g.groups x at) e)

-- Models that pass the check have no owner, each at one of the instants read.
check_owners-free :
    (g : GroupState) (ms : List Text) (clock : Clock) (key : Text)
    → check_owners g ms clock ≡ ok tt
    → any (λ m. text_eq (group_model m) key) ms ≡ true
    → is_empty key ≡ false
    → (n : ℕ) × (find_owner g.groups key (clock n) ≡ none)
unfolding check_owners any model_owner
check_owners-free g [] clock key e h k = absurd cc
check_owners-free g (m ∷ ms) clock key e h k =
    let rest = check_owners-free g ms (λ n. clock (n + 1)) key in
    let same = (text_eq_iff (group_model m) key).0 in
    elim (Option-cases (model_owner g m (clock 0))) [
      | inr (owner, q) ↦ absurd (ground arith)
      | inl free ↦ elim (Bool-cases (text_eq (group_model m) key)) [
        | inl hit ↦ (0, owned_none g m key (clock 0) free (same hit) k)
        | inr miss ↦ let (n, f) = rest (ground arith) (ground arith) k in (n + 1, f)
      ]
    ]

-- No two groups own a model at the same instant.
abbrev pub IsExclusive : GroupState → Type 0
IsExclusive g =
    (i j : Text) (a b : ResourceGroup) (key : Text) (at : Time)
    → lookup i g.groups ≡ some a
    → lookup j g.groups ≡ some b
    → is_empty key ≡ false
    → owns a key at ≡ true
    → owns b key at ≡ true
    → i ≡ j

-- No group was published after an instant that the clock reads.
abbrev pub IsPast : GroupState → Clock → Type 0
IsPast g clock =
    (n : ℕ) (i : Text) (a : ResourceGroup) (t : Time)
    → lookup i g.groups ≡ some a
    → a.published_at ≡ some t
    → t ≤ clock n

-- A group may be stored if no other group owns what it owns.
pub insert-IsExclusive :
    (g : GroupState) (id : Text) (new : ResourceGroup)
    → IsExclusive g
    → ((j : Text) (b : ResourceGroup) (key : Text) (at : Time)
        → lookup j g.groups ≡ some b
        → is_empty key ≡ false
        → owns new key at ≡ true
        → owns b key at ≡ true
        → j ≡ id)
    → IsExclusive (record g { groups = insert id new g.groups })
insert-IsExclusive g id new x only i j a b key at la lb k oa ob = ground (
  arith,
  lookup-insert id i new g.groups,
  lookup-insert id j new g.groups,
  text_eq_iff id i,
  text_eq_iff id j,
  x i j a b key at,
  only j b key at,
  only i a key at,
)

archived_owns :
    (g : GroupState) (old new : ResourceGroup) (action : Action) (clock after : Clock) (key : Text)
    (at : Time)
    → change_status g old true clock ≡ ok (new, action, after)
    → owns new key at ≡ true
    → owns old key at ≡ true
unfolding change_status owns
archived_owns g old new action clock after key at e on = ground arith

published_owns :
    (g : GroupState) (old new : ResourceGroup) (action : Action) (clock after : Clock) (key : Text)
    (at : Time)
    → change_status g old false clock ≡ ok (new, action, after)
    → owns new key at ≡ true
    → (check_owners g old.models clock ≡ ok tt)
      × (any (λ m. text_eq (group_model m) key) old.models ≡ true)
unfolding change_status owns
published_owns g old new action clock after key at e on = ground arith

-- A group that is published owns no model that another group owns, now or ever.
change_status-only :
    (g : GroupState) (id : Text) (old new : ResourceGroup) (action : Action) (is_archive : Bool)
    (clock after : Clock) (j : Text) (b : ResourceGroup) (key : Text) (at : Time)
    → IsExclusive g
    → IsPast g clock
    → lookup id g.groups ≡ some old
    → change_status g old is_archive clock ≡ ok (new, action, after)
    → lookup j g.groups ≡ some b
    → is_empty key ≡ false
    → owns new key at ≡ true
    → owns b key at ≡ true
    → j ≡ id
change_status-only g id old new action true clock after j b key at x past found e lb k on ob =
    sym (x id j old b key at found lb k (archived_owns g old new action clock after key at e on) ob)
change_status-only g id old new action false clock after j b key at x past found e lb k on ob =
    let (checked, has) = published_owns g old new action clock after key at e on in
    let (n, free) = check_owners-free g old.models clock key checked has k in
    let unowned = find_owner-none g.groups key (clock n) j b free lb in
    let owned = owns_from b key at (clock n) ob (λ t p. past n j b t lb p) in absurd (ground arith)

-- Publishing and archiving keep the models exclusive: no two groups ever own the same model at the
-- same instant, provided that the clock is not behind the publication times that are stored.
pub publish_edit-IsExclusive :
    {F : Type 0} (clock : Clock) (id : Text) (revision : ℤ) (reason : Text) (is_archive : Bool)
    (s next : State F) (g' : ResourceGroup) (changes : Changes F)
    → IsExclusive s.grouped
    → IsPast s.grouped clock
    → publish_edit clock id revision reason is_archive s ≡ ok (g', next, changes)
    → IsExclusive next.grouped
unfolding owns
publish_edit-IsExclusive clock id revision reason is_archive s next g' changes x past e =
    let (old, g, action, after, found, _, st, eg, en) =
      publish_edit_ok clock id revision reason is_archive s g' next changes e in
    subst (λ t. IsExclusive t.grouped) (sym en)
      (insert-IsExclusive s.grouped id g' x (λ j b key at lb k on ob.
        change_status-only s.grouped id old g action is_archive clock after j b key at x past found
          st lb k (subst (λ h. owns h key at ≡ true) eg on) ob))

-- A group that is created stands under an identifier that no group had, so that it replaces none, and
-- the models stay exclusive. There are fewer than 10^19 - 1 groups.
pub create_edit-IsExclusive :
    {F : Type 0} (clock : Clock) (group g' : ResourceGroup) (s next : State F) (changes : Changes F)
    → IsExclusive s.grouped
    → length s.grouped.groups + 2 ≤ 10 ^ 19
    → create_edit clock group s ≡ ok (g', next, changes)
    → (lookup g'.id s.grouped.groups ≡ none)
      × (lookup g'.id next.grouped.groups ≡ some g')
      × IsExclusive next.grouped
unfolding create_edit
create_edit-IsExclusive clock group g' s next changes x room e =
    let id = new_id s.grouped.groups group.name (codes "group") in
    let unused = new_id_free s.grouped.groups group.name (codes "group") room in
    let pair = ok-injective _ (g', next, changes) e in
    let made = ap (λ x. x.0) pair in
    let same : g'.id ≡ id = sym (ap (λ g. g.id) made) in
    let stored : next.grouped.groups ≡ insert id g' s.grouped.groups =
      sym (ap (λ x. x.1.grouped.groups) pair) ∙ ap (λ g. insert id g s.grouped.groups) made in
    (
      rw same unused,
      ap (λ i. lookup i next.grouped.groups) same
          ∙ ap (λ m. lookup id m) stored
          ∙ lookup-insert_self id g' s.grouped.groups,
      subst (λ m. IsExclusive (record empty_groups { groups = m })) (sym stored)
          (insert-IsExclusive s.grouped id g' x (λ j b key at lb k on ob.
            let drafted = subst (λ g. owns g key at ≡ true) (sym made) on in
            absurd (unfold owns in cc))),
    )
