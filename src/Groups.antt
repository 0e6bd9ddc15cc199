-- ===== src/Groups.antt =====
-- internal/billing/group_types.go: resource groups, group plans, key bindings and the day ledgers,
-- and the lookups that admission and accounting share.
pub mod Keys
use cpa_plugin_group_billing.Prelude.{
  ℕ, ◌≡◌, refl, Bool, true, false, not, ◌&&◌, ◌||◌, Option, none, some, List, [], ◌∷◌, ◌++◌, any,
  ltb, leb, ◌==◌, length, if◌then◌else◌,
}
use cpa_plugin_group_billing.Prelude.Int64.{ℤ, pos}
use cpa_plugin_group_billing.Prelude.Table.{Table, lookup}
use cpa_plugin_group_billing.Prelude.Text.{Text, text_eq, is_empty, trim_space, to_lower}
use cpa_plugin_group_billing.Calendar.{Time, before}
use cpa_plugin_group_billing.Errors.{Error, Result, ok, err, invalidf, refuse, ◌>>=◌, ◌>>◌}
use cpa_plugin_group_billing.Routing.{Selector, RouteRule, normalize_rule}
use cpa_plugin_group_billing.Usd.{Usd}

-- The texts of the constructors; `unknown` is any other text.
pub data PoolMode : Type 0 where
  inherit selected : PoolMode
  unknown : Text → PoolMode

pub record GroupPool : Type 0 where
  pub mode : PoolMode
  pub allow_refs : List Text
  pub deny_refs : List Text
  pub allow_classes : List Selector
  pub deny_classes : List Selector

-- `GroupPool.Rule`
unfoldable pub rule : GroupPool → RouteRule
rule p = record {
  models = [];
  credential_ids = p.allow_refs;
  credential_providers = p.allow_classes;
  denied_models = [];
  denied_credential_ids = p.deny_refs;
  denied_credential_providers = p.deny_classes;
}

abbrev has_allowed : GroupPool → Bool
has_allowed p = not (is_empty p.allow_refs && is_empty p.allow_classes)

check_mode : PoolMode → Bool → Result (Unit {0})
check_mode inherit allowed = refuse allowed (invalidf "inherit 不能包含允许列表")
check_mode selected allowed = refuse (not allowed) (invalidf "指定凭证池不能为空")
check_mode (unknown t) allowed = err (invalidf "凭证池 mode 必须为 inherit 或 selected")

-- `GroupPool.normalize`
unfoldable pub normalize_pool : GroupPool → Result GroupPool
unfolding check_mode rule
normalize_pool p = do
  check_mode p.mode (has_allowed p)
  r ← normalize_rule (rule p)
  ok (record {
    mode = p.mode;
    allow_refs = r.credential_ids;
    deny_refs = r.denied_credential_ids;
    allow_classes = r.credential_providers;
    deny_classes = r.denied_credential_providers;
  })

-- The schema of the database admits no other status.
pub data Status : Type 0 where
  draft published archived : Status

pub record ResourceGroup : Type 0 where
  pub id : Text
  pub name : Text
  pub description : Text
  pub status : Status
  pub enabled : Bool
  pub models : List Text
  pub pool : GroupPool
  pub revision : ℤ
  pub created_at : Time
  pub updated_at : Time
  pub published_at : Option Time

-- No limit is `none`.
pub record GroupPolicy : Type 0 where
  pub group_id : Text
  pub enabled : Bool
  pub daily_limit : Option Usd
  pub concurrency_limit : Option ℤ

pub record GroupPlan : Type 0 where
  pub id : Text
  pub name : Text
  pub revision : ℤ
  pub policies : List GroupPolicy
  pub created_at : Time
  pub updated_at : Time
  pub bound_key_count : ℕ

pub data Mode : Type 0 where
  legacy grouped : Mode
  unknown : Text → Mode

-- `GroupBindingPeriod`: a mode in the instants from `effective_from` up to `effective_to`.
pub record Period : Type 0 where
  pub mode : Mode
  pub plan_id : Option Text
  pub effective_from : Time
  pub effective_to : Option Time

pub record KeyBinding : Type 0 where
  pub unclassified : ℤ
  pub scope : Text
  pub revision : ℤ
  pub periods : List Period

-- The binding that a missing entry of the map reads as.
abbrev pub no_binding : KeyBinding
no_binding = record { unclassified = pos 0; scope = []; revision = pos 0; periods = [] }

pub record GroupDay : Type 0 where
  pub accounting_error : Text
  pub scope : Text
  pub group_id : Text
  pub date : Text
  pub raw : Usd
  pub credit : Usd
  pub reset_cutoff : Option Time
  pub tokens : ℤ
  pub requests : ℤ
  pub incomplete : ℤ
  pub updated_at : Time

abbrev pub new_day : Text → Text → Text → GroupDay
new_day scope group_id date = record {
  accounting_error = [];
  scope = scope;
  group_id = group_id;
  date = date;
  raw = pos 0;
  credit = pos 0;
  reset_cutoff = none;
  tokens = pos 0;
  requests = pos 0;
  incomplete = pos 0;
  updated_at = 0;
}

-- `GroupDay.Key`: the three texts with NUL between them.
unfoldable pub day_key : Text → Text → Text → Text
day_key scope group_id date = scope ++ 0 ∷ (group_id ++ 0 ∷ date)

pub record SharedLabel : Type 0 where
  pub instance_id : Text
  pub kind : Text
  pub subject_id : Text
  pub external_id : ℤ
  pub value : Text
  pub source_note : Option Text
  pub fetched_at : Time

-- `SharedLabel.Key`
unfoldable pub label_key : SharedLabel → Text
label_key l = l.instance_id ++ 0 ∷ (l.kind ++ 0 ∷ l.subject_id)

pub record GroupState : Type 0 where
  pub groups : Table ResourceGroup
  pub plans : Table GroupPlan
  pub bindings : Table KeyBinding
  pub days : Table GroupDay
  pub labels : Table SharedLabel

abbrev pub empty_groups : GroupState
empty_groups = record { groups = []; plans = []; bindings = []; days = []; labels = [] }

-- `groupModel`
unfoldable pub group_model : Text → Text
group_model model = to_lower (trim_space model)

abbrev pub not_ended : Option Time → Time → Bool
not_ended none at = true
not_ended (some end) at = before at end

-- A period holds from its first instant up to its end.
unfoldable pub covers : Period → Time → Bool
covers p at = not (before at p.effective_from) && not_ended p.effective_to at

unfoldable pub find_period : List Period → Time → Option Period
unfolding covers
find_period [] at = none
find_period (p ∷ ps) at = let rest = find_period ps at in if covers p at then some p else rest

abbrev pub binding_of : GroupState → Text → KeyBinding
binding_of g scope = elim (lookup scope g.bindings) [ none ↦ no_binding | some b ↦ b ]

abbrev if_grouped : Period → Mode → Option Period
if_grouped p grouped = some p
if_grouped p _ = none

-- `GroupState.binding`: the period in force, if it is grouped. No caller reads the period otherwise.
unfoldable pub binding : GroupState → Text → Time → Option Period
unfolding find_period
binding g scope at = elim (find_period (binding_of g scope).periods at) [
  | none ↦ none
  | some p ↦ if_grouped p p.mode
]

abbrev pub is_draft : Status → Bool
is_draft draft = true
is_draft _ = false

abbrev pub published_by : Option Time → Time → Bool
published_by none at = false
published_by (some t) at = not (before at t)

-- A group owns its models once it is published, also after it is archived.
unfoldable pub owns : ResourceGroup → Text → Time → Bool
owns group key at =
    not (is_draft group.status)
    && published_by group.published_at at
    && any (λ m. text_eq (group_model m) key) group.models

unfoldable pub find_owner : Table ResourceGroup → Text → Time → Option ResourceGroup
find_owner [] key at = none
find_owner ((_, group) ∷ rest) key at =
    let later = find_owner rest key at in if owns group key at then some group else later

-- `GroupState.modelOwner`
unfoldable pub model_owner : GroupState → Text → Time → Option ResourceGroup
unfolding find_owner
model_owner g model at =
    let key = group_model model in if is_empty key then none else find_owner g.groups key at

find_policy : List GroupPolicy → Text → Option GroupPolicy
find_policy [] id = none
find_policy (p ∷ ps) id = if text_eq p.group_id id then some p else find_policy ps id

-- `GroupState.policy`; a plan that is not there has no policies.
unfoldable pub policy : GroupState → Text → Text → Option GroupPolicy
unfolding find_policy
policy g plan_id group_id = elim (lookup plan_id g.plans) [
  | none ↦ none
  | some plan ↦ find_policy plan.policies group_id
]
