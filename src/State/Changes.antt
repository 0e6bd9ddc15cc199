-- ===== src/State/Changes.antt =====
-- internal/billing/repository.go: the record of what a write must save, and how two are merged.
pub mod Covered
use cpa_plugin_group_billing.Prelude.{
  ℕ, ◌+◌, ◌-◌, ◌≤◌, ◌≡◌, refl, Bool, true, false, not, ◌&&◌, ◌||◌, Option, List, [], ◌∷◌, ◌++◌,
  length, drop, ltb, arith, if◌then◌else◌,
}
use cpa_plugin_group_billing.Prelude.Text.{Text, is_empty, contains}
use cpa_plugin_group_billing.Calendar.{Time, before, is_zero}
use cpa_plugin_group_billing.Groups.{ResourceGroup, GroupPlan, KeyBinding, GroupDay}
use cpa_plugin_group_billing.State.{RequestEvent}

-- The value whose JSON text an audit entry holds.
pub data Snapshot : Type 0 where
  nothing : Snapshot
  a_group : ResourceGroup → Snapshot
  a_plan : GroupPlan → Snapshot
  a_binding : KeyBinding → Snapshot
  a_day : GroupDay → Snapshot

pub data Action : Type 0 where
  create update publish archive schedule reset : Action

-- `GroupAudit`; the repository numbers the entries, and the actor and the result never vary.
pub record GroupAudit : Type 0 where
  pub at : Time
  pub action : Action
  pub object_id : Text
  pub before_value : Snapshot
  pub after_value : Snapshot
  pub reason : Text

-- `RequestErrorEvent`, its event and the details of the failure.
pub record RequestErrorEvent (F : Type 0) : Type 0 where
  pub event : RequestEvent F
  pub status_code : ℕ
  pub error_type : Text
  pub reason : Text
  pub body : Text

pub record Changes (F : Type 0) : Type 0 where
  pub grouped_config : Bool
  pub group_days : List Text
  pub group_labels : Bool
  pub group_audits : List GroupAudit
  pub keys : List Text
  pub all_keys : Bool
  pub plans : Bool
  pub routes : Bool
  pub config_credentials : Bool
  pub normal_events : List (RequestEvent F)
  pub error_events : List (RequestErrorEvent F)
  pub event_cutoff : Time

abbrev pub max_pending_request_records : ℕ
max_pending_request_records = 1000

-- The loop of `mergeGroupDayKeys`, and of the merge of the scopes: the values seen and left.
unfoldable pub merge_keys : List Text → List Text → List Text
merge_keys seen [] = []
merge_keys seen (k ∷ ks) =
    let old = merge_keys seen ks in
    let new = k ∷ merge_keys (k ∷ seen) ks in if contains k seen then old else new

abbrev pub union : List Text → List Text → List Text
unfolding merge_keys
union a b = merge_keys [] (a ++ b)

abbrev pub last_records {ℓ} : {A : Type ℓ} → List A → List A
last_records xs =
    if ltb max_pending_request_records (length xs)
    then drop (length xs - max_pending_request_records) xs
    else xs

module _ {F : Type 0} where
  abbrev pub no_changes : Changes F
  no_changes = record {
    grouped_config = false;
    group_days = [];
    group_labels = false;
    group_audits = [];
    keys = [];
    all_keys = false;
    plans = false;
    routes = false;
    config_credentials = false;
    normal_events = [];
    error_events = [];
    event_cutoff = 0;
  }

  -- `Changes.empty`
  unfoldable pub is_unchanged : Changes F → Bool
  is_unchanged c =
      not c.grouped_config
      && is_empty c.group_days
      && not c.group_labels
      && is_empty c.group_audits
      && is_empty c.keys
      && not c.all_keys
      && not c.plans
      && not c.routes
      && not c.config_credentials
      && is_empty c.normal_events
      && is_empty c.error_events
      && is_zero c.event_cutoff

  -- `withBoundedRequestRecords`
  unfoldable pub bounded : Changes F → Changes F
  bounded c = record c {
    normal_events = last_records c.normal_events;
    error_events = last_records c.error_events;
  }

  -- `Changes.merge`
  unfoldable pub merge : Changes F → Changes F → Changes F
  unfolding merge_keys
  merge c next =
      let both : Changes F = record {
        grouped_config = c.grouped_config || next.grouped_config;
        group_days = union c.group_days next.group_days;
        group_labels = c.group_labels || next.group_labels;
        group_audits = c.group_audits ++ next.group_audits;
        keys = if c.all_keys || next.all_keys then [] else union c.keys next.keys;
        all_keys = c.all_keys || next.all_keys;
        plans = c.plans || next.plans;
        routes = c.routes || next.routes;
        config_credentials = c.config_credentials || next.config_credentials;
        normal_events = c.normal_events ++ next.normal_events;
        error_events = c.error_events ++ next.error_events;
        event_cutoff =
            if before next.event_cutoff c.event_cutoff then c.event_cutoff else next.event_cutoff;
      } in
      if is_unchanged c then bounded next else if is_unchanged next then bounded c else bounded both
