-- ===== src/Scheduler.antt =====
-- internal/plugin/scheduler.go: the weighted round robin over the credentials that a key may use.
pub mod Choice
use cpa_plugin_group_billing.Prelude.{
  ℕ, suc, ◌+◌, ◌-◌, ◌^◌, ◌≡◌, refl, Bool, true, false, not, ◌&&◌, ◌||◌, Option, none, some, List,
  [], ◌∷◌, any, length, ltb, leb, ◌==◌, if◌then◌else◌,
}
use cpa_plugin_group_billing.Prelude.Int64.{
  ℤ, pos, negsuc, ltb_ℤ, leb_ℤ, eqb_ℤ, max_int64, add64, sub64,
}
use cpa_plugin_group_billing.Prelude.Sort.{sort_stable}
use cpa_plugin_group_billing.Prelude.Table.{Table, lookup, insert}
use cpa_plugin_group_billing.Prelude.Text.{Text, codes, is_empty, trim_space, contains}
use cpa_plugin_group_billing.RoutePolicy.{text_lt}
use cpa_plugin_group_billing.Usd.{is_digit, read}

abbrev pub max_pools_per_key : ℕ
max_pools_per_key = 256

abbrev pub max_credentials_per_pool : ℕ
max_credentials_per_pool = 1024

-- `SchedulerAuthCandidate`
pub record Candidate : Type 0 where
  pub id : Text
  pub provider : Text
  pub status : Text
  pub attributes : Table Text

-- `subsetScheduleState`
pub record PoolState : Type 0 where
  pub current : Table ℤ
  pub weights : Table ℤ

-- `subsetScheduler`
abbrev pub Scheduler : Type 0
Scheduler = Table (Table PoolState)

-- The value that a missing entry of a map reads as.
abbrev pub text_at : Text → Table Text → Text
text_at k m = elim (lookup k m) [ none ↦ [] | some v ↦ v ]

abbrev pub number_at : Text → Table ℤ → ℤ
number_at k m = elim (lookup k m) [ none ↦ pos 0 | some n ↦ n ]

abbrev pub table_at : {V : Type 0} → Text → Table (Table V) → Table V
table_at k m = elim (lookup k m) [ none ↦ [] | some v ↦ v ]

all_digits : Text → Bool
all_digits s = not (is_empty s) && not (any (λ c. not (is_digit c)) s)

positive_int : Text → Option ℤ
unfolding all_digits read is_digit
positive_int s =
    let n = read 0 s in if not (all_digits s) || ltb max_int64 n then none else some (pos n)

negative_int : Text → Option ℤ
unfolding all_digits read is_digit
negative_int s =
    let n = read 0 s in
    if not (all_digits s) || ltb (max_int64 + 1) n
    then none
    else if n == 0
    then some (pos 0)
    else some (negsuc (n - 1))

-- `strconv.ParseInt(s, 10, 64)`; `none` is its error.
unfoldable pub parse_int64 : Text → Option ℤ
unfolding positive_int negative_int
parse_int64 [] = none
parse_int64 (c ∷ s) =
    if c == b'-' then negative_int s else if c == b'+' then positive_int s else positive_int (c ∷ s)

-- `candidateWeight`
unfoldable pub candidate_weight : Candidate → ℤ
candidate_weight c =
    let raw = trim_space (text_at (codes "weight") c.attributes) in
    if is_empty raw then pos 1 else elim (parse_int64 raw) [
      | none ↦ pos 0
      | some weight ↦ if leb_ℤ weight (pos 0) then pos 0 else weight
    ]

-- The candidates with a positive weight, and the weight of each identifier.
unfoldable pub positive_ids : List Candidate → List Text
positive_ids [] = []
positive_ids (c ∷ cs) =
    let rest = positive_ids cs in if ltb_ℤ (pos 0) (candidate_weight c) then c.id ∷ rest else rest

unfoldable pub weigh : Table ℤ → List Candidate → Table ℤ
weigh weights [] = weights
weigh weights (c ∷ cs) =
    let skip = weigh weights cs in
    let keep = weigh (insert c.id (candidate_weight c) weights) cs in
    if ltb_ℤ (pos 0) (candidate_weight c) then keep else skip

-- The loop that stores the weights, and whether one of them has changed.
unfoldable pub store_weights : Table ℤ → List Text → Table ℤ → Table ℤ × Bool
store_weights new [] weights = (weights, false)
store_weights new (id ∷ ids) weights =
    let weight = number_at id new in
    let (after, changed) = store_weights new ids (insert id weight weights) in
    let other : Bool = elim (lookup id weights) [
      | none ↦ false
      | some old ↦ not (eqb_ℤ old weight)
    ] in
    (after, other || changed)

-- The entries of the identifiers only.
unfoldable pub kept_entries : Table ℤ → List Text → Table ℤ → Table ℤ
kept_entries from [] out = out
kept_entries from (id ∷ ids) out = kept_entries from ids (insert id (number_at id from) out)

-- What the loop that chooses has done so far.
pub record Round : Type 0 where
  pub current : Table ℤ
  pub selected : Text
  pub highest : ℤ
  pub total : ℤ

unfoldable pub choose_next : Table ℤ → Text → Round → Round
choose_next weights id r =
    let weight = number_at id weights in
    let score = add64 (number_at id r.current) weight in
    let better =
      is_empty r.selected
      || ltb_ℤ r.highest score
      || (eqb_ℤ score r.highest && text_lt id r.selected) in
    record {
      current = insert id score r.current;
      selected = if better then id else r.selected;
      highest = if better then score else r.highest;
      total = add64 r.total weight;
    }

unfoldable pub choose : Table ℤ → List Text → Round → Round
choose weights [] r = r
choose weights (id ∷ ids) r = choose weights ids (choose_next weights id r)

abbrev pub first_round : Table ℤ → Round
first_round current = record { current = current; selected = []; highest = pos 0; total = pos 0 }

-- The state of a pool for its next choice: after a change of weights every score is dropped, and a
-- pool that has grown too large keeps the present candidates only.
unfoldable pub ready : Table ℤ → List Text → PoolState → PoolState
ready new ids state =
    let (weights, changed) = store_weights new ids state.weights in
    let current = if changed then [] else state.current in
    if ltb max_credentials_per_pool (length current)
    then record { current = kept_entries current ids []; weights = kept_entries weights ids [] }
    else record { current = current; weights = weights }

-- One choice in a pool.
unfoldable pub pick_in : Table ℤ → List Text → PoolState → Text × PoolState
pick_in new ids state =
    let state' = ready new ids state in
    let r = choose state'.weights ids (first_round state'.current) in
    let after = sub64 (number_at r.selected r.current) r.total in
    (r.selected, record { current = insert r.selected after r.current; weights = state'.weights })

abbrev empty_pool : PoolState
empty_pool = record { current = []; weights = [] }

-- The pools of a key, and the state of one of them; a new pool in a full set drops the others.
abbrev pub open_pool : Text → Table PoolState → Table PoolState × PoolState
open_pool pool pools = elim (lookup pool pools) [
  | some state ↦ (pools, state)
  | none ↦ (if leb max_pools_per_key (length pools) then [] else pools, empty_pool)
]

-- `subsetScheduler.pick` with two candidates or more, whose identifiers are sorted.
unfoldable pub pick_shared : Scheduler → Text → Text → Table ℤ → List Text → Text × Scheduler
pick_shared s scope pool new ids =
    let (pools, state) = open_pool pool (table_at scope s) in
    let (selected, state') = pick_in new ids state in
    (selected, insert scope (insert pool state' pools) s)

-- `subsetScheduler.pick`
unfoldable pub pick : Scheduler → Text → Text → List Candidate → Text × Scheduler
unfolding pick_shared
pick s scope pool candidates =
    let ids = positive_ids candidates in
    let (selected, shared) =
      pick_shared s scope pool (weigh [] candidates) (sort_stable text_lt ids) in
    elim ids [
      | [] ↦ ([], s)
      | ◌∷◌ first rest ↦ if is_empty rest then (first, s) else (selected, shared)
    ]

-- `subsetScheduler.prune`
unfoldable pub prune : List Text → Scheduler → Scheduler
prune scopes [] = []
prune scopes ((scope, pools) ∷ s) =
    let rest = prune scopes s in if contains scope scopes then (scope, pools) ∷ rest else rest
