-- ===== src/Scheduler/Choice.antt =====
-- internal/plugin/scheduler.go, subsetScheduler.pick: whom it picks.
use cpa_plugin_group_billing.Prelude.{
  ◌≡◌, refl, Bool, true, false, not, ◌&&◌, ◌||◌, List, [], ◌∷◌, arith, sym, subst, Bool-cases, ◌⊎◌,
  inl, inr,
}
use cpa_plugin_group_billing.Prelude.Int64.{ℤ, ltb_ℤ, pos}
use cpa_plugin_group_billing.Prelude.Sort.{sort_stable, insert_sorted, insert_all}
use cpa_plugin_group_billing.Prelude.Table.{Table}
use cpa_plugin_group_billing.Prelude.Text.{Text, is_empty, contains, text_eq, text_eq_refl}
use cpa_plugin_group_billing.RoutePolicy.{text_lt}
use cpa_plugin_group_billing.Scheduler.{
  Candidate, Scheduler, Round, candidate_weight, positive_ids, choose, choose_next, first_round,
  ready, pick_in, pick_shared, pick, weigh, open_pool, table_at,
}

-- A candidate with this identifier has a positive weight.
abbrev pub is_positive : List Candidate → Text → Bool
is_positive [] id = false
is_positive (c ∷ cs) id =
    (ltb_ℤ (pos 0) (candidate_weight c) && text_eq c.id id) || is_positive cs id

-- Some candidate has a positive weight.
abbrev pub has_positive : List Candidate → Bool
has_positive [] = false
has_positive (c ∷ cs) = ltb_ℤ (pos 0) (candidate_weight c) || has_positive cs

contains-positive_ids :
    (cs : List Candidate) (id : Text) → contains id (positive_ids cs) ≡ is_positive cs id
unfolding contains positive_ids
contains-positive_ids [] id = refl
contains-positive_ids (c ∷ cs) id = ground (arith, contains-positive_ids cs id)

is_empty-positive_ids : (cs : List Candidate) → is_empty (positive_ids cs) ≡ not (has_positive cs)
unfolding positive_ids
is_empty-positive_ids [] = refl
is_empty-positive_ids (c ∷ cs) = ground (arith, is_empty-positive_ids cs)

-- Sorting keeps the members.
contains-insert_sorted :
    (lt : Text → Text → Bool) (id x : Text) (ys : List Text)
    → contains id (insert_sorted lt x ys) ≡ (text_eq x id || contains id ys)
unfolding contains insert_sorted
contains-insert_sorted lt id x [] = refl
contains-insert_sorted lt id x (y ∷ ys) = ground (arith, contains-insert_sorted lt id x ys)

contains-insert_all :
    (lt : Text → Text → Bool) (id : Text) (xs out : List Text)
    → contains id (insert_all lt xs out) ≡ (contains id xs || contains id out)
unfolding contains insert_all
contains-insert_all lt id [] out = refl
contains-insert_all lt id (x ∷ xs) out = ground (
  arith,
  contains-insert_all lt id xs (insert_sorted lt x out),
  contains-insert_sorted lt id x out,
)

-- The choice is the identifier chosen before, or one of those left.
choose-contains :
    (weights : Table ℤ) (ids : List Text) (r : Round)
    → (text_eq r.selected (choose weights ids r).selected
        || contains (choose weights ids r).selected ids)
      ≡ true
unfolding choose choose_next contains
choose-contains weights [] r = ground (arith, text_eq_refl r.selected)
choose-contains weights (id ∷ ids) r =
    ground (arith, choose-contains weights ids (choose_next weights id r))

-- The first round chooses the first identifier.
choose_first :
    (weights current : Table ℤ) (id : Text) (ids : List Text)
    → contains (choose weights (id ∷ ids) (first_round current)).selected (id ∷ ids) ≡ true
unfolding choose choose_next contains
choose_first weights current id ids =
    choose-contains weights ids (choose_next weights id (first_round current))

choose_some :
    (weights current : Table ℤ) (ids : List Text)
    → is_empty ids ≡ false
    → contains (choose weights ids (first_round current)).selected ids ≡ true
choose_some weights current [] e = absurd cc
choose_some weights current (id ∷ ids) e = choose_first weights current id ids

list_cases : {A : Type 0} (xs : List A) → (xs ≡ []) ⊎ ((x : A) × (rest : List A) × (xs ≡ x ∷ rest))
list_cases [] = inl refl
list_cases (x ∷ rest) = inr (x, rest, refl)

pick_shared-contains :
    (s : Scheduler) (scope pool : Text) (new : Table ℤ) (ids : List Text)
    → is_empty ids ≡ false
    → contains (pick_shared s scope pool new ids).0 ids ≡ true
unfolding pick_shared pick_in
pick_shared-contains s scope pool new ids e =
    let state = ready new ids (open_pool pool (table_at scope s)).1 in
    choose_some state.weights state.current ids e

not_empty : (id : Text) (ids : List Text) → contains id ids ≡ true → is_empty ids ≡ false
unfolding contains
not_empty id [] e = absurd cc
not_empty id (x ∷ ids) e = refl

-- Whatever is picked from the sorted identifiers is one of a positive candidate.
picked-is_positive :
    (cs : List Candidate) (id : Text)
    → contains id (sort_stable text_lt (positive_ids cs)) ≡ true
    → is_positive cs id ≡ true
unfolding contains
picked-is_positive cs id e =
    ground (arith, contains-insert_all text_lt id (positive_ids cs) [], contains-positive_ids cs id)

sorted_some :
    (ids rest : List Text) (first : Text)
    → ids ≡ first ∷ rest
    → is_empty (sort_stable text_lt ids) ≡ false
unfolding contains
sorted_some ids rest first e =
    let there : contains first ids ≡ true =
      subst (λ l. contains first l ≡ true) (sym e) (ground (arith, text_eq_refl first)) in
    not_empty first (sort_stable text_lt ids)
      (ground (arith, contains-insert_all text_lt first ids []))

-- The pick is the identifier of a candidate with a positive weight exactly if there is such a
-- candidate, and it is empty if there is none.
pub pick-is_positive :
    (s : Scheduler) (scope pool : Text) (cs : List Candidate)
    → (is_positive cs (pick s scope pool cs).0 ≡ has_positive cs)
      × ((has_positive cs || is_empty (pick s scope pool cs).0) ≡ true)
unfolding pick contains
pick-is_positive s scope pool cs = elim (list_cases (positive_ids cs)) [
  | inl none_left ↦
      rw (none_left, pick) (ground (arith, contains-positive_ids cs [], is_empty-positive_ids cs))
  | inr (first, rest, e) ↦ elim (Bool-cases (is_empty rest)) [
    | inl single ↦
        rw (e, single, pick)
          (ground
            (arith, contains-positive_ids cs first, is_empty-positive_ids cs, text_eq_refl first))
    | inr more ↦
        let ids = sort_stable text_lt (positive_ids cs) in
        let picked = pick_shared s scope pool (weigh [] cs) ids in
        let positive = picked-is_positive cs picked.0 (
          pick_shared-contains s scope pool (weigh [] cs) ids
            (sorted_some (positive_ids cs) rest first e)) in
        rw (e, more, pick) (ground (arith, is_empty-positive_ids cs))
  ]
]
