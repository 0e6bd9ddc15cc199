-- ===== src/Pricing/Buckets.antt =====
-- internal/billing/pricing.go, TokenBreakdown.Valid and ComputeCost: the buckets of a breakdown do not
-- overlap.
use cpa_plugin_group_billing.Prelude.{◌+◌, ◌≤◌, ◌≡◌, refl, ap, true, false, arith}
use cpa_plugin_group_billing.Prelude.Int64.{
  ℤ, pos, negsuc, pos_part, add64, add64_pos, max_int64, eqb_ℤ_iff,
}
use cpa_plugin_group_billing.Float.{Float}
use cpa_plugin_group_billing.Pricing.{
  Breakdown, Price, valid, billable, compute_cost, negative, any_negative, adds_up,
}

-- The three sums of a breakdown fit an int64.
abbrev pub HasSums : Breakdown → Type 0
HasSums b =
    (pos_part b.input.uncached + pos_part b.input.cache_read + pos_part b.input.cache_write
      ≤ max_int64)
    × (pos_part b.output.non_reasoning + pos_part b.output.reasoning ≤ max_int64)
    × (pos_part b.input.total + pos_part b.output.total + pos_part b.unclassified_tokens
        ≤ max_int64)

sum3 :
    (a b c t : ℤ)
    → t ≡ add64 (add64 a b) c
    → pos_part a + pos_part b + pos_part c ≤ max_int64
    → a ≡ pos (pos_part a)
    → b ≡ pos (pos_part b)
    → c ≡ pos (pos_part c)
    → t ≡ pos (pos_part a + pos_part b + pos_part c)
sum3 (pos a) (pos b) (pos c) t e h _ _ _ = ground (arith, add64_pos a b, add64_pos (a + b) c)
sum3 (pos a) (pos b) (negsuc c) t e h _ _ q = absurd cc
sum3 (pos a) (negsuc b) c t e h _ q _ = absurd cc
sum3 (negsuc a) b c t e h q _ _ = absurd cc

sum2 :
    (a b t : ℤ)
    → t ≡ add64 a b
    → pos_part a + pos_part b ≤ max_int64
    → a ≡ pos (pos_part a)
    → b ≡ pos (pos_part b)
    → t ≡ pos (pos_part a + pos_part b)
sum2 (pos a) (pos b) t e h _ _ = ground (arith, add64_pos a b)
sum2 (pos a) (negsuc b) t e h _ q = absurd cc
sum2 (negsuc a) b t e h q _ = absurd cc

pub nonneg : (n : ℤ) → negative n ≡ false → n ≡ pos (pos_part n)
nonneg (pos n) h = refl
nonneg (negsuc n) h = absurd (ground arith)

-- What the checks say of a breakdown.
pub valid-parts : (b : Breakdown) → valid b ≡ true → (any_negative b ≡ false) × (adds_up b ≡ true)
unfolding valid
valid-parts b v = ground arith

adds_up-sums :
    (b : Breakdown)
    → adds_up b ≡ true
    → (b.input.total ≡ add64 (add64 b.input.uncached b.input.cache_read) b.input.cache_write)
      × (b.output.total ≡ add64 b.output.non_reasoning b.output.reasoning)
      × (b.total ≡ add64 (add64 b.input.total b.output.total) b.unclassified_tokens)
adds_up-sums b h =
    let t = eqb_ℤ_iff b.total (add64 (add64 b.input.total b.output.total) b.unclassified_tokens) in
    let i =
      eqb_ℤ_iff b.input.total
        (add64 (add64 b.input.uncached b.input.cache_read) b.input.cache_write) in
    let o = eqb_ℤ_iff b.output.total (add64 b.output.non_reasoning b.output.reasoning) in
    ((i.0 (ground arith)), (o.0 (ground arith)), (t.0 (ground arith)))

valid-sums :
    (b : Breakdown)
    → valid b ≡ true
    → HasSums b
    → (pos_part b.input.total
        ≡ pos_part b.input.uncached + pos_part b.input.cache_read + pos_part b.input.cache_write)
      × (pos_part b.output.total ≡ pos_part b.output.non_reasoning + pos_part b.output.reasoning)
      × (pos_part b.total
          ≡ pos_part b.input.total + pos_part b.output.total + pos_part b.unclassified_tokens)
valid-sums b v (si, so, st) =
    let (n, a) = valid-parts b v in
    let (ei, eo, et) = adds_up-sums b a in
    let i =
      sum3 b.input.uncached b.input.cache_read b.input.cache_write b.input.total ei si
        (nonneg _ (ground arith)) (nonneg _ (ground arith)) (nonneg _ (ground arith)) in
    let o =
      sum2 b.output.non_reasoning b.output.reasoning b.output.total eo so (nonneg _ (ground arith))
        (nonneg _ (ground arith)) in
    let t =
      sum3 b.input.total b.output.total b.unclassified_tokens b.total et st
        (nonneg _ (ground arith)) (nonneg _ (ground arith)) (nonneg _ (ground arith)) in
    (ap pos_part i, ap pos_part o, ap pos_part t)

-- In a breakdown that passes the checks the input and the output are the sums of their buckets, and
-- the total is the sum of all of them, provided that the sums fit an int64.
pub valid-partition :
    (b : Breakdown)
    → valid b ≡ true
    → HasSums b
    → pos_part b.total
      ≡ pos_part b.input.uncached
        + pos_part b.input.cache_read
        + pos_part b.input.cache_write
        + pos_part b.output.non_reasoning
        + pos_part b.output.reasoning
        + pos_part b.unclassified_tokens
valid-partition b v sums = let (i, o, t) = valid-sums b v sums in omega arith

-- The counts in the cost of a billable request add up to its total, provided that the sums fit an int64.
pub compute_cost-tokens :
    {F : Type 0} ⦃fl : Float F⦄ (price : Price F) (b : Breakdown)
    → billable b ≡ true
    → HasSums b
    → let c = compute_cost price b in
      pos_part c.uncached_input_tokens
        + pos_part c.cache_read_tokens
        + pos_part c.cache_write_tokens
        + pos_part c.billed_output_tokens
      ≡ pos_part b.total
unfolding compute_cost billable
compute_cost-tokens price b v sums =
    let checked : valid b ≡ true = ground arith in
    let (i, o, t) = valid-sums b checked sums in
    let none_left : pos_part b.unclassified_tokens ≡ 0 = unfold valid in ground arith in
    rw v (omega arith)
