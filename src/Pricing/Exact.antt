-- ===== src/Pricing/Exact.antt =====
-- internal/billing/pricing.go, ComputeCost, in decimals of nine places: the cost is that of all tokens.
use cpa_plugin_group_billing.Prelude.{
  ℕ, ◌+◌, ◌*◌, ◌/◌, ◌≤◌, ◌<◌, ◌≡◌, refl, true, false, some, arith, ap, ◌||◌, ◌==◌, ◌⊎◌, Bool-cases,
  Option-cases, inl, inr,
}
use cpa_plugin_group_billing.Prelude.Int64.{ℤ, pos, negsuc, pos_part, leb_ℤ, ltb_ℤ}
use cpa_plugin_group_billing.Float.{Nanos, nanos_float}
use cpa_plugin_group_billing.Pricing.{
  Breakdown, Price, Tier, ResolvedTier, billable, valid, compute_cost, per_million, applied_rates,
  negative,
}
use cpa_plugin_group_billing.Pricing.Buckets.{HasSums, valid-parts, compute_cost-tokens}

-- A rate for a million tokens that is known.
abbrev pub tier_of : ℕ → ℕ → ℕ → ℕ → Tier Nanos
tier_of input output cache_read cache_write = record {
  input = some input;
  output = some output;
  cache_read = some cache_read;
  cache_write = some cache_write;
}

free_product : (n price : ℕ) → (leb_ℤ (pos n) (pos 0) || (price == 0)) ≡ true → n * price ≡ 0
free_product n price e = elim (Bool-cases (price == 0)) [
  | inl free ↦ let z : price ≡ 0 = ground arith in let it = ap (λ k. n * k) z in omega arith
  | inr paid ↦ let z : n ≡ 0 = ground arith in let it = ap (λ k. k * price) z in omega arith
]

-- A million times the cost of tokens is what they cost at the rate for each of them, rounded down.
per_million-exact :
    (n price : ℕ)
    → (cost : ℕ) × (per_million (pos n) (some price) ≡ some cost)
      × (1_000_000 * cost ≤ n * price)
      × (n * price < 1_000_000 * (cost + 1))
unfolding per_million
per_million-exact n price = elim (Bool-cases (leb_ℤ (pos n) (pos 0) || (price == 0))) [
  | inl free ↦
      let none_left : n * price ≡ 0 = free_product n price free in
      (0, rw (free, per_million) refl, omega arith, omega arith)
  | inr charged ↦
      let tokens : n * 1_000_000_000 * 1_000_000_000 / 1_000_000_000_000_000 ≡ n * 1000 =
        omega arith in
      let product : n * 1000 * price ≡ n * price * 1000 = omega arith in
      (
        n * price * 1000 / 1_000_000_000,
        rw (charged, tokens, product, per_million) refl,
        omega arith,
        omega arith,
      )
]

count-exact :
    (v : ℤ) (price : ℕ)
    → negative v ≡ false
    → (cost : ℕ) × (per_million v (some price) ≡ some cost)
      × (1_000_000 * cost ≤ pos_part v * price)
      × (pos_part v * price < 1_000_000 * (cost + 1))
count-exact (pos n) price e = per_million-exact n price
count-exact (negsuc n) price e = absurd (ground arith)

-- The rates for a request with an input: those of the long context where there are such and the input
-- exceeds their threshold, or else the basic ones.
abbrev pub Applies : Price Nanos → ℤ → Tier Nanos → Type 0
Applies price total rates =
    ((t : ResolvedTier Nanos) × (price.long_context ≡ some t)
      × (ltb_ℤ t.threshold total ≡ true)
      × (t.rates ≡ rates))
    ⊎ (((t : ResolvedTier Nanos) → price.long_context ≡ some t → ltb_ℤ t.threshold total ≡ false)
        × (price.rates ≡ rates))

applied_rates-Applies :
    (price : Price Nanos) (total : ℤ) (rates : Tier Nanos)
    → Applies price total rates
    → (applied_rates price total).0 ≡ rates
applied_rates-Applies price total rates (inl (t, there, over, e)) = rw (there, over) e
applied_rates-Applies price total rates (inr (under, e)) = elim (Option-cases price.long_context) [
  | inl missing ↦ rw (missing) e
  | inr (t, there) ↦ rw (there, under t there) e
]

billable-counts :
    (b : Breakdown)
    → billable b ≡ true
    → (negative b.input.uncached ≡ false)
      × (negative b.input.cache_read ≡ false)
      × (negative b.input.cache_write ≡ false)
      × (negative b.output.total ≡ false)
unfolding billable
billable-counts b v =
    let checked : valid b ≡ true = ground arith in
    let (n, _) = valid-parts b checked in (ground arith, ground arith, ground arith, ground arith)

compute_cost-total :
    (price : Price Nanos) (b : Breakdown) (rates : Tier Nanos) (t1 t2 t3 t4 : ℕ)
    → billable b ≡ true
    → (applied_rates price b.input.total).0 ≡ rates
    → per_million b.input.uncached rates.input ≡ some t1
    → per_million b.input.cache_read rates.cache_read ≡ some t2
    → per_million b.input.cache_write rates.cache_write ≡ some t3
    → per_million b.output.total rates.output ≡ some t4
    → (compute_cost price b).total ≡ some (t1 + t2 + t3 + t4)
unfolding compute_cost
compute_cost-total price b rates t1 t2 t3 t4 v applied e1 e2 e3 e4 =
    rw (v, applied, e1, e2, e3, e4, compute_cost) refl

-- A billable request is charged for all of its tokens, each once, at the rates that apply: the counts
-- of its cost add up to its total, and a million times the cost is the sum of the counts of uncached
-- input, cache reads, cache writes and output, each times its rate for a million tokens, up to a
-- rounding down of less than four units of the last place. The sums of its buckets must fit an int64.
-- The rates and the cost are decimals of nine places.
pub compute_cost_exact :
    (price : Price Nanos) (b : Breakdown) (input output cache_read cache_write : ℕ)
    → billable b ≡ true
    → HasSums b
    → Applies price b.input.total (tier_of input output cache_read cache_write)
    → let c = compute_cost price b in
      let exact =
        pos_part b.input.uncached * input
        + pos_part b.input.cache_read * cache_read
        + pos_part b.input.cache_write * cache_write
        + pos_part b.output.total * output in
      (pos_part c.uncached_input_tokens
          + pos_part c.cache_read_tokens
          + pos_part c.cache_write_tokens
          + pos_part c.billed_output_tokens
        ≡ pos_part b.total)
      × (cost : ℕ) × (c.total ≡ some cost)
      × (1_000_000 * cost ≤ exact)
      × (exact < 1_000_000 * (cost + 4))
compute_cost_exact price b input output cache_read cache_write v sums applies =
    let rates = tier_of input output cache_read cache_write in
    let (n1, n2, n3, n4) = billable-counts b v in
    let (t1, e1, l1, h1) = count-exact b.input.uncached input n1 in
    let (t2, e2, l2, h2) = count-exact b.input.cache_read cache_read n2 in
    let (t3, e3, l3, h3) = count-exact b.input.cache_write cache_write n3 in
    let (t4, e4, l4, h4) = count-exact b.output.total output n4 in
    (
      compute_cost-tokens price b v sums,
      t1 + t2 + t3 + t4,
      compute_cost-total price b rates t1 t2 t3 t4 v
          (applied_rates-Applies price b.input.total rates applies) e1 e2 e3 e4,
      omega arith,
      omega arith,
    )
