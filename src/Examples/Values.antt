-- ===== src/Examples/Values.antt =====
-- The theorems on amounts, prices, rules and identifiers, at small values.
use cpa_plugin_group_billing.Prelude.{◌+◌, ◌≡◌, inl, ℕ, ◌*◌, ◌≤◌, ◌<◌, refl, none, some, arith}
use cpa_plugin_group_billing.Prelude.Int64.{pos, pos_part, add64}
use cpa_plugin_group_billing.Errors.{ok}
use cpa_plugin_group_billing.Examples.{tokens_100}
use cpa_plugin_group_billing.Float.{Nanos, nanos_float}
use cpa_plugin_group_billing.Pricing.{
  Rates, Price, custom, valid, billable, compute_cost, resolve, applied_rates, validate_rates,
  invalid_price,
}
use cpa_plugin_group_billing.Pricing.Exact.{Applies, tier_of, compute_cost_exact}
use cpa_plugin_group_billing.Pricing.Tiers.{IsValidTier, validate_rates-applied}
use cpa_plugin_group_billing.Usd.{parse_usd, format_usd}
use cpa_plugin_group_billing.Usd.RoundTrip.{parse_usd-format_usd}

parse_usd-format_usd_example : parse_usd (format_usd (pos 1_500_000_000)) ≡ ok (pos 1_500_000_000)
parse_usd-format_usd_example = parse_usd-format_usd 1_500_000_000 (omega arith)

abbrev rates_r : Rates Nanos
rates_r = record {
  input = some 1_000_000_000;
  output = some 2_000_000_000;
  cache_read = none;
  cache_write = none;
  long_context = some (record {
    threshold = pos 50;
    input = some 3_000_000_000;
    output = some 4_000_000_000;
    cache_read = some (some 100_000_000);
    cache_write = none;
  });
}

abbrev price_r : Price Nanos
unfolding resolve
price_r = resolve rates_r custom

long_rates :
    Applies price_r (pos 60) (tier_of 3_000_000_000 4_000_000_000 100_000_000 3_000_000_000)
unfolding resolve
long_rates = inl (
  record {
    threshold = pos 50;
    rates = tier_of 3_000_000_000 4_000_000_000 100_000_000 3_000_000_000;
  },
  refl,
  refl,
  refl,
)

compute_cost_exact_example :
    let c = compute_cost price_r tokens_100 in
    let exact = 50 * 3_000_000_000 + 10 * 100_000_000 + 0 * 3_000_000_000 + 40 * 4_000_000_000 in
    (pos_part c.uncached_input_tokens
        + pos_part c.cache_read_tokens
        + pos_part c.cache_write_tokens
        + pos_part c.billed_output_tokens
      ≡ 100)
    × (cost : ℕ) × (c.total ≡ some cost)
    × (1_000_000 * cost ≤ exact)
    × (exact < 1_000_000 * (cost + 4))
unfolding billable valid add64
compute_cost_exact_example =
    compute_cost_exact price_r tokens_100 3_000_000_000 4_000_000_000 100_000_000 3_000_000_000 refl
      ((omega arith), (omega arith), (omega arith)) long_rates

validate_rates-applied_example : IsValidTier (applied_rates (resolve rates_r custom) (pos 60)).0
unfolding validate_rates invalid_price
validate_rates-applied_example = validate_rates-applied rates_r custom (pos 60) refl
