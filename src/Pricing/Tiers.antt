-- ===== src/Pricing/Tiers.antt =====
-- internal/billing/pricing.go, PriceRates: rates that pass the checks resolve to rates that do.
use cpa_plugin_group_billing.Prelude.{◌≡◌, false, arith}
use cpa_plugin_group_billing.Prelude.Int64.{ℤ}
use cpa_plugin_group_billing.Errors.{ok}
use cpa_plugin_group_billing.Float.{Float}
use cpa_plugin_group_billing.Pricing.{
  Rates, Tier, PriceSource, resolve, applied_rates, invalid_price, validate_rates, validate_tier,
}

module _ {F : Type 0} ⦃fl : Float F⦄ where
  -- No rate is negative, infinite or not a number.
  abbrev pub IsValidTier : Tier F → Type 0
  IsValidTier t =
      (invalid_price t.input ≡ false)
      × (invalid_price t.output ≡ false)
      × (invalid_price t.cache_read ≡ false)
      × (invalid_price t.cache_write ≡ false)

  -- Rates that pass the checks give every request valid rates, whether or not its input exceeds the
  -- threshold of the long context, and whether or not the cache rates are set.
  pub validate_rates-applied :
      (r : Rates F) (source : PriceSource) (input : ℤ)
      → validate_rates r ≡ ok tt
      → IsValidTier (applied_rates (resolve r source) input).0
  unfolding validate_rates validate_tier resolve
  validate_rates-applied r source input e = ground arith
