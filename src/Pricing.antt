-- ===== src/Pricing.antt =====
-- internal/billing/pricing.go: token usage in non-overlapping buckets, prices per million tokens,
-- and the cost of one request.
pub mod Tiers
pub mod Buckets
pub mod Exact
use cpa_plugin_group_billing.Prelude.{
  ℕ, ◌≡◌, refl, Bool, true, false, not, ◌&&◌, ◌||◌, Option, none, some, if◌then◌else◌,
}
use cpa_plugin_group_billing.Prelude.Int64.{ℤ, pos, ltb_ℤ, leb_ℤ, eqb_ℤ, add64}
use cpa_plugin_group_billing.Errors.{Result, ok, err, invalidf, refuse, ◌>>=◌, ◌>>◌}
use cpa_plugin_group_billing.Float.{Float}

-- `other` is any other text in the field.
pub data Quality : Type 0 where
  complete inconsistent unclassified other : Quality

pub record InputTokens : Type 0 where
  pub total : ℤ
  pub uncached : ℤ
  pub cache_read : ℤ
  pub cache_write : ℤ

pub record OutputTokens : Type 0 where
  pub total : ℤ
  pub non_reasoning : ℤ
  pub reasoning : ℤ

-- `TokenBreakdown`
pub record Breakdown : Type 0 where
  pub quality : Quality
  pub total : ℤ
  pub input : InputTokens
  pub output : OutputTokens
  pub unclassified_tokens : ℤ

abbrev pub known : Quality → Bool
known other = false
known _ = true

abbrev pub is_complete : Quality → Bool
is_complete complete = true
is_complete _ = false

abbrev pub negative : ℤ → Bool
negative n = ltb_ℤ n (pos 0)

abbrev pub any_negative : Breakdown → Bool
any_negative b =
    negative b.total
    || negative b.unclassified_tokens
    || negative b.input.total
    || negative b.input.uncached
    || negative b.input.cache_read
    || negative b.input.cache_write
    || negative b.output.total
    || negative b.output.non_reasoning
    || negative b.output.reasoning

abbrev pub adds_up : Breakdown → Bool
adds_up b =
    eqb_ℤ b.input.total (add64 (add64 b.input.uncached b.input.cache_read) b.input.cache_write)
    && eqb_ℤ b.output.total (add64 b.output.non_reasoning b.output.reasoning)
    && eqb_ℤ b.total (add64 (add64 b.input.total b.output.total) b.unclassified_tokens)

-- `TokenBreakdown.Valid`
unfoldable pub valid : Breakdown → Bool
valid b =
    if not (known b.quality)
    then false
    else if any_negative b
    then false
    else if not (adds_up b)
    then false
    else not (is_complete b.quality) || eqb_ℤ b.unclassified_tokens (pos 0)

-- `TokenBreakdown.Billable`
unfoldable pub billable : Breakdown → Bool
unfolding valid
billable b = valid b && is_complete b.quality

-- `PriceSource`; the texts are those of the constructors.
pub data PriceSource : Type 0 where
  reference none_found custom builtin : PriceSource

pub record LongContext (F : Type 0) : Type 0 where
  pub threshold : ℤ
  pub input : F
  pub output : F
  pub cache_read : Option F
  pub cache_write : Option F

-- `PriceRates`: rates as they are configured.
pub record Rates (F : Type 0) : Type 0 where
  pub input : F
  pub output : F
  pub cache_read : Option F
  pub cache_write : Option F
  pub long_context : Option (LongContext F)

-- The four rates of a resolved price.
pub record Tier (F : Type 0) : Type 0 where
  pub input : F
  pub output : F
  pub cache_read : F
  pub cache_write : F

-- `ResolvedLongContextPrice`
pub record ResolvedTier (F : Type 0) : Type 0 where
  pub threshold : ℤ
  pub rates : Tier F

pub record Price (F : Type 0) : Type 0 where
  pub rates : Tier F
  pub source : PriceSource
  pub long_context : Option (ResolvedTier F)

-- `Cost`, its applied rates in one field.
pub record Cost (F : Type 0) : Type 0 where
  pub multiplier : F
  pub total : F
  pub uncached_input : F
  pub cache_read : F
  pub cache_write : F
  pub output : F
  pub uncached_input_tokens : ℤ
  pub cache_read_tokens : ℤ
  pub cache_write_tokens : ℤ
  pub billed_output_tokens : ℤ
  pub tiered : Bool
  pub long_context : Bool
  pub threshold : ℤ
  pub applied : Tier F

module _ {F : Type 0} where
  abbrev or_rate : Option F → F → F
  or_rate none d = d
  or_rate (some x) d = x

  abbrev pub resolve_tier : Option (LongContext F) → Option (ResolvedTier F)
  resolve_tier none = none
  resolve_tier (some t) = some (record {
    threshold = t.threshold;
    rates = record {
      input = t.input;
      output = t.output;
      cache_read = or_rate t.cache_read t.input;
      cache_write = or_rate t.cache_write t.input;
    };
  })

  -- `PriceRates.resolve`
  unfoldable pub resolve : Rates F → PriceSource → Price F
  resolve r source = record {
    rates = record {
      input = r.input;
      output = r.output;
      cache_read = or_rate r.cache_read r.input;
      cache_write = or_rate r.cache_write r.input;
    };
    source = source;
    long_context = resolve_tier r.long_context;
  }

  -- The rates for a request, and whether they are those of the long context.
  abbrev pub applied_rates : Price F → ℤ → Tier F × Bool × ℤ
  applied_rates p input = elim p.long_context [
    | none ↦ (p.rates, false, pos 0)
    | some t ↦
        if ltb_ℤ t.threshold input
        then (t.rates, true, t.threshold)
        else (p.rates, false, t.threshold)
  ]

  abbrev pub is_some : Option (ResolvedTier F) → Bool
  is_some none = false
  is_some (some t) = true

module _ {F : Type 0} ⦃fl : Float F⦄ where
  abbrev pub float_zero : F
  float_zero = fl.of_int (pos 0)

  unfoldable pub per_million : ℤ → F → F
  per_million tokens price =
      if leb_ℤ tokens (pos 0) || fl.eq price float_zero
      then float_zero
      else fl.times (fl.over (fl.of_int tokens) (fl.of_int (pos 1_000_000))) price

  abbrev pub no_cost : Cost F
  no_cost = record {
    multiplier = float_zero;
    total = float_zero;
    uncached_input = float_zero;
    cache_read = float_zero;
    cache_write = float_zero;
    output = float_zero;
    uncached_input_tokens = pos 0;
    cache_read_tokens = pos 0;
    cache_write_tokens = pos 0;
    billed_output_tokens = pos 0;
    tiered = false;
    long_context = false;
    threshold = pos 0;
    applied = record {
      input = float_zero;
      output = float_zero;
      cache_read = float_zero;
      cache_write = float_zero;
    };
  }

  -- `ComputeCost`
  unfoldable pub compute_cost : Price F → Breakdown → Cost F
  unfolding per_million billable
  compute_cost price b =
      let (rates, long, threshold) = applied_rates price b.input.total in
      let uncached = per_million b.input.uncached rates.input in
      let read = per_million b.input.cache_read rates.cache_read in
      let write = per_million b.input.cache_write rates.cache_write in
      let out = per_million b.output.total rates.output in
      if not (billable b) then no_cost else record {
        multiplier = float_zero;
        total = fl.plus (fl.plus (fl.plus uncached read) write) out;
        uncached_input = uncached;
        cache_read = read;
        cache_write = write;
        output = out;
        uncached_input_tokens = b.input.uncached;
        cache_read_tokens = b.input.cache_read;
        cache_write_tokens = b.input.cache_write;
        billed_output_tokens = b.output.total;
        tiered = is_some price.long_context;
        long_context = long;
        threshold = threshold;
        applied = rates;
      }

  -- `invalidPrice`
  unfoldable pub invalid_price : F → Bool
  invalid_price x = fl.lt x float_zero || fl.is_nan x || fl.is_inf x

  abbrev pub invalid_rate : Option F → Bool
  invalid_rate none = false
  invalid_rate (some x) = invalid_price x

  validate_tier : Option (LongContext F) → Result (Unit {0})
  unfolding invalid_price
  validate_tier none = ok tt
  validate_tier (some t) = do
    refuse (leb_ℤ t.threshold (pos 0)) (invalidf "模型 %q：长上下文阈值必须大于 0")
    refuse (invalid_price t.input || invalid_price t.output)
        (invalidf "模型 %q：长上下文 Token 单价必须是非负有限数")
    refuse (invalid_rate t.cache_read) (invalidf "模型 %q：长上下文缓存读取单价必须是非负有限数")
    refuse (invalid_rate t.cache_write) (invalidf "模型 %q：长上下文缓存写入单价必须是非负有限数")

  -- `PriceRates.validate`
  unfoldable pub validate_rates : Rates F → Result (Unit {0})
  unfolding validate_tier invalid_price
  validate_rates r = do
    refuse (invalid_price r.input || invalid_price r.output) (invalidf "模型 %q：Token 单价必须是非负有限数")
    refuse (invalid_rate r.cache_read) (invalidf "模型 %q：缓存读取单价必须是非负有限数")
    refuse (invalid_rate r.cache_write) (invalidf "模型 %q：缓存写入单价必须是非负有限数")
    validate_tier r.long_context
