-- ===== src/Prices/Resolution.antt =====
-- internal/billing/prices.go and builtin_prices.go: the price of a model, from the custom prices, the
-- built-in ones and the reference prices.
use cpa_plugin_group_billing.Prelude.{
  ℕ, Bool, true, false, not, Option, none, some, [], ◌∷◌, if◌then◌else◌,
}
use cpa_plugin_group_billing.Prelude.Int64.{pos}
use cpa_plugin_group_billing.Prelude.Table.{Table, lookup}
use cpa_plugin_group_billing.Prelude.Text.{Text, codes}
use cpa_plugin_group_billing.Errors.{Error, Result, ok, err, storage}
use cpa_plugin_group_billing.Float.{Float}
use cpa_plugin_group_billing.Models.{normalize_model_id}
use cpa_plugin_group_billing.Prices.{custom_price, resolve_billing_model}
use cpa_plugin_group_billing.Pricing.{Rates, Price, none_found, custom, builtin, reference, resolve}
use cpa_plugin_group_billing.State.{State, CustomPrice}

-- What the lookup of a reference price gave: an error or the rates that it found, whether the database
-- of reference prices was replaced meanwhile, and the state as it is read after the lookup.
pub record Referenced (F : Type 0) : Type 0 where
  pub found : Result (Option (Rates F))
  pub switched : Bool
  pub later : State F

abbrev switched_database : Error
switched_database = record { kind = storage; message = "参考价数据库已切换，请重试" }

module _ {F : Type 0} ⦃fl : Float F⦄ where
  abbrev whole : ℕ → F
  whole n = fl.of_int (pos n)

  -- A constant that is a quotient of whole numbers, and is exact.
  abbrev ratio : ℕ → ℕ → F
  ratio a b = fl.over (whole a) (whole b)

  -- `builtinPrices`
  unfoldable pub builtin_prices : Table (CustomPrice F)
  builtin_prices =
      (
        codes "codex-auto-review",
        record {
          model_id = codes "codex-auto-review";
          rates = record {
            input = ratio 5 2;
            output = whole 15;
            cache_read = some (ratio 1 4);
            cache_write = none;
            long_context = some (record {
              threshold = pos 272_000;
              input = whole 5;
              output = ratio 45 2;
              cache_read = some (ratio 1 2);
              cache_write = none;
            });
          };
        },
      )
      ∷ (
        codes "gpt-image-1.5",
        record {
          model_id = codes "gpt-image-1.5";
          rates = record {
            input = whole 5;
            output = whole 32;
            cache_read = some (ratio 5 4);
            cache_write = none;
            long_context = none;
          };
        },
      )
      ∷ []

  -- `Price{Source: PriceSourceNone}`
  abbrev pub no_price : Price F
  no_price = record {
    rates = record {
      input = whole 0;
      output = whole 0;
      cache_read = whole 0;
      cache_write = whole 0;
    };
    source = none_found;
    long_context = none;
  }

  -- `ResolveBuiltinPrice`
  unfoldable pub resolve_builtin_price : Text → Price F
  unfolding builtin_prices
  resolve_builtin_price model = elim (lookup (normalize_model_id model) builtin_prices) [
    | none ↦ no_price
    | some price ↦ resolve price.rates builtin
  ]

  -- `ResolveCustomPrice`
  unfoldable pub resolve_custom_price : State F → Text → Price F
  resolve_custom_price s model = elim (custom_price s model) [
    | none ↦ no_price
    | some price ↦ resolve price.rates custom
  ]

  abbrev pub is_missing : Price F → Bool
  is_missing p = elim p.source [ none_found ↦ true | _ ↦ false ]

  -- The price of the plugin's own tables: a custom one first, then a built-in one.
  unfoldable pub resolve_local : State F → Text → Price F
  resolve_local s model =
      let p = resolve_custom_price s model in
      if is_missing p then resolve_builtin_price model else p

  abbrev pub found_price : Result (Option (Rates F)) → Result (Price F)
  found_price (err e) = err e
  found_price (ok none) = ok no_price
  found_price (ok (some rates)) = ok (resolve rates reference)

  -- `ResolveModelPrice`: the price or an error, and the model. The plugin's tables are read again after
  -- the lookup of a reference price.
  unfoldable pub resolve_model_price :
      State F → Referenced F → Text → Text → Result (Price F) × Text
  resolve_model_price s io upstream requested =
      let model = resolve_billing_model s upstream requested in
      let p = resolve_local s model in
      let model' = resolve_billing_model io.later upstream requested in
      let p' = resolve_local io.later model' in
      if not (is_missing p)
      then (ok p, model)
      else if io.switched
      then (err switched_database, model')
      else if not (is_missing p')
      then (ok p', model')
      else (found_price io.found, model')
