-- ===== src/Prices/Edits.antt =====
-- internal/billing/prices.go: the checks and the edits of custom prices.
use cpa_plugin_group_billing.Prelude.{
  ◌≡◌, Option, none, some, ltb, arith, inl, inr, ap, ◌∙◌, if◌then◌else◌,
}
use cpa_plugin_group_billing.Prelude.Table.{
  Table, lookup, insert, delete, lookup-insert, lookup-delete,
}
use cpa_plugin_group_billing.Prelude.Text.{
  Text, text_eq, is_empty, byte_length, trim_space, to_lower,
}
use cpa_plugin_group_billing.Prelude.Trim.{trim_space_idem}
use cpa_plugin_group_billing.Errors.{
  Result, ok, err, invalidf, not_foundf, refuse, ◌>>◌, Result-cases,
}
use cpa_plugin_group_billing.Float.{Float}
use cpa_plugin_group_billing.Models.{normalize_model_id}
use cpa_plugin_group_billing.Prices.{custom_price}
use cpa_plugin_group_billing.Pricing.{validate_rates}
use cpa_plugin_group_billing.State.{CustomPrice}
use cpa_plugin_group_billing.Store.{Store}

-- `Repository.UpsertPrice` and `DeletePrice`: the database after the write, or the error of it.
pub record PriceWriter (F D : Type 0) : Type 0 where
  pub upsert : D → CustomPrice F → Result D
  pub remove : D → Text → Result D

normalize_model_id-trim_space :
    (id : Text) → normalize_model_id (trim_space id) ≡ normalize_model_id id
unfolding normalize_model_id
normalize_model_id-trim_space id = ap to_lower (trim_space_idem id)

module _ {F : Type 0} ⦃fl : Float F⦄ where
  -- `CustomPrice.Validate`
  unfoldable pub validate_price : CustomPrice F → Result (Unit {0})
  validate_price p =
      let id = trim_space p.model_id in
      refuse (is_empty id) (invalidf "模型 ID 不能为空")
      >> refuse (ltb 1024 (byte_length id)) (invalidf "模型 ID 过长")
      >> validate_rates p.rates

module _ {F D : Type 0} where
  -- A write through the repository, if there is one, before the state is changed.
  abbrev written : Store F D → (D → Result D) → Result (Option D)
  written s write = elim s.repo [
    | none ↦ ok none
    | some db ↦ elim (write db) [ err e ↦ err e | ok db' ↦ ok (some db') ]
  ]

  abbrev with_prices : Store F D → Option D → Table (CustomPrice F) → Store F D
  with_prices s repo prices =
      let state = s.state in record s { state = record state { prices = prices }; repo = repo }

  unfoldable pub put_price :
      PriceWriter F D → Store F D → CustomPrice F → Result (CustomPrice F) × Store F D
  put_price writer s price =
      let key = normalize_model_id price.model_id in
      let id : Text = elim (lookup key s.state.prices) [
        | none ↦ price.model_id
        | some p ↦ p.model_id
      ] in
      let price' = record price { model_id = id } in
      elim (written s (λ db. writer.upsert db price')) [
        | err e ↦ (err e, s)
        | ok repo ↦ (ok price', with_prices s repo (insert key price' s.state.prices))
      ]

  -- `DeletePrice`
  unfoldable pub delete_price : PriceWriter F D → Store F D → Text → Result (Unit {0}) × Store F D
  delete_price writer s model =
      let key = normalize_model_id model in
      elim (lookup key s.state.prices) [
        | none ↦ (err (not_foundf "自定义价不存在"), s)
        | some price ↦ elim (written s (λ db. writer.remove db price.model_id)) [
          | err e ↦ (err e, s)
          | ok repo ↦ (ok tt, with_prices s repo (delete key s.state.prices))
        ]
      ]

  -- `UpsertPrice`
  unfoldable pub upsert_price :
      ⦃fl : Float F⦄
      → PriceWriter F D
      → Store F D
      → CustomPrice F
      → Result (CustomPrice F) × Store F D
  upsert_price writer s price =
      let price' = record price { model_id = trim_space price.model_id } in
      elim (validate_price price') [ err e ↦ (err e, s) | ok u ↦ put_price writer s price' ]

  put_price-stored :
      (writer : PriceWriter F D) (s s' : Store F D) (price out : CustomPrice F)
      → put_price writer s price ≡ (ok out, s')
      → (out.rates ≡ price.rates)
        × (s'.state.prices ≡ insert (normalize_model_id price.model_id) out s.state.prices)
  unfolding put_price
  put_price-stored writer s s' price out e = ground arith

  -- A price that is accepted passes the checks of rates and is found, with its rates, under every
  -- spelling of its model; a price of another model is as it was.
  pub upsert_price-stored :
      ⦃fl : Float F⦄ (writer : PriceWriter F D) (s s' : Store F D) (price out : CustomPrice F)
      (model : Text)
      → upsert_price writer s price ≡ (ok out, s')
      → (validate_rates price.rates ≡ ok tt)
        × (out.rates ≡ price.rates)
        × (custom_price s'.state model ≡ (
            if text_eq (normalize_model_id price.model_id) (normalize_model_id model)
            then some out
            else custom_price s.state model))
  unfolding upsert_price validate_price
  upsert_price-stored writer s s' price out model e =
      let price' = record price { model_id = trim_space price.model_id } in
      elim (Result-cases (validate_price price')) [
        | inr (failure, refused) ↦ absurd (ground arith)
        | inl (done, valid) ↦
            let put : put_price writer s price' ≡ (ok out, s') = ground arith in
            let (rates, prices) = put_price-stored writer s s' price' out put in
            let key = normalize_model_id price'.model_id in
            (
              ground arith,
              rates,
              ap (λ m. lookup (normalize_model_id model) m) prices
                  ∙ lookup-insert key (normalize_model_id model) out s.state.prices
                  ∙ ap
                      (λ k.
                        if text_eq k (normalize_model_id model)
                        then some out
                        else custom_price s.state model)
                      (normalize_model_id-trim_space price.model_id),
            )
      ]

  -- A deletion that succeeds leaves no price under any spelling of the model, and keeps the others.
  pub delete_price-gone :
      (writer : PriceWriter F D) (s s' : Store F D) (model other : Text)
      → delete_price writer s model ≡ (ok tt, s')
      → custom_price s'.state other ≡ (
          if text_eq (normalize_model_id model) (normalize_model_id other)
          then none
          else custom_price s.state other)
  unfolding delete_price
  delete_price-gone writer s s' model other e =
      ap (λ m. lookup (normalize_model_id other) m) {x = s'.state.prices}
        {y = delete (normalize_model_id model) s.state.prices} (ground arith)
      ∙ lookup-delete (normalize_model_id model) (normalize_model_id other) s.state.prices
