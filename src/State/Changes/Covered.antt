-- ===== src/State/Changes/Covered.antt =====
-- internal/billing/repository.go, Changes.merge: what the merged changes name is what either names.
use cpa_plugin_group_billing.Prelude.{◌≡◌, refl, ◌∙◌, false, ◌||◌, List, [], ◌∷◌, ◌++◌, arith}
use cpa_plugin_group_billing.Prelude.Table.{lookup}
use cpa_plugin_group_billing.Prelude.Text.{Text, text_eq_iff, contains}
use cpa_plugin_group_billing.State.{State}
use cpa_plugin_group_billing.State.Changes.{Changes, merge_keys, is_unchanged, bounded, merge}

pub contains-append :
    (k : Text) (xs ys : List Text) → contains k (xs ++ ys) ≡ (contains k xs || contains k ys)
unfolding contains
contains-append k [] ys = refl
contains-append k (x ∷ xs) ys = ground (arith, contains-append k xs ys)

-- No key is lost when duplicates are left out.
contains-merge_keys :
    (k : Text) (seen xs : List Text)
    → contains k (merge_keys seen xs) ≡ false
    → contains k seen ≡ false
    → contains k xs ≡ false
unfolding merge_keys contains
contains-merge_keys k seen [] h n = refl
contains-merge_keys k seen (x ∷ xs) h n =
    ground
      (arith, text_eq_iff x k, contains-merge_keys k seen xs, contains-merge_keys k (x ∷ seen) xs)

contains-union :
    (k : Text) (xs ys : List Text)
    → contains k (merge_keys [] (xs ++ ys)) ≡ false
    → (contains k xs ≡ false) × (contains k ys ≡ false)
unfolding contains
contains-union k xs ys h =
    ground (arith, contains-append k xs ys, contains-merge_keys k [] (xs ++ ys) h refl)

module _ {F : Type 0} where
  -- Two states differ in the rows that the changes name at most.
  abbrev pub IsCovered : Changes F → State F → State F → Type 0
  IsCovered c s t =
      (c.plans ≡ false → s.plans ≡ t.plans)
      × (c.routes ≡ false → s.routes ≡ t.routes)
      × (c.config_credentials ≡ false → s.config_credentials ≡ t.config_credentials)
      × (c.group_labels ≡ false → s.grouped.labels ≡ t.grouped.labels)
      × (c.grouped_config ≡ false → s.grouped.groups ≡ t.grouped.groups)
      × (c.grouped_config ≡ false → s.grouped.plans ≡ t.grouped.plans)
      × (c.grouped_config ≡ false → s.grouped.bindings ≡ t.grouped.bindings)
      × ((k : Text)
          → contains k c.group_days ≡ false
          → lookup k s.grouped.days ≡ lookup k t.grouped.days)
      × ((k : Text)
          → c.all_keys ≡ false
          → contains k c.keys ≡ false
          → lookup k s.keys ≡ lookup k t.keys)

  flags-merge :
      (c n : Changes F)
      → ((merge c n).plans ≡ false → (c.plans ≡ false) × (n.plans ≡ false))
        × ((merge c n).routes ≡ false → (c.routes ≡ false) × (n.routes ≡ false))
        × ((merge c n).config_credentials ≡ false
            → (c.config_credentials ≡ false) × (n.config_credentials ≡ false))
        × ((merge c n).group_labels ≡ false → (c.group_labels ≡ false) × (n.group_labels ≡ false))
        × ((merge c n).grouped_config ≡ false
            → (c.grouped_config ≡ false) × (n.grouped_config ≡ false))
  unfolding merge bounded is_unchanged
  flags-merge c n = ground arith

  days-merge :
      (c n : Changes F) (k : Text)
      → contains k (merge c n).group_days ≡ false
      → (contains k c.group_days ≡ false) × (contains k n.group_days ≡ false)
  unfolding merge bounded is_unchanged contains
  days-merge c n k h = ground (arith, contains-union k c.group_days n.group_days)

  keys-merge :
      (c n : Changes F) (k : Text)
      → (merge c n).all_keys ≡ false
      → contains k (merge c n).keys ≡ false
      → (c.all_keys ≡ false)
        × (contains k c.keys ≡ false)
        × (n.all_keys ≡ false)
        × (contains k n.keys ≡ false)
  unfolding merge bounded is_unchanged contains
  keys-merge c n k a h = ground (arith, contains-union k c.keys n.keys)

  -- Changes that cover two steps cover the way from the first state to the last once they are merged:
  -- nothing that either step changed is left out of what the repository is asked to save.
  pub merge-IsCovered :
      (c n : Changes F) (s t u : State F)
      → IsCovered c s t
      → IsCovered n t u
      → IsCovered (merge c n) s u
  merge-IsCovered c n s t u (cp, cr, cc_, cl, cg, cq, cb, cd, ck)
        (np, nr, nc, nl, ng, nq, nb, nd, nk) =
      let (fp, fr, fc, fl, fg) = flags-merge c n in
      (
        (λ h. cp (fp h).0 ∙ np (fp h).1),
        (λ h. cr (fr h).0 ∙ nr (fr h).1),
        (λ h. cc_ (fc h).0 ∙ nc (fc h).1),
        (λ h. cl (fl h).0 ∙ nl (fl h).1),
        (λ h. cg (fg h).0 ∙ ng (fg h).1),
        (λ h. cq (fg h).0 ∙ nq (fg h).1),
        (λ h. cb (fg h).0 ∙ nb (fg h).1),
        (λ k h. let (a, b) = days-merge c n k h in cd k a ∙ nd k b),
        (λ k h i. let (a, b, d, e) = keys-merge c n k h i in ck k a b ∙ nk k d e),
      )
