-- ===== src/Prelude/Sort.antt =====
-- Go's `sort.SliceStable`, as insertion behind the values that are not greater.
use mathlib.Core.Bool.{Bool}
use mathlib.Core.List.{List, [], ◌∷◌}
use cpa_plugin_group_billing.Prelude.Tests.{if◌then◌else◌}

module _ {T : Type 0} where
  -- A value goes before the first one that is greater.
  unfoldable pub insert_sorted : (T → T → Bool) → T → List T → List T
  insert_sorted lt x [] = x ∷ []
  insert_sorted lt x (y ∷ ys) =
      let later = y ∷ insert_sorted lt x ys in if lt x y then x ∷ y ∷ ys else later

  -- What is left of a list, each value put behind the ones that are not greater.
  unfoldable pub insert_all : (T → T → Bool) → List T → List T → List T
  insert_all lt [] out = out
  insert_all lt (x ∷ xs) out = insert_all lt xs (insert_sorted lt x out)

  -- `sort.SliceStable`
  abbrev pub sort_stable : (T → T → Bool) → List T → List T
  sort_stable lt xs = insert_all lt xs []
