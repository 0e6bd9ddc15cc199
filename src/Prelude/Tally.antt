-- ===== src/Prelude/Tally.antt =====
-- How many entries of a table with distinct keys pass a test, and what an insertion and a deletion
-- change of that.
use Prim.Native.Nat.{ℕ, ◌+◌}
use mathlib.Core.Path.{◌≡◌, refl, ap}
use mathlib.Core.Bool.{Bool, true, false}
use mathlib.Core.List.{[], ◌∷◌}
use mathlib.Core.Option.{none, some}
use native.Mathlib.Omega.{arith}
use cpa_plugin_group_billing.Prelude.Table.{
  Table, lookup, insert, delete, lookup-insert, lookup-delete,
}
use cpa_plugin_group_billing.Prelude.Text.{Text, text_eq_iff}

abbrev pub one_if : Bool → ℕ
one_if true = 1
one_if false = 0

module _ {ℓ} {V : Type ℓ} where
  -- No key stands twice.
  abbrev pub IsUnique : Table V → Type ℓ
  IsUnique [] = Unit
  IsUnique ((k, v) ∷ m) = (lookup k m ≡ none) × IsUnique m

  unfoldable pub tally : (V → Bool) → Table V → ℕ
  tally p [] = 0
  tally p ((k, v) ∷ m) = one_if (p v) + tally p m

  pub insert-IsUnique : (k : Text) (v : V) (m : Table V) → IsUnique m → IsUnique (insert k v m)
  unfolding insert lookup
  insert-IsUnique k v [] u = (refl, tt)
  insert-IsUnique k v ((j, w) ∷ m) u =
      ground
        (arith, text_eq_iff j k, text_eq_iff k j, lookup-insert k j v m, insert-IsUnique k v m u.1)

  pub delete-IsUnique : (k : Text) (m : Table V) → IsUnique m → IsUnique (delete k m)
  unfolding delete lookup
  delete-IsUnique k [] u = tt
  delete-IsUnique k ((j, w) ∷ m) u =
      ground (arith, text_eq_iff k j, lookup-delete k j m, delete-IsUnique k m u.1)

  -- A new key adds its entry.
  pub tally-insert :
      (p : V → Bool) (k : Text) (v : V) (m : Table V)
      → lookup k m ≡ none
      → tally p (insert k v m) ≡ tally p m + one_if (p v)
  unfolding tally insert lookup
  tally-insert p k v [] h = omega arith
  tally-insert p k v ((j, w) ∷ m) h = ground (arith, tally-insert p k v m)

  tally-delete_absent :
      (p : V → Bool) (k : Text) (m : Table V) → lookup k m ≡ none → tally p (delete k m) ≡ tally p m
  unfolding tally delete lookup
  tally-delete_absent p k [] h = refl
  tally-delete_absent p k ((j, w) ∷ m) h = ground (arith, tally-delete_absent p k m)

  -- A deleted key takes its entry away.
  pub tally-delete :
      (p : V → Bool) (k : Text) (v : V) (m : Table V)
      → IsUnique m
      → lookup k m ≡ some v
      → tally p (delete k m) + one_if (p v) ≡ tally p m
  unfolding tally delete lookup
  tally-delete p k v [] u h = cc
  tally-delete p k v ((j, w) ∷ m) u h = ground (
    arith,
    text_eq_iff j k,
    tally-delete p k v m u.1,
    tally-delete_absent p k m,
    ap (λ (t : Text). lookup t m) {x = j} {y = k},
  )
