-- ===== src/Prelude/Table.antt =====
-- A Go map with text keys, as an association list: a lookup finds the first entry of its key.
use mathlib.Core.Path.{◌≡◌, refl}
use mathlib.Core.List.{List, [], ◌∷◌}
use mathlib.Core.Option.{Option, none, some}
use native.Mathlib.Omega.{arith}
use cpa_plugin_group_billing.Prelude.Tests.{if◌then◌else◌}
use cpa_plugin_group_billing.Prelude.Text.{Text, text_eq, text_eq_iff, text_eq_refl}

abbrev pub Table {ℓ} : Type ℓ → Type ℓ
Table V = List (Text × V)

module _ {ℓ} {V : Type ℓ} where
  unfoldable pub lookup : Text → Table V → Option V
  unfolding text_eq
  lookup k [] = none
  lookup k ((j, v) ∷ m) = if text_eq j k then some v else lookup k m

  unfoldable pub insert : Text → V → Table V → Table V
  unfolding text_eq
  insert k v [] = (k, v) ∷ []
  insert k v ((j, w) ∷ m) = if text_eq j k then (k, v) ∷ m else (j, w) ∷ insert k v m

  -- `delete(m, k)`: no entry of the key is left.
  unfoldable pub delete : Text → Table V → Table V
  unfolding text_eq
  delete k [] = []
  delete k ((j, w) ∷ m) = let rest = delete k m in if text_eq j k then rest else (j, w) ∷ rest

  pub lookup-insert :
      (k j : Text) (v : V) (m : Table V)
      → lookup j (insert k v m) ≡ (if text_eq k j then some v else lookup j m)
  unfolding lookup insert
  lookup-insert k j v [] = refl
  lookup-insert k j v ((i, w) ∷ m) =
      ground (arith, text_eq_iff k j, text_eq_iff i k, text_eq_iff i j, lookup-insert k j v m)

  pub lookup-delete :
      (k j : Text) (m : Table V)
      → lookup j (delete k m) ≡ (if text_eq k j then none else lookup j m)
  unfolding lookup delete
  lookup-delete k j [] = ground arith
  lookup-delete k j ((i, w) ∷ m) =
      ground (arith, text_eq_iff k j, text_eq_iff i k, text_eq_iff i j, lookup-delete k j m)

  pub lookup-insert_self : (k : Text) (v : V) (m : Table V) → lookup k (insert k v m) ≡ some v
  lookup-insert_self k v m = simp (lookup-insert, text_eq_refl)

  -- Every entry of a table, at its key.
  abbrev pub Every {κ} : (Text → V → Type κ) → Table V → Type κ
  Every P [] = Unit
  Every P ((k, v) ∷ m) = P k v × Every P m

  pub insert-Every {κ} :
      (P : Text → V → Type κ) (k : Text) (v : V) (m : Table V)
      → P k v
      → Every P m
      → Every P (insert k v m)
  unfolding insert
  insert-Every P k v [] p q = (p, tt)
  insert-Every P k v ((j, w) ∷ m) p (a, q) = ground (arith, insert-Every P k v m p q)
