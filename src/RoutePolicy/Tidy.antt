-- ===== src/RoutePolicy/Tidy.antt =====
-- internal/billing/routing.go, resolveRoutingState: what sorting and dropping repetitions leave as it was.
use cpa_plugin_group_billing.Prelude.{
  ◌≡◌, refl, Bool, true, not, ◌||◌, List, [], ◌∷◌, ◌++◌, any, arith,
}
use cpa_plugin_group_billing.Prelude.Text.{is_empty}
use cpa_plugin_group_billing.Prelude.Sort.{insert_sorted, insert_all, sort_stable}
use cpa_plugin_group_billing.RoutePolicy.{compact_from, compact}

module _ {T : Type 0} where
  any-insert_sorted :
      (p : T → Bool) (lt : T → T → Bool) (x : T) (ys : List T)
      → any p (insert_sorted lt x ys) ≡ (p x || any p ys)
  unfolding any insert_sorted
  any-insert_sorted p lt x [] = refl
  any-insert_sorted p lt x (y ∷ ys) = ground (arith, any-insert_sorted p lt x ys)

  any-insert_all :
      (p : T → Bool) (lt : T → T → Bool) (xs out : List T)
      → any p (insert_all lt xs out) ≡ (any p xs || any p out)
  unfolding any insert_all
  any-insert_all p lt [] out = refl
  any-insert_all p lt (x ∷ xs) out =
      ground (arith, any-insert_all p lt xs (insert_sorted lt x out), any-insert_sorted p lt x out)

  -- A test that does not tell equal values apart.
  abbrev pub Respects : (T → T → Bool) → (T → Bool) → Type 0
  Respects eq p = (x y : T) → eq x y ≡ true → p x ≡ p y

  any-compact_from :
      (p : T → Bool) (eq : T → T → Bool) (last : T) (xs : List T)
      → Respects eq p
      → (p last || any p (compact_from eq last xs)) ≡ (p last || any p xs)
  unfolding any compact_from
  any-compact_from p eq last [] r = refl
  any-compact_from p eq last (x ∷ xs) r = ground (arith, r x last, any-compact_from p eq x xs r)

  any-compact :
      (p : T → Bool) (eq : T → T → Bool) (xs : List T)
      → Respects eq p
      → any p (compact eq xs) ≡ any p xs
  unfolding any compact
  any-compact p eq [] r = refl
  any-compact p eq (x ∷ xs) r = any-compact_from p eq x xs r

  pub any-tidied :
      (p : T → Bool) (eq lt : T → T → Bool) (xs : List T)
      → Respects eq p
      → any p (compact eq (sort_stable lt xs)) ≡ any p xs
  unfolding any
  any-tidied p eq lt xs r =
      ground (arith, any-compact p eq (sort_stable lt xs) r, any-insert_all p lt xs [])

  pub is_empty-any : (xs : List T) → is_empty xs ≡ not (any (λ x. true) xs)
  unfolding any
  is_empty-any [] = refl
  is_empty-any (x ∷ xs) = refl

  pub any-append : (p : T → Bool) (xs ys : List T) → any p (xs ++ ys) ≡ (any p xs || any p ys)
  unfolding any
  any-append p [] ys = refl
  any-append p (x ∷ xs) ys = ground (arith, any-append p xs ys)

pub any-or :
    {T : Type 0} (p q : T → Bool) (xs : List T) → any (λ x. p x || q x) xs ≡ (any p xs || any q xs)
unfolding any
any-or p q [] = refl
any-or p q (x ∷ xs) = ground (arith, any-or p q xs)
