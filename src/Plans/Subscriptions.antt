-- ===== src/Plans/Subscriptions.antt =====
-- internal/billing/plan.go: the plan of every key is there, and its cycles are those of the plan's
-- windows; the creation and the deletion of a plan keep it so.
pub mod Updates
pub mod Keys
use cpa_plugin_group_billing.Prelude.{
  ◌+◌, ◌*◌, ◌≡◌, refl, Bool, true, false, ◌&&◌, ◌||◌, Option, some, List, [], ◌∷◌, ◌++◌, any, ◌==◌,
  arith, ap, ◌∙◌, sym, subst, Option-cases, Bool-cases, ◌⊎◌, inl, inr, if◌then◌else◌,
}
use cpa_plugin_group_billing.Prelude.Table.{Table, lookup, insert, delete, Every, insert-Every}
use cpa_plugin_group_billing.Prelude.Int64.{pos_part, eqb_ℤ_iff}
use cpa_plugin_group_billing.Prelude.Text.{
  Text, text_eq, text_eq_iff, text_eq_refl, contains, is_empty,
}
use cpa_plugin_group_billing.Calendar.{second}
use cpa_plugin_group_billing.Plans.{same_schedule}
use cpa_plugin_group_billing.Plans.Edits.{
  moved, keeps_schedule, reset_windows, delete_all, is_selected, joins, update_key, update_keys,
  replace_plan, remove_plan, release_keys, bind_all,
}
use cpa_plugin_group_billing.State.{State, QuotaWindow, Plan, QuotaCycle, KeyState, find_plan_id}
use cpa_plugin_group_billing.Plans.Lookups.{
  find_plan_id-append, find_plan_id-replace_plan, find_plan_id-remove_plan,
}

pub Every-map :
    {V : Type 0} (P Q : Text → V → Type 0) (m : Table V)
    → ((k : Text) → (v : V) → P k v → Q k v)
    → Every P m
    → Every Q m
Every-map P Q [] f h = tt
Every-map P Q ((k, v) ∷ m) f (h, hs) = (f k v h, Every-map P Q m f hs)

pub any_mono :
    {T : Type 0} (p q : T → Bool) (xs : List T)
    → ((x : T) → p x ≡ true → q x ≡ true)
    → any p xs ≡ true
    → any q xs ≡ true
unfolding any
any_mono p q [] f e = e
any_mono p q (x ∷ xs) f e = ground (arith, f x, any_mono p q xs f)

pub some-injective : {A : Type 0} (a b : A) → some a ≡ some b → a ≡ b
some-injective a b e = cc

module _ {F : Type 0} where
  -- A window that a cycle under an identifier may belong to: it has that identifier, and the cycle
  -- lasts its period.
  abbrev pub is_window_of : Text → QuotaCycle F → QuotaWindow F → Bool
  is_window_of id c w =
      text_eq w.id id && (c.end_at == c.start_at + pos_part w.period_seconds * second)

  -- A cycle of the plan with the windows.
  abbrev pub Fits : List (QuotaWindow F) → Text → Text → QuotaCycle F → Type 0
  Fits windows plan_id id c = (c.plan_id ≡ plan_id) × (any (is_window_of id c) windows ≡ true)

  -- A key without a plan has no cycles; the plan of another one is there, and each of its cycles is one
  -- of a window of the plan.
  abbrev pub IsSubscribed : List (Plan F) → KeyState F → Type 0
  IsSubscribed plans key =
      ((key.plan_id ≡ []) × (key.cycles ≡ []))
      ⊎ ((plan : Plan F) × (find_plan_id plans key.plan_id ≡ some plan)
          × Every (Fits plan.windows key.plan_id) key.cycles)

  abbrev pub AllSubscribed : List (Plan F) → Table (KeyState F) → Type 0
  AllSubscribed plans keys = Every (λ scope key. IsSubscribed plans key) keys

  abbrev pub HasSubscriptions : State F → Type 0
  HasSubscriptions s = AllSubscribed s.plans s.keys

  pub lookup-IsSubscribed :
      (plans : List (Plan F)) (scope : Text) (key : KeyState F) (keys : Table (KeyState F))
      → AllSubscribed plans keys
      → lookup scope keys ≡ some key
      → IsSubscribed plans key
  unfolding lookup
  lookup-IsSubscribed plans scope key [] h e = absurd cc
  lookup-IsSubscribed plans scope key ((j, k) ∷ keys) (h, hs) e =
      elim (Bool-cases (text_eq j scope)) [
        | inl same ↦ let it : k ≡ key = ground arith in subst (IsSubscribed plans) it h
        | inr apart ↦ lookup-IsSubscribed plans scope key keys hs (rw (apart, lookup) at e)
      ]

  -- A key stays subscribed where the lookups of plans find what they found.
  pub IsSubscribed-kept :
      (ps ps' : List (Plan F)) (key : KeyState F)
      → ((p : Plan F)
          → find_plan_id ps key.plan_id ≡ some p
          → find_plan_id ps' key.plan_id ≡ some p)
      → IsSubscribed ps key
      → IsSubscribed ps' key
  IsSubscribed-kept ps ps' key kept (inl free) = inl free
  IsSubscribed-kept ps ps' key kept (inr (p, found, fits)) = inr (p, kept p found, fits)

  pub create-AllSubscribed :
      (ps : List (Plan F)) (new : Plan F) (keys : Table (KeyState F))
      → AllSubscribed ps keys
      → AllSubscribed (ps ++ new ∷ []) keys
  create-AllSubscribed ps new keys =
      Every-map (λ scope key. IsSubscribed ps key) (λ scope key. IsSubscribed (ps ++ new ∷ []) key)
        keys
        (λ scope key.
          IsSubscribed-kept ps (ps ++ new ∷ []) key
            (λ p found. find_plan_id-append ps new p key.plan_id found))

  pub moved-IsSubscribed :
      (ps : List (Plan F)) (p : Plan F) (id : Text) (key : KeyState F)
      → find_plan_id ps id ≡ some p
      → IsSubscribed ps (moved id key)
  moved-IsSubscribed ps p id key found = inr (p, found, tt)

  pub bind_all-AllSubscribed :
      (ps : List (Plan F)) (p : Plan F) (id : Text) (scopes : List Text) (keys : Table (KeyState F))
      → find_plan_id ps id ≡ some p
      → AllSubscribed ps keys
      → AllSubscribed ps (bind_all id scopes keys)
  unfolding bind_all
  bind_all-AllSubscribed ps p id [] keys found h = h
  bind_all-AllSubscribed ps p id (scope ∷ rest) keys found h =
      elim (Option-cases (lookup scope keys)) [
        | inl missing ↦ rw (missing, bind_all) (bind_all-AllSubscribed ps p id rest keys found h)
        | inr (key, there) ↦
            rw (there, bind_all)
              (bind_all-AllSubscribed ps p id rest (insert scope (moved id key) keys) found (
                insert-Every (λ scope key. IsSubscribed ps key) scope (moved id key) keys
                  (moved-IsSubscribed ps p id key found) h))
      ]

  release-IsSubscribed :
      (ps : List (Plan F)) (id : Text) (key : KeyState F)
      → text_eq key.plan_id id ≡ false
      → IsSubscribed ps key
      → IsSubscribed (remove_plan id ps) key
  release-IsSubscribed ps id key apart = IsSubscribed-kept ps (remove_plan id ps) key (λ p found.
      find_plan_id-remove_plan id key.plan_id ps
        (ground (arith, text_eq_iff key.plan_id id, text_eq_iff id key.plan_id))
      ∙ found)

  pub release_keys-AllSubscribed :
      (ps : List (Plan F)) (id : Text) (keys : Table (KeyState F))
      → AllSubscribed ps keys
      → AllSubscribed (remove_plan id ps) (release_keys id keys).0
  unfolding release_keys
  release_keys-AllSubscribed ps id [] h = tt
  release_keys-AllSubscribed ps id ((scope, key) ∷ keys) (h, hs) =
      let rest = release_keys-AllSubscribed ps id keys hs in
      elim (Bool-cases (text_eq key.plan_id id)) [
        | inl here ↦ rw (here, release_keys) (inl (refl, refl), rest)
        | inr apart ↦ rw (apart, release_keys) (release-IsSubscribed ps id key apart h, rest)
      ]
