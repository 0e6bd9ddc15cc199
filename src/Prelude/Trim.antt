-- ===== src/Prelude/Trim.antt =====
-- `strings.TrimSpace` leaves a text that it has trimmed as it is.
use mathlib.Core.Path.{◌≡◌, refl, ap, sym, ◌∙◌, subst}
use mathlib.Core.Bool.{false}
use mathlib.Core.List.{[], ◌∷◌, ◌++◌, reverse, reverse-cons, reverse-append, reverse-reverse}
use Prim.Native.Nat.{ℕ}
use mathlib.Core.Logic.{inl, inr}
use cpa_plugin_group_billing.Prelude.Tests.{Bool-cases}
use cpa_plugin_group_billing.Prelude.Text.{Text, is_space, trim_left, trim_space}

-- The text is empty or begins with a character that is no space.
StartsBare : Text → Type 0
StartsBare [] = Unit
StartsBare (c ∷ s) = is_space c ≡ false

trim_left_bare : (s : Text) → StartsBare s → trim_left s ≡ s
unfolding trim_left StartsBare
trim_left_bare [] h = refl
trim_left_bare (c ∷ s) h = rw (h, trim_left) refl

trim_left-StartsBare : (s : Text) → StartsBare (trim_left s)
unfolding trim_left StartsBare
trim_left-StartsBare [] = tt
trim_left-StartsBare (c ∷ s) = elim (Bool-cases (is_space c)) [
  | inl space ↦ rw (space, trim_left) (trim_left-StartsBare s)
  | inr bare ↦ rw (bare, trim_left) bare
]

-- A last character that is no space stays.
trim_left-snoc :
    (s : Text) (c : ℕ) → is_space c ≡ false → (t : Text) × (trim_left (s ++ c ∷ []) ≡ t ++ c ∷ [])
unfolding trim_left
trim_left-snoc [] c bare = ([], rw (bare, trim_left) refl)
trim_left-snoc (d ∷ s) c bare = elim (Bool-cases (is_space d)) [
  | inl space ↦ rw (space, trim_left) (trim_left-snoc s c bare)
  | inr other ↦ (d ∷ s, rw (other, trim_left) refl)
]

-- What is trimmed on the right.
trim_right : Text → Text
trim_right s = reverse (trim_left (reverse s))

trim_right-StartsBare : (s : Text) → StartsBare s → StartsBare (trim_right s)
unfolding StartsBare trim_right trim_left
trim_right-StartsBare [] h = tt
trim_right-StartsBare (c ∷ s) h =
    let (t, e) = trim_left-snoc (reverse s) c h in
    let whole =
      ap (λ l. reverse (trim_left l)) (reverse-cons c s)
      ∙ ap reverse e
      ∙ reverse-append t (c ∷ []) in
    subst StartsBare (sym whole) h

trim_right_idem : (s : Text) → trim_right (trim_right s) ≡ trim_right s
unfolding trim_right
trim_right_idem s =
    ap (λ l. reverse (trim_left l)) (reverse-reverse (trim_left (reverse s)))
    ∙ ap reverse (trim_left_bare (trim_left (reverse s)) (trim_left-StartsBare (reverse s)))

pub trim_space_idem : (s : Text) → trim_space (trim_space s) ≡ trim_space s
unfolding trim_space trim_right
trim_space_idem s =
    let t = trim_left s in
    ap trim_right (trim_left_bare (trim_right t) (trim_right-StartsBare t (trim_left-StartsBare s)))
    ∙ trim_right_idem t

-- Nor one that begins and ends with characters that are no spaces.
pub trim_bare :
    (c : ℕ) (s : Text) (d : ℕ)
    → is_space c ≡ false
    → is_space d ≡ false
    → trim_space (c ∷ s ++ d ∷ []) ≡ c ∷ s ++ d ∷ []
unfolding trim_space StartsBare
trim_bare c s d bc bd =
    let t = c ∷ s ++ d ∷ [] in
    let back : reverse t ≡ d ∷ reverse (c ∷ s) = reverse-append (c ∷ s) (d ∷ []) in
    ap (λ u. reverse (trim_left (reverse u))) (trim_left_bare t bc)
    ∙ ap (λ u. reverse (trim_left u)) back
    ∙ ap reverse (trim_left_bare (d ∷ reverse (c ∷ s)) bd)
    ∙ ap reverse (sym back)
    ∙ reverse-reverse t
