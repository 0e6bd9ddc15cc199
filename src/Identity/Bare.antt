-- ===== src/Identity/Bare.antt =====
-- internal/billing/identity.go: a numbered name is trimmed as it is.
use cpa_plugin_group_billing.Prelude.{
  ℕ, suc, ◌+◌, ◌/◌, ◌%◌, ◌≡◌, refl, true, false, [], ◌∷◌, ◌++◌, arith, sym, ap, subst, ◌∙◌, ltb,
  Bool-cases, inl, inr,
}
use cpa_plugin_group_billing.Prelude.Text.{Text, is_space, trim_space}
use cpa_plugin_group_billing.Prelude.Trim.{trim_bare}
use cpa_plugin_group_billing.Identity.{numbered}
use cpa_plugin_group_billing.Usd.{digits}

digit-bare : (d : ℕ) → ltb d 10 ≡ true → is_space (b'0' + d) ≡ false
unfolding is_space
digit-bare d lt = ground arith

append-snoc : (s t : Text) (c d : ℕ) → s ++ c ∷ (t ++ d ∷ []) ≡ (s ++ c ∷ t) ++ d ∷ []
append-snoc [] t c d = refl
append-snoc (b ∷ s) t c d = ap (◌∷◌ b) (append-snoc s t c d)

digits-snoc :
    (f n : ℕ) → (t : Text) × (d : ℕ) × (ltb d 10 ≡ true) × (digits (suc f) n ≡ t ++ (b'0' + d) ∷ [])
unfolding digits
digits-snoc f n = elim (Bool-cases (ltb n 10)) [
  | inl small ↦ ([], n, small, rw (small, digits) refl)
  | inr big ↦ (digits f (n / 10), n % 10, ground arith, rw (big, digits) refl)
]

pub numbered-trimmed :
    (c : ℕ) (base : Text) (i : ℕ)
    → is_space c ≡ false
    → trim_space (numbered (c ∷ base) i) ≡ numbered (c ∷ base) i
unfolding numbered
numbered-trimmed c base i bare =
    let (t, d, small, e) = digits-snoc 18 i in
    let whole = ap (λ s. c ∷ base ++ b'-' ∷ s) e ∙ append-snoc (c ∷ base) t b'-' (b'0' + d) in
    subst (λ s. trim_space s ≡ s) (sym whole)
      (trim_bare c (base ++ b'-' ∷ t) (b'0' + d) bare (digit-bare d small))
