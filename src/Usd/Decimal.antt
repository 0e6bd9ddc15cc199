-- ===== src/Usd/Decimal.antt =====
-- Decimal texts: what digits read back to, and texts that neither hold a dot nor begin with a zero.
use mathlib.Core.List.{reverse, reverse-append, reverse-reverse, reverse-cons}
use cpa_plugin_group_billing.Prelude.{
  ℕ, zero, suc, ◌+◌, ◌-◌, ◌*◌, ◌/◌, ◌%◌, ◌^◌, ◌≤◌, ◌<◌, ◌≡◌, refl, sym, ap, ◌∙◌, false, not, [],
  ◌∷◌, ◌++◌, length, length-append, replicate, any, All, All-append, arith, ltb, ◌==◌, Bool-cases,
  inl, inr, ltb→lt, ==_iff,
}
use cpa_plugin_group_billing.Prelude.Text.{Text, is_empty, trim_space, trim_left}
use cpa_plugin_group_billing.Calendar.{padded}
use cpa_plugin_group_billing.Usd.{
  is_digit, split_dot, read, digits, drop_zeros, trim_zeros, leading_zero, check_part,
}
use cpa_plugin_group_billing.Errors.{ok}

abbrev pub Digits : Text → Type 0
Digits = All (λ c. (b'0' ≤ c) × (c ≤ b'9'))

pub read-snoc : (acc : ℕ) (s : Text) (c : ℕ) → read acc (s ++ c ∷ []) ≡ read acc s * 10 + (c - b'0')
unfolding read
read-snoc acc [] c = refl
read-snoc acc (d ∷ s) c = read-snoc (acc * 10 + (d - b'0')) s c

pub read-append : (acc : ℕ) (s t : Text) → read acc (s ++ t) ≡ read (read acc s) t
unfolding read
read-append acc [] t = refl
read-append acc (c ∷ s) t = read-append (acc * 10 + (c - b'0')) s t

-- `10 ^ (k + 1)` by a step.
pow_ten : (k : ℕ) → 10 ^ suc k ≡ 10 * 10 ^ k
pow_ten k = omega arith

pub read-padded : (k acc n : ℕ) → n < 10 ^ k → read acc (padded k n) ≡ acc * 10 ^ k + n
unfolding padded
read-padded zero acc n h = unfold read in omega arith
read-padded (suc k) acc n h = rw read-snoc (
    omega (
      arith,
      read-padded k acc (n / 10) (omega (arith, pow_ten k)),
      ap (λ (t : ℕ). acc * t) (pow_ten k),
    ))

pub read-digits : (f n : ℕ) → n < 10 ^ f → read 0 (digits f n) ≡ n
unfolding digits
read-digits zero n h = unfold read in omega arith
read-digits (suc f) n h = elim (Bool-cases (ltb n 10)) [
  | inl small ↦ rw small (unfold read in omega arith)
  | inr big ↦ rw (big, read-snoc) (omega (arith, read-digits f (n / 10) (omega (arith, pow_ten f))))
]

pub padded-Digits : (k n : ℕ) → Digits (padded k n)
unfolding padded
padded-Digits zero n = tt
padded-Digits (suc k) n =
    All-append _ (padded k (n / 10)) ((b'0' + n % 10) ∷ []) (padded-Digits k (n / 10)) (omega arith)

pub length-padded : (k n : ℕ) → length (padded k n) ≡ k
unfolding padded
length-padded zero n = refl
length-padded (suc k) n =
    omega
      (arith, length-append (padded k (n / 10)) ((b'0' + n % 10) ∷ []), length-padded k (n / 10))

pub digits-Digits : (f n : ℕ) → Digits (digits f n)
unfolding digits
digits-Digits zero n = tt
digits-Digits (suc f) n = elim (Bool-cases (ltb n 10)) [
  | inl small ↦ rw small (omega (arith, ltb→lt n 10))
  | inr big ↦ rw big (
      All-append _ (digits f (n / 10)) ((b'0' + n % 10) ∷ []) (digits-Digits f (n / 10))
        (omega arith))
]

pub check_part-Digits : (p : Text) → is_empty p ≡ false → Digits p → check_part p ≡ ok tt
unfolding check_part
check_part-Digits p nonempty d = rw (nonempty, all_digits p d)
  where
    all_digits : (s : Text) → Digits s → any (λ c. not (is_digit c)) s ≡ false
    all_digits [] h = refl
    all_digits (c ∷ s) h = ground (arith, all_digits s h.1)

-- A text without a dot is one part, and the first dot ends the first part.
pub split_dot-Digits : (s : Text) → Digits s → split_dot s ≡ (s, [])
unfolding split_dot
split_dot-Digits [] d = refl
split_dot-Digits (c ∷ s) d = rw (split_dot-Digits s d.1) (ground arith)

pub split_dot-append : (s t : Text) → Digits s → Digits t → split_dot (s ++ b'.' ∷ t) ≡ (s, t ∷ [])
unfolding split_dot
split_dot-append [] t d e = rw (split_dot-Digits t e) refl
split_dot-append (c ∷ s) t d e = rw (split_dot-append s t d.1 e) (ground arith)

pub All-reverse : (P : ℕ → Type 0) (s : Text) → All P s → All P (reverse s)
All-reverse P [] h = tt
All-reverse P (c ∷ s) (p, h) =
    rw (reverse-cons c s) (All-append P (reverse s) (c ∷ []) (All-reverse P s h) (p, tt))

-- Digits and dots.
abbrev pub Plain : Text → Type 0
Plain = All (λ c. (b'.' ≤ c) × (c ≤ b'9'))

trim_left-Plain : (s : Text) → Plain s → trim_left s ≡ s
unfolding trim_left
trim_left-Plain [] p = refl
trim_left-Plain (c ∷ s) p = ground arith

-- Trimming leaves a plain text alone.
pub trim_space-Plain : (s : Text) → Plain s → trim_space s ≡ s
unfolding trim_space
trim_space-Plain s p =
    ap (λ x. reverse (trim_left (reverse x))) (trim_left-Plain s p)
    ∙ ap reverse (trim_left-Plain (reverse s) (All-reverse _ s p))
    ∙ reverse-reverse s

pub Digits-Plain : (s : Text) → Digits s → Plain s
Digits-Plain [] d = tt
Digits-Plain (c ∷ s) d = (omega arith, Digits-Plain s d.1)

length-drop_zeros-le : (s : Text) → length (drop_zeros s) ≤ length s
unfolding drop_zeros
length-drop_zeros-le [] = omega arith
length-drop_zeros-le (c ∷ s) = ground (arith, length-drop_zeros-le s)

drop_zeros_lem : (s : Text) → replicate (length s - length (drop_zeros s)) b'0' ++ drop_zeros s ≡ s
unfolding drop_zeros
drop_zeros_lem [] = refl
drop_zeros_lem (c ∷ s) = elim (Bool-cases (c == b'0')) [
  | inl zero_digit ↦
      rw (zero_digit, drop_zeros)
        (rw (more (length-drop_zeros-le s)) (cc (drop_zeros_lem s, (==_iff c b'0').0 zero_digit)))
  | inr other ↦ rw (other, drop_zeros) (rw (nothing_less (length s)) refl)
]
  where
    more :
        length (drop_zeros s) ≤ length s
        → suc (length s) - length (drop_zeros s) ≡ suc (length s - length (drop_zeros s))
    more h = omega arith

    nothing_less : (n : ℕ) → suc n - suc n ≡ 0
    nothing_less n = omega arith

replicate-snoc : (n c : ℕ) → replicate n c ++ c ∷ [] ≡ c ∷ replicate n c
replicate-snoc zero c = refl
replicate-snoc (suc n) c = ap (λ s. c ∷ s) (replicate-snoc n c)

reverse-replicate : (n c : ℕ) → reverse (replicate n c) ≡ replicate n c
reverse-replicate zero c = refl
reverse-replicate (suc n) c =
    reverse-cons c (replicate n c)
    ∙ ap (λ s. s ++ c ∷ []) (reverse-replicate n c)
    ∙ replicate-snoc n c

length-reverse : (s : Text) → length (reverse s) ≡ length s
length-reverse [] = refl
length-reverse (c ∷ s) =
    omega
      (arith, ap length (reverse-cons c s), length-append (reverse s) (c ∷ []), length-reverse s)

-- Padding with zeros undoes `trim_zeros`.
pub trim_zeros-replicate :
    (s : Text) → trim_zeros s ++ replicate (length s - length (trim_zeros s)) b'0' ≡ s
unfolding trim_zeros
trim_zeros-replicate s =
    let d : Text = drop_zeros (reverse s) in
    rw (length-reverse d, ← length-reverse s)
      (ap (λ t. reverse d ++ t) (sym (reverse-replicate (length (reverse s) - length d) b'0'))
        ∙ sym (reverse-append (replicate (length (reverse s) - length d) b'0') d)
        ∙ ap reverse (drop_zeros_lem (reverse s))
        ∙ reverse-reverse s)

drop_zeros-Digits : (s : Text) → Digits s → Digits (drop_zeros s)
unfolding drop_zeros
drop_zeros-Digits [] d = tt
drop_zeros-Digits (c ∷ s) d = ground (arith, drop_zeros-Digits s d.1)

pub trim_zeros-Digits : (s : Text) → Digits s → Digits (trim_zeros s)
unfolding trim_zeros
trim_zeros-Digits s d =
    All-reverse _ (drop_zeros (reverse s)) (drop_zeros-Digits (reverse s) (All-reverse _ s d))

pub length-trim_zeros-le : (s : Text) → length (trim_zeros s) ≤ length s
unfolding trim_zeros
length-trim_zeros-le s = omega (
  arith,
  length-drop_zeros-le (reverse s),
  length-reverse (drop_zeros (reverse s)),
  length-reverse s,
)

abbrev StartsNonzero : Text → Type 0
StartsNonzero [] = ⊥
StartsNonzero (c ∷ s) = b'0' < c

StartsNonzero-append : (s t : Text) → StartsNonzero s → StartsNonzero (s ++ t)
StartsNonzero-append [] t h = absurd h
StartsNonzero-append (c ∷ s) t h = h

digits-StartsNonzero : (f n : ℕ) → 0 < n → n < 10 ^ f → StartsNonzero (digits f n)
unfolding digits
digits-StartsNonzero zero n h k = omega arith
digits-StartsNonzero (suc f) n h k = elim (Bool-cases (ltb n 10)) [
  | inl small ↦ rw small (omega arith)
  | inr big ↦ rw big (
      StartsNonzero-append (digits f (n / 10)) _
        (digits-StartsNonzero f (n / 10) (ground arith) (omega (arith, pow_ten f))))
]

leading_zero-StartsNonzero : (s : Text) → StartsNonzero s → leading_zero s ≡ false
leading_zero-StartsNonzero [] h = refl
leading_zero-StartsNonzero (c ∷ []) h = refl
leading_zero-StartsNonzero (c ∷ d ∷ s) h = ground arith

-- The digits of a number never begin with a zero that is not the only digit.
pub leading_zero-digits : (f n : ℕ) → n < 10 ^ suc f → leading_zero (digits (suc f) n) ≡ false
leading_zero-digits f n h = elim (Bool-cases (ltb n 10)) [
  | inl small ↦ unfold digits in rw small refl
  | inr big ↦ leading_zero-StartsNonzero _ (digits-StartsNonzero (suc f) n (ground arith) h)
]

is_empty-snoc : (s : Text) (c : ℕ) → is_empty (s ++ c ∷ []) ≡ false
is_empty-snoc [] c = refl
is_empty-snoc (d ∷ s) c = refl

pub is_empty-digits : (f n : ℕ) → is_empty (digits (suc f) n) ≡ false
unfolding digits
is_empty-digits f n = elim (Bool-cases (ltb n 10)) [
  | inl small ↦ rw small refl
  | inr big ↦ rw big (is_empty-snoc (digits f (n / 10)) (b'0' + n % 10))
]

-- A fraction that is not zero keeps a digit.
pub is_empty-trim_zeros :
    (n : ℕ) → n < 10 ^ 9 → (n == 0) ≡ false → is_empty (trim_zeros (padded 9 n)) ≡ false
unfolding read padded
is_empty-trim_zeros n h k = go (trim_zeros (padded 9 n)) (trim_zeros-replicate (padded 9 n))
  where
    reads : read 0 (padded 9 n) ≡ n
    reads = omega (arith, read-padded 9 0 n h)

    go :
        (t : Text)
        → t ++ replicate (length (padded 9 n) - length t) b'0' ≡ padded 9 n
        → is_empty t ≡ false
    go [] e =
        let zeros : read 0 (replicate 9 b'0') ≡ n =
          ap (λ m. read 0 (replicate m b'0')) (sym (length-padded 9 n)) ∙ ap (read 0) e ∙ reads in
        cc ((==_iff n 0).1 (sym zeros))
    go (c ∷ t) e = refl
