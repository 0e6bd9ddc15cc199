-- ===== src/Usd/RoundTrip.antt =====
-- The text of an amount parses back to it.
use cpa_plugin_group_billing.Prelude.{
  ℕ, ◌+◌, ◌-◌, ◌*◌, ◌/◌, ◌%◌, ◌^◌, ◌≤◌, ◌<◌, ◌≡◌, refl, sym, ap, subst, ◌∙◌, true, false, some,
  List, [], ◌∷◌, ◌++◌, length, replicate, All-append, arith, ◌==◌, Bool-cases, inl, inr, ==_iff,
}
use cpa_plugin_group_billing.Prelude.Int64.{pos, max_int64}
use cpa_plugin_group_billing.Prelude.Text.{Text, is_empty, text_eq_refl, trim_space}
use cpa_plugin_group_billing.Calendar.{padded}
use cpa_plugin_group_billing.Errors.{ok}
use cpa_plugin_group_billing.Usd.{
  nano, read, digits, format_nat, split_dot, trim_zeros, leading_zero, check_part, check_parts,
  parse_int, to_usd, parse_usd, format_usd, fraction_of,
}
use cpa_plugin_group_billing.Usd.Decimal.{
  Digits, Digits-Plain, digits-Digits, padded-Digits, length-padded, read-append, read-digits,
  read-padded, split_dot-Digits, split_dot-append, trim_space-Plain, trim_zeros-Digits,
  trim_zeros-replicate, length-trim_zeros-le, check_part-Digits, leading_zero-digits,
  is_empty-digits, is_empty-trim_zeros,
}

is_empty-append : (s t : Text) → is_empty s ≡ false → is_empty (s ++ t) ≡ false
is_empty-append [] t h = cc
is_empty-append (c ∷ s) t h = refl

-- Whole digits and nine places read as one number.
read-places :
    (whole fraction : ℕ)
    → whole < 10 ^ 19
    → fraction < 10 ^ 9
    → read 0 (digits 19 whole ++ padded 9 fraction) ≡ whole * nano + fraction
read-places whole fraction h k =
    rw read-append (rw (read-digits 19 whole h) (omega (arith, read-padded 9 whole fraction k)))

parse_int-places :
    (v : ℕ) → v ≤ max_int64 → parse_int (digits 19 (v / nano) ++ padded 9 (v % nano)) ≡ some (pos v)
unfolding parse_int
parse_int-places v h =
    let reads : read 0 (digits 19 (v / nano) ++ padded 9 (v % nano)) ≡ v =
      omega (arith, read-places (v / nano) (v % nano) (omega arith) (omega arith)) in
    rw
      (
        is_empty-append (digits 19 (v / nano)) (padded 9 (v % nano))
            (is_empty-digits 18 (v / nano)),
        reads,
      )
      (ground arith)

-- The steps of `parse_usd` on a text that passes its tests.
parse_usd-parts :
    (value head : Text) (tail : List Text) (v : ℕ)
    → is_empty value ≡ false
    → trim_space value ≡ value
    → split_dot value ≡ (head, tail)
    → length tail ≤ 1
    → is_empty head ≡ false
    → check_parts (head ∷ tail) ≡ ok tt
    → leading_zero head ≡ false
    → length (fraction_of tail) ≤ 9
    → parse_int (head ++ (fraction_of tail ++ replicate (9 - length (fraction_of tail)) b'0'))
      ≡ some (pos v)
    → parse_usd value ≡ ok (pos v)
unfolding parse_usd to_usd
parse_usd-parts value head tail v nonempty trimmed splits few some_head checked no_zero short
      reads =
    rw (nonempty, trimmed, text_eq_refl value, splits, some_head)
      (ground (arith, checked, no_zero, reads))

module _ (v : ℕ) (h : v ≤ max_int64) where
  abbrev whole : Text
  whole = digits 19 (v / nano)

  abbrev places : Text
  places = padded 9 (v % nano)

  whole-Digits : Digits whole
  whole-Digits = digits-Digits 19 (v / nano)

  whole_checked : check_part whole ≡ ok tt
  whole_checked = check_part-Digits whole (is_empty-digits 18 (v / nano)) whole-Digits

  -- An amount in whole dollars.
  parse_usd-whole : (v % nano == 0) ≡ true → parse_usd whole ≡ ok (pos v)
  unfolding check_parts padded
  parse_usd-whole exact =
      parse_usd-parts whole whole [] v (is_empty-digits 18 (v / nano))
        (trim_space-Plain whole (Digits-Plain whole whole-Digits))
        (split_dot-Digits whole whole-Digits) (omega arith) (is_empty-digits 18 (v / nano))
        (rw whole_checked) (leading_zero-digits 18 (v / nano) (omega arith)) (omega arith)
        (subst (λ f. parse_int (whole ++ padded 9 f) ≡ some (pos v)) ((==_iff (v % nano) 0).0 exact)
          (parse_int-places v h))

  -- An amount with a fraction.
  parse_usd-fraction :
      (v % nano == 0) ≡ false → parse_usd (whole ++ b'.' ∷ trim_zeros places) ≡ ok (pos v)
  unfolding check_parts
  parse_usd-fraction inexact =
      let t : Text = trim_zeros places in
      let d : Digits t = trim_zeros-Digits places (padded-Digits 9 (v % nano)) in
      let some_places = is_empty-trim_zeros (v % nano) (omega arith) inexact in
      let nonempty = is_empty-digits 18 (v / nano) in
      let back : t ++ replicate (9 - length t) b'0' ≡ places =
        ap (λ n. t ++ replicate (n - length t) b'0') (sym (length-padded 9 (v % nano)))
        ∙ trim_zeros-replicate places in
      parse_usd-parts (whole ++ b'.' ∷ t) whole (t ∷ []) v (is_empty-append whole _ nonempty)
        (trim_space-Plain _ (
          All-append _ whole (b'.' ∷ t) (Digits-Plain whole whole-Digits)
            (omega arith, Digits-Plain t d)))
        (split_dot-append whole t whole-Digits d) (omega arith) nonempty
        (rw (whole_checked, check_part-Digits t some_places d))
        (leading_zero-digits 18 (v / nano) (omega arith))
        (omega (arith, length-trim_zeros-le places, length-padded 9 (v % nano)))
        (subst (λ p. parse_int (whole ++ p) ≡ some (pos v)) (sym back) (parse_int-places v h))

-- The text of every amount that is not negative, however many places it has, parses back to exactly
-- that amount, up to the largest int64.
pub parse_usd-format_usd : (v : ℕ) → v ≤ max_int64 → parse_usd (format_usd (pos v)) ≡ ok (pos v)
unfolding format_usd format_nat
parse_usd-format_usd v h = elim (Bool-cases (v % nano == 0)) [
  | inl exact ↦ rw exact (parse_usd-whole v h exact)
  | inr inexact ↦ rw inexact (parse_usd-fraction v h inexact)
]
