-- ===== src/Usd.antt =====
-- internal/billing/group_types.go: amounts in nano-USD, their decimal text, and checked sums.
pub mod Decimal
pub mod RoundTrip
pub mod Bounds
use Prim.Native.Nat.{◌<◌}
use mathlib.Core.List.{reverse}
use cpa_plugin_group_billing.Prelude.{
  ℕ, zero, suc, ◌+◌, ◌-◌, ◌*◌, ◌/◌, ◌%◌, ◌≡◌, refl, Bool, true, false, not, ◌&&◌, ◌||◌, Option,
  none, some, List, [], ◌∷◌, ◌++◌, length, replicate, any, ltb, leb, ◌==◌, if◌then◌else◌,
}
use cpa_plugin_group_billing.Prelude.Int64.{ℤ, pos, negsuc, ltb_ℤ, add64, sub64, max_int64}
use cpa_plugin_group_billing.Prelude.Text.{Text, codes, text_eq, is_empty, trim_space}
use cpa_plugin_group_billing.Calendar.{padded}
use cpa_plugin_group_billing.Errors.{Result, ok, err, invalidf, refuse, ◌>>=◌, ◌>>◌}
use cpa_plugin_group_billing.Float.{Float}

-- An int64 count of nano-USD.
abbrev pub Usd : Type 0
Usd = ℤ

abbrev pub nano : ℕ
nano = 1_000_000_000

unfoldable pub is_digit : ℕ → Bool
is_digit c = leb b'0' c && leb c b'9'

-- `strings.Split(value, ".")`: the first part and the parts behind it.
pub split_dot : Text → Text × List Text
split_dot [] = ([], [])
split_dot (c ∷ s) = let (p, ps) = split_dot s in if c == b'.' then ([], p ∷ ps) else (c ∷ p, ps)

-- The value of a text of digits, read from the left.
unfoldable pub read : ℕ → Text → ℕ
read acc [] = acc
read acc (c ∷ s) = read (acc * 10 + (c - b'0')) s

-- `strconv.ParseInt(s, 10, 64)` of a text that holds digits only.
pub parse_int : Text → Option ℤ
unfolding read
parse_int s = let n = read 0 s in if is_empty s || ltb max_int64 n then none else some (pos n)

pub check_part : Text → Result (Unit {0})
unfolding is_digit any
check_part p = do
  refuse (is_empty p) (invalidf "金额格式错误")
  refuse (any (λ c. not (is_digit c)) p) (invalidf "金额不能为负数或指数格式")

pub check_parts : List Text → Result (Unit {0})
unfolding check_part
check_parts [] = ok tt
check_parts (p ∷ ps) = check_part p >> check_parts ps

abbrev pub leading_zero : Text → Bool
leading_zero (c ∷ d ∷ s) = c == b'0'
leading_zero _ = false

abbrev pub fraction_of : List Text → Text
fraction_of (p ∷ []) = p
fraction_of _ = []

-- The whole and nine places as one text of digits.
abbrev pub units : Text → List Text → Text
units head tail = head ++ (fraction_of tail ++ replicate (9 - length (fraction_of tail)) b'0')

pub to_usd : Text → Result Usd
unfolding parse_int
to_usd s = elim (parse_int s) [ none ↦ err (invalidf "金额超出 nano-USD 整数范围") | some n ↦ ok n ]

-- `ParseUSD`
unfoldable pub parse_usd : Text → Result Usd
parse_usd value = do
  refuse (is_empty value || not (text_eq (trim_space value) value)) (invalidf "金额必须为十进制字符串")
  let (head, tail) = split_dot value
  refuse (ltb 2 (length tail + 1) || is_empty head) (invalidf "金额格式错误")
  check_parts (head ∷ tail)
  refuse (leading_zero head) (invalidf "金额格式错误")
  refuse (ltb 9 (length (fraction_of tail))) (invalidf "金额最多保留 9 位小数")
  to_usd (units head tail)

-- The digits of a number, most significant first; nineteen are enough for an int64.
unfoldable pub digits : ℕ → ℕ → Text
digits zero n = []
digits (suc f) n =
    let more = digits f (n / 10) in
    if ltb n 10 then (b'0' + n) ∷ [] else more ++ (b'0' + n % 10) ∷ []

-- `strconv.FormatInt(n, 10)` of an int64 that is not negative.
pub format_nat : ℕ → Text
unfolding digits
format_nat n = digits 19 n

pub drop_zeros : Text → Text
drop_zeros [] = []
drop_zeros (c ∷ s) = elim (c == b'0') [ true ↦ drop_zeros s | false ↦ c ∷ s ]

-- `strings.TrimRight(s, "0")`
pub trim_zeros : Text → Text
unfolding drop_zeros
trim_zeros s = reverse (drop_zeros (reverse s))

-- `USD.String`. Go's quotient and remainder carry the sign of a negative amount, and `%09d` counts
-- it as one of the nine places.
unfoldable pub format_usd : Usd → Text
format_usd (pos n) =
    let whole = n / nano in
    let fraction = n % nano in
    if fraction == 0
    then format_nat whole
    else format_nat whole ++ b'.' ∷ trim_zeros (padded 9 fraction)
format_usd (negsuc m) =
    let n = m + 1 in
    let whole = n / nano in
    let fraction = n % nano in
    let sign : Text = if whole == 0 then [] else b'-' ∷ [] in
    let places : Text = if ltb fraction 100_000_000 then padded 8 fraction else padded 9 fraction in
    if fraction == 0
    then sign ++ format_nat whole
    else sign ++ (format_nat whole ++ b'.' ∷ b'-' ∷ trim_zeros places)

-- `addGroupCount`: `none` is the result `(0, false)`.
unfoldable pub add_group_count : ℤ → ℤ → Option ℤ
unfolding add64 sub64
add_group_count a b =
    if ltb_ℤ a (pos 0) || ltb_ℤ b (pos 0) || ltb_ℤ (sub64 (pos max_int64) b) a
    then none
    else some (add64 a b)

-- `costUSD`: `none` is the result `(0, false)`.
unfoldable pub cost_usd {ℓ} : {F : Type ℓ} ⦃fl : Float F⦄ → F → Option Usd
cost_usd ⦃fl⦄ value =
    let n = fl.round (fl.times value (fl.of_int (pos nano))) in
    if fl.lt value (fl.of_int (pos 0)) || fl.is_nan value || fl.is_inf value
    then none
    else if fl.le (fl.of_int (pos max_int64)) n
    then none
    else some (fl.to_int n)

parses :
    (parse_usd (codes "0.5") ≡ ok (pos 500_000_000))
    × (parse_usd (codes "9223372036.854775807") ≡ ok (pos max_int64))
    × (parse_usd (codes "01") ≡ err (invalidf "金额格式错误"))
    × (parse_usd (codes "-1") ≡ err (invalidf "金额不能为负数或指数格式"))
    × (parse_usd (codes "9223372036.854775808") ≡ err (invalidf "金额超出 nano-USD 整数范围"))
unfolding parse_usd split_dot check_parts to_usd trim_space text_eq
parses = (refl, refl, refl, refl, refl)

formats :
    (format_usd (pos 1_500_000_000) ≡ codes "1.5")
    × (format_usd (pos 3_000_000_000) ≡ codes "3")
    × (format_usd (pos 7) ≡ codes "0.000000007")
unfolding format_usd format_nat padded trim_zeros
formats = (refl, refl, refl)
