-- ===== src/Identity.antt =====
-- internal/billing/identity.go: identifiers made from names, and masked keys.
pub mod FreeId
pub mod Bare
use mathlib.Core.List.{reverse}
use cpa_plugin_group_billing.Prelude.{
  ℕ, zero, suc, ◌+◌, ◌-◌, ◌≡◌, refl, Bool, true, false, not, ◌&&◌, ◌||◌, Option, none, some, List,
  [], ◌∷◌, ◌++◌, any, ltb, leb, ◌==◌, length, take, drop, replicate, if◌then◌else◌,
}
use cpa_plugin_group_billing.Prelude.Table.{Table, lookup}
use cpa_plugin_group_billing.Prelude.Text.{Text, codes, is_empty, byte_length, trim_space, to_lower}
use cpa_plugin_group_billing.Usd.{digits}

is_letter : ℕ → Bool
is_letter c = leb b'a' c && leb c b'z'

is_slug : ℕ → Bool
unfolding is_letter
is_slug c = is_letter c || (leb b'0' c && leb c b'9')

-- The loop of `slugify`: the text left, whether the last character written is a hyphen, and the
-- characters written so far.
slug_loop : Text → Bool → Text → Text
slug_loop [] hyphen out = out
slug_loop (c ∷ s) hyphen out =
    let keep = slug_loop s false (out ++ c ∷ []) in
    let skip = slug_loop s hyphen out in
    let break = slug_loop s true (out ++ b'-' ∷ []) in
    if is_slug c then keep else if not hyphen && not (is_empty out) then break else skip

drop_hyphens : Text → Text
drop_hyphens [] = []
drop_hyphens (c ∷ s) = elim (c == b'-') [ true ↦ drop_hyphens s | false ↦ c ∷ s ]

-- `strings.Trim(s, "-")`
trim_hyphens : Text → Text
unfolding drop_hyphens
trim_hyphens s = reverse (drop_hyphens (reverse (drop_hyphens s)))

-- `slugify`
unfoldable pub slugify : Text → Text
unfolding slug_loop is_slug trim_hyphens
slugify value =
    let slug = trim_hyphens (slug_loop (to_lower (trim_space value)) false []) in
    if ltb 48 (length slug) then trim_hyphens (take 48 slug) else slug

-- `fmt.Sprintf("%s-%d", base, i)`
unfoldable pub numbered : Text → ℕ → Text
unfolding digits
numbered base i = base ++ b'-' ∷ digits 19 i

-- The first numbered name from `i` on that is not taken, in the given number of attempts.
unfoldable pub first_free : ℕ → Text → (Text → Bool) → ℕ → Option Text
first_free zero base taken i = none
first_free (suc f) base taken i =
    let later = first_free f base taken (i + 1) in
    if taken (numbered base i) then later else some (numbered base i)

-- `freeID`; the last loop has no bound in the source and takes fuel here.
unfoldable pub free_id : ℕ → Text → Text → (Text → Bool) → Option Text
unfolding slugify is_letter
free_id fuel name prefix taken =
    let base = slugify name in
    let fallback = first_free fuel prefix taken 1 in
    if any is_letter base
    then if taken base
      then elim (first_free 998 base taken 2) [ some id ↦ some id | none ↦ fallback ]
      else some base
    else fallback

abbrev pub is_key_of {ℓ} : {V : Type ℓ} → Table V → Text → Bool
is_key_of m id = elim (lookup id m) [ none ↦ false | some v ↦ true ]

abbrev pub or_empty : Option Text → Text
or_empty none = []
or_empty (some id) = id

-- `freeID` over the keys of a map: one attempt more than the map has keys is enough.
unfoldable pub new_id {ℓ} : {V : Type ℓ} → Table V → Text → Text → Text
new_id m name prefix = or_empty (free_id (length m + 1) name prefix (is_key_of m))

-- `PreviewKey`; the key is the bytes of an ASCII text.
unfoldable pub preview_key : Text → Text
preview_key key =
    let k = trim_space key in
    if is_empty k
    then []
    else if leb (length k) 12
    then replicate (length k) b'*'
    else take 6 k ++ 0x2026 ∷ drop (length k - 4) k

slugs :
    (slugify (codes " GPT 5.1 / Pro! ") ≡ codes "gpt-5-1-pro")
    × (slugify (codes "--a--") ≡ codes "a")
    × (free_id 3 (codes "Team A") (codes "group") (λ id. false) ≡ some (codes "team-a"))
    × (free_id 3 (codes "42") (codes "group") (λ id. false) ≡ some (codes "group-1"))
unfolding slugify free_id first_free numbered to_lower trim_space any
slugs = (refl, refl, refl, refl)
