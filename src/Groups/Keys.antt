-- ===== src/Groups/Keys.antt =====
-- The composed keys of the day ledgers and of the group slots tell their parts apart.
use cpa_plugin_group_billing.Prelude.{◌≡◌, ◌≢◌, refl, [], ◌∷◌, ◌++◌, All}
use cpa_plugin_group_billing.Prelude.Text.{Text}
use cpa_plugin_group_billing.Groups.{day_key}

-- No character of the text is NUL.
abbrev pub IsNulFree : Text → Type 0
IsNulFree = All (λ c. c ≢ 0)

pub split_nul :
    (s s' t t' : Text)
    → IsNulFree s
    → IsNulFree s'
    → s ++ 0 ∷ t ≡ s' ++ 0 ∷ t'
    → (s ≡ s') × (t ≡ t')
split_nul [] [] t t' n n' e = (refl, cc)
split_nul [] (c ∷ s') t t' n n' e = absurd (n'.0 (cc))
split_nul (c ∷ s) [] t t' n n' e = absurd (n.0 (cc))
split_nul (c ∷ s) (c' ∷ s') t t' n n' e = let (p, q) = split_nul s s' t t' n.1 n'.1 (cc) in (cc, q)

-- Two ledgers have one key only if they are of one key, one group and one date, where no key and no
-- group holds a NUL.
pub day_key_injective :
    (scope scope' group group' date date' : Text)
    → IsNulFree scope
    → IsNulFree scope'
    → IsNulFree group
    → IsNulFree group'
    → day_key scope group date ≡ day_key scope' group' date'
    → (scope ≡ scope') × (group ≡ group') × (date ≡ date')
unfolding day_key
day_key_injective scope scope' group group' date date' n n' m m' e =
    let (p, rest) = split_nul scope scope' (group ++ 0 ∷ date) (group' ++ 0 ∷ date') n n' e in
    let (q, r) = split_nul group group' date date' m m' rest in (p, q, r)
