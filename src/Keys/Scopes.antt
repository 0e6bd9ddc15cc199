-- ===== src/Keys/Scopes.antt =====
-- internal/billing/keys.go, normalizeScopes and dedupe: the list of keys that an operator names.
use cpa_plugin_group_billing.Prelude.{◌||◌, List, [], ◌∷◌, map, if◌then◌else◌}
use cpa_plugin_group_billing.Prelude.Text.{Text, is_empty, trim_space, to_lower, contains}
use cpa_plugin_group_billing.State.{normalize_scope}

-- The loop of `dedupe`: the lower-case texts seen and the values left.
unfoldable pub dedupe_loop : List Text → List Text → List Text
unfolding contains
dedupe_loop seen [] = []
dedupe_loop seen (value ∷ rest) =
    let v = trim_space value in
    let skip = dedupe_loop seen rest in
    let keep = v ∷ dedupe_loop (to_lower v ∷ seen) rest in
    if is_empty v || contains (to_lower v) seen then skip else keep

-- `dedupe`
abbrev pub dedupe : List Text → List Text
dedupe values = dedupe_loop [] values

-- `normalizeScopes`
unfoldable pub normalize_scopes : List Text → List Text
normalize_scopes scopes = dedupe (map normalize_scope scopes)
