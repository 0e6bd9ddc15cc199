-- ===== src/Routing/Decision.antt =====
-- internal/billing/routing.go, AllowsCredential: what denials do to a decision.
use cpa_plugin_group_billing.Prelude.{◌≡◌, not, ◌&&◌, ◌∷◌, any, arith}
use cpa_plugin_group_billing.Prelude.Text.{Text, to_lower, trim_space, equal_fold}
use cpa_plugin_group_billing.Routing.{
  Selector, RoutingDecision, may_match, contains_fold, allows_credential,
}

-- The class of a candidate, from what is known of it.
abbrev pub class_of : Text → Text → Selector
class_of source provider = record {
  source = to_lower (trim_space source);
  provider = to_lower (trim_space provider);
}

abbrev pub deny_id : Text → RoutingDecision → RoutingDecision
deny_id x d =
    let r = d.rule in
    record d { rule = record r { denied_credential_ids = x ∷ r.denied_credential_ids } }

abbrev pub deny_class : Selector → RoutingDecision → RoutingDecision
deny_class x d =
    let r = d.rule in
    record d { rule = record r { denied_credential_providers = x ∷ r.denied_credential_providers } }

-- Denying one more credential or class refuses exactly the candidates that it names or may cover, and
-- decides about the others as before.
pub allows_credential-deny :
    (d : RoutingDecision) (id : Text) (class : Selector) (ref source provider : Text)
    → (allows_credential (deny_id id d) ref source provider
        ≡ (not (equal_fold id ref) && allows_credential d ref source provider))
      × (allows_credential (deny_class class d) ref source provider ≡ (
          not (may_match (class_of source provider) class)
          && allows_credential d ref source provider))
unfolding allows_credential contains_fold any
allows_credential-deny d id class ref source provider = ground arith
