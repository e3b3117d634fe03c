-- ===== src/Cert/Selectors.antt =====
-- prepareSelectors and matchesSelectors of cert-monitor-operator/internal/controller/
-- certificatemonitor_controller.go, and cert-monitor-operator/pkg/utils/secrets.go.
use nacho_operators.Common.{
  String, Bool, true, false, Option, none, some, List, map, Result, ok, err, check, if◌then◌else◌,
  LabelSelector, NamespacedName,
}
use nacho_operators.Cert.Types.{Spec, Secret}
use nacho_operators.Cert.Services.{Services}

abbrev pub secret_key : Secret → NamespacedName
secret_key secret = record { namespace = secret.namespace; name = secret.name }

module _ (S : Services) where
  open S use {
    World, Selector, label_selector_as_selector, everything, matches, is_empty, is_not_found,
    get_namespace_labels, list_secrets,
  }

  unfoldable pub list_all_secrets : World → Result (List NamespacedName)
  list_all_secrets w = check (list_secrets w) err (λ secrets. ok (map secret_key secrets))

  -- A selector that is not given selects everything.
  unfoldable pub selector_of : Option LabelSelector → Result Selector
  selector_of none = ok everything
  selector_of (some given) = label_selector_as_selector (some given)

  unfoldable pub prepare_selectors : Spec → Result (Selector × Selector)
  prepare_selectors spec =
      check (selector_of spec.namespace_selector) err
        λ ns. check (selector_of spec.secret_selector) err (λ secret. ok (ns, secret))

  -- An empty selector is not asked; a namespace that is gone is no match.
  unfoldable pub matches_namespace : Selector → String → World → Result Bool
  matches_namespace selector namespace w =
      if is_empty selector
      then ok true
      else check (get_namespace_labels namespace w)
          (λ e. if is_not_found e then ok false else err e) (λ ls. ok (matches selector ls))

  unfoldable pub matches_selectors : Selector → Selector → Secret → World → Result Bool
  matches_selectors ns_selector secret_selector secret w =
      check (matches_namespace ns_selector secret.namespace w) err λ in_scope.
        if in_scope
        then if is_empty secret_selector
          then ok true
          else ok (matches secret_selector secret.labels)
        else ok false
