-- ===== src/Kafka/Discovery.antt =====
-- The finders over the cluster of kafka-access-monitor-operator/internal/discovery/: pod_finder.go,
-- configmap_finder.go, secret_finder.go and authn_enricher.go.
use nacho_operators.Common.{
  String, ◌<>◌, ◌==◌, Option, none, some, List, [], ◌∷◌, ◌++◌, contains, if◌then◌else◌,
  LabelSelector, errorf, wrapped, Result, ok, err, check,
}
use nacho_operators.Common.Dict
use nacho_operators.Common.Dict.{Dict}
use nacho_operators.Common.Strings.{to_lower}
use nacho_operators.Kafka.Types.{
  Pod, Volume, ConfigMap, TenantDetail, ServiceAccountDetail, ListOption, matching_labels_selector,
  in_namespace,
}
use nacho_operators.Kafka.Services.{Services}

-- The names of the mounted config maps, once each.
unfoldable pub config_map_names : List Volume → List String → List String
config_map_names [] names = names
config_map_names (volume ∷ volumes) names = elim volume.config_map [
  | none ↦ config_map_names volumes names
  | some name ↦
      config_map_names volumes (if contains names name then names else names ++ (name ∷ []))
]

-- A secret in a volume of the target name; other volumes of that name are passed over.
unfoldable pub authn_secret : List Volume → String
authn_secret [] = ""
authn_secret (volume ∷ volumes) =
    let rest = authn_secret volumes in
    if volume.name == "mas-stack-authn-sa-volume"
    then elim volume.secret [ none ↦ rest | some name ↦ name ]
    else rest

abbrev orgs : Dict TenantDetail → List String
orgs [] = []
orgs ((key, tenant) ∷ tenants) = tenant.org ∷ orgs tenants

-- The loop that fills the lookup map.
unfoldable pub tenant_map : List ServiceAccountDetail → Dict (List String) → Dict (List String)
tenant_map [] found = found
tenant_map (account ∷ accounts) found = tenant_map accounts (
    Dict.insert (to_lower account.preferred_username) (orgs account.tenants)
      (Dict.insert (to_lower account.client_email) (orgs account.tenants) found))

module _ (S : Services) where
  open S use {
    World, Selector, range_order, is_not_found, label_selector_as_selector, is_empty, list_pods,
    get_config_map, get_secret, unmarshal_service_account, unmarshal_authn,
  }

  abbrev pod_options : Selector → List (ListOption Selector)
  pod_options selector = if is_empty selector then [] else matching_labels_selector selector ∷ []

  unfoldable pub namespace_options : Option LabelSelector → Result (List (ListOption Selector))
  namespace_options none = ok (in_namespace "" ∷ [])
  namespace_options (some given) = elim given.match_labels [
    | [] ↦ ok (in_namespace "" ∷ [])
    | _ ∷ _ ↦
        check (label_selector_as_selector (some given))
          (λ e. err (wrapped "invalid namespace selector: %w" e))
          (λ selector. ok (matching_labels_selector selector ∷ []))
  ]

  -- `PodFinder.ListPods`
  unfoldable pub find_pods : Option LabelSelector → Option LabelSelector → World → Result (List Pod)
  find_pods namespace_selector pod_selector w =
      check (label_selector_as_selector pod_selector)
        (λ e. err (wrapped "invalid pod selector: %w" e))
        λ selector.
          check (namespace_options namespace_selector) err
            λ options. list_pods (pod_options selector ++ options) w

  -- A config map that cannot be read is logged, and passed over.
  unfoldable pub read_config_maps : String → List String → World → List ConfigMap
  read_config_maps namespace [] w = []
  read_config_maps namespace (name ∷ names) w =
      let rest = read_config_maps namespace names w in
      check (get_config_map (record { namespace = namespace; name = name }) w) (λ _. rest)
        (λ cm. cm ∷ rest)

  -- It never returns an error.
  unfoldable pub get_mounted_config_maps : Pod → World → List ConfigMap
  get_mounted_config_maps pod w =
      read_config_maps pod.namespace (range_order w (config_map_names pod.volumes [])) w

  abbrev email_in : Dict String → Result String
  email_in entries = elim (Dict.lookup "authn-service-account.json" entries) [
    | none ↦ err (errorf "secret %s found, but key 'authn-service-account.json' is missing")
    | some json ↦ unmarshal_service_account json
  ]

  unfoldable pub find_authn_service_account_email : Pod → World → Result String
  find_authn_service_account_email pod w =
      let name = authn_secret pod.volumes in
      if name == ""
      then ok ""
      else check (get_secret (record { namespace = pod.namespace; name = name }) w)
          (λ e. if is_not_found e then ok "" else err e) email_in

  unfoldable pub load_and_get_tenant_map : String → World → Result (Dict (List String))
  load_and_get_tenant_map env w =
      check
        (get_config_map
          (record { namespace = "authn-" <> env; name = "authn-configmap-service-accounts-v2" }) w)
        (λ e. err (wrapped "failed to get central authn configmap %s in namespace %s: %w" e))
        λ cm. elim (Dict.lookup "data" cm.entries) [
          | none ↦ err (errorf "central authn configmap %s found, but key 'data' is missing")
          | some json ↦
              check (unmarshal_authn json)
                (λ e. err (wrapped "failed to unmarshal JSON from authn configmap: %w" e))
                (λ accounts. ok (tenant_map accounts []))
        ]
