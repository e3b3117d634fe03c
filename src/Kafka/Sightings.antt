-- ===== src/Kafka/Sightings.antt =====
-- Which pods the loop over the pods reports.
use nacho_operators.Common.{
  length, subst, Bool-cases, String, ◌≡◌, refl, ◌↔◌, ◌⊎◌, inl, inr, true, false, List, [], ◌∷◌,
  ◌++◌, arith, if◌then◌else◌, Any, Any-append→, Any-append←,
}
use nacho_operators.Common.Dict.{Dict}
use nacho_operators.Common.Int.{ℤ}
use nacho_operators.Kafka.Types.{Spec, Pod}
use nacho_operators.Kafka.Services.{Services}
use nacho_operators.Kafka.Discovery.{get_mounted_config_maps}
use nacho_operators.Kafka.Inspect.{
  Infos, Findings, findings, Seen, env_infos, config_infos, is_inspected, inspect_pod, inspect_pods,
}
use nacho_operators.Kafka.PodEntries.{
  SetsVariable, HasConfigs, IsOf, IsThat, env_infos→, env_infos←, config_infos→, config_infos←,
}

module _ (S : Services) (w : S.World) (spec : Spec) (tenants : Dict (List String)) (since : ℤ) where
  -- The pod runs, and it sets brokers in a variable of a container or mounts a configuration.
  abbrev pub Uses : Pod → Type 0
  Uses pod =
      (is_inspected pod ≡ true)
      × (Any (SetsVariable S w spec.environment_variable_names pod.namespace)
            (pod.containers ++ pod.init_containers)
          ⊎ Any (HasConfigs S w) (get_mounted_config_maps S pod w))

  module _ (namespace name : String) where
    abbrev Reports : Infos → Type 0
    Reports = Any (IsOf S w namespace name)

    -- A pod of that name uses Kafka.
    abbrev pub UsesThere : Pod → Type 0
    UsesThere pod = IsThat S w namespace name pod × Uses pod

    module _ (pod : Pod) (seen : Seen) where
      f : Findings
      f = findings S spec tenants since pod (length seen.slices) w

      by_variables : Infos
      by_variables = env_infos S f spec (pod.containers ++ pod.init_containers) w

      by_maps : Infos
      by_maps = config_infos S f (get_mounted_config_maps S pod w)

      inspect_pod→ :
          is_inspected pod ≡ true
          → Reports (inspect_pod S spec tenants since pod w seen).infos
          → Reports seen.infos ⊎ UsesThere pod
      unfolding inspect_pod f by_variables by_maps
      inspect_pod→ r h =
          elim (Any-append→ (IsOf S w namespace name) (seen.infos ++ by_variables) by_maps h) [
            | inl a ↦ elim (Any-append→ (IsOf S w namespace name) seen.infos by_variables a) [
              | inl b ↦ inl b
              | inr b ↦
                  let (i, v) =
                    env_infos→ S w namespace name f spec (pod.containers ++ pod.init_containers)
                      b in
                  inr (i, (r, inl v))
            ]
            | inr a ↦
                let (i, c) =
                  config_infos→ S w namespace name f (get_mounted_config_maps S pod w) a in
                inr (i, (r, inr c))
          ]

      inspect_pod← :
          Reports seen.infos ⊎ UsesThere pod
          → Reports (inspect_pod S spec tenants since pod w seen).infos
      unfolding inspect_pod f by_variables by_maps
      inspect_pod← h =
          Any-append← (IsOf S w namespace name) (seen.infos ++ by_variables) by_maps (by_source h)
        where
          by_source :
              Reports seen.infos ⊎ UsesThere pod
              → Reports (seen.infos ++ by_variables) ⊎ Reports by_maps
          by_source (inl a) =
              inl (Any-append← (IsOf S w namespace name) seen.infos by_variables (inl a))
          by_source (inr (i, (r, inl v))) = inl (
              Any-append← (IsOf S w namespace name) seen.infos by_variables (
                inr (
                  env_infos← S w namespace name f spec (pod.containers ++ pod.init_containers) i
                    v)))
          by_source (inr (i, (r, inr c))) =
              inr (config_infos← S w namespace name f (get_mounted_config_maps S pod w) i c)

    -- The body of the loop.
    abbrev next : Pod → Seen → Seen
    next pod seen = if is_inspected pod then inspect_pod S spec tenants since pod w seen else seen

    next-inspected :
        (pod : Pod) (seen : Seen)
        → is_inspected pod ≡ true
        → next pod seen ≡ inspect_pod S spec tenants since pod w seen
    next-inspected pod seen p = rw p refl

    next→ :
        (pod : Pod) (seen : Seen)
        → Reports (next pod seen).infos
        → Reports seen.infos ⊎ UsesThere pod
    next→ pod seen h = elim (Bool-cases (is_inspected pod)) [
      | inl p ↦
          inspect_pod→ pod seen p
            (subst (λ (s : Seen). Reports s.infos) (next-inspected pod seen p) h)
      | inr p ↦ inl (rw p at h)
    ]

    next← :
        (pod : Pod) (seen : Seen)
        → Reports seen.infos ⊎ UsesThere pod
        → Reports (next pod seen).infos
    next← pod seen h = elim (Bool-cases (is_inspected pod)) [
      | inl p ↦ rw p (inspect_pod← pod seen h)
      | inr p ↦ rw p (by_source p h)
    ]
      where
        by_source :
            is_inspected pod ≡ false → Reports seen.infos ⊎ UsesThere pod → Reports seen.infos
        by_source p (inl a) = a
        by_source p (inr (i, (r, u))) = absurd (ground arith)

    inspect_pods→ :
        (pods : List Pod) (seen : Seen)
        → Reports (inspect_pods S spec tenants since pods w seen).infos
        → Reports seen.infos ⊎ Any UsesThere pods
    unfolding inspect_pods
    inspect_pods→ [] seen h = inl h
    inspect_pods→ (pod ∷ pods) seen h = elim (inspect_pods→ pods (next pod seen) h) [
      | inl a ↦ elim (next→ pod seen a) [ inl b ↦ inl b | inr b ↦ inr (inl b) ]
      | inr a ↦ inr (inr a)
    ]

    inspect_pods← :
        (pods : List Pod) (seen : Seen)
        → Reports seen.infos ⊎ Any UsesThere pods
        → Reports (inspect_pods S spec tenants since pods w seen).infos
    unfolding inspect_pods
    inspect_pods← [] seen (inl h) = h
    inspect_pods← [] seen (inr h) = absurd h
    inspect_pods← (pod ∷ pods) seen (inl h) =
        inspect_pods← pods (next pod seen) (inl (next← pod seen (inl h)))
    inspect_pods← (pod ∷ pods) seen (inr (inl h)) =
        inspect_pods← pods (next pod seen) (inl (next← pod seen (inr h)))
    inspect_pods← (pod ∷ pods) seen (inr (inr h)) = inspect_pods← pods (next pod seen) (inr h)

    -- The loop has an entry for a pod of that name exactly if one of the pods with that name is
    -- running, is not being deleted, and uses Kafka: a container of it, an init container included,
    -- has a variable that is searched, whose value, its own or that of a readable config map, is not
    -- empty; or a readable config map other than "cadence" that it mounts has a YAML file in which the
    -- rules find brokers.
    pub inspect_pods_iff :
        (pods : List Pod)
        → Any
            (IsOf S w namespace name)
            (inspect_pods S spec tenants since pods w (record { slices = []; infos = [] })).infos
          ↔ Any UsesThere pods
    inspect_pods_iff pods = (
      (λ h. elim (inspect_pods→ pods (record { slices = []; infos = [] }) h) [
        | inl a ↦ absurd a
        | inr a ↦ a
      ]),
      (λ h. inspect_pods← pods (record { slices = []; infos = [] }) (inr h)),
    )
