-- ===== src/Kafka/PodEntries.antt =====
-- When the variables and the config maps of a pod give an entry.
use nacho_operators.Common.{
  ℕ, subst, String, ◌==◌, ◌≡◌, refl, sym, ◌≢◌, inl, inr, eq_iff, Bool, true, false, Option, none,
  some, List, [], ◌∷◌, arith, Any, Any-append→, Any-append←,
}
use nacho_operators.Common.Strings.{join}
use nacho_operators.Kafka.Parser.{KafkaConfigDetails, parse}
use nacho_operators.Kafka.Types.{Spec, PodAccessInfo, Pod, Container, ConfigMap}
use nacho_operators.Kafka.Services.{Services}
use nacho_operators.Kafka.Inspect.{
  Findings, is_yaml, check_container_env_vars, env_info, config_info, env_infos, entry_infos,
  config_infos,
}
use nacho_operators.Kafka.Variables.{SetsBrokers, check_vars→, check_vars←}

module _ (S : Services) (w : S.World) where
  -- A variable of the container is searched and names brokers.
  abbrev pub SetsVariable : List String → String → Container → Type 0
  SetsVariable searched namespace container = Any (SetsBrokers S w searched namespace) container.env

  -- A YAML file in which the rules find brokers.
  abbrev pub HasConfig : String × String → Type 0
  HasConfig (key, content) =
      (is_yaml key ≡ true)
      × ((details : KafkaConfigDetails) × (parse S.rules S.unmarshal_yaml content ≡ some details))

  abbrev pub HasConfigs : ConfigMap → Type 0
  HasConfigs cm = (cm.name ≢ "cadence") × Any HasConfig cm.entries

  module _ (namespace name : String) where
    abbrev pub IsOf : PodAccessInfo ℕ → Type 0
    IsOf info = (info.namespace ≡ namespace) × (info.pod_name ≡ name)

    abbrev pub IsThat : Pod → Type 0
    IsThat pod = (pod.namespace ≡ namespace) × (pod.name ≡ name)

    -- An entry for the findings of a pod is one for that pod.
    env_infos-passes :
        (f : Findings) (spec : Spec) (container : Container) (containers : List Container)
        → (check_container_env_vars S f.pod container spec w).0 ≡ []
        → env_infos S f spec (container ∷ containers) w ≡ env_infos S f spec containers w
    unfolding env_infos
    env_infos-passes f spec container containers p = rw (env_infos, p) refl

    env_infos-finds :
        (f : Findings) (spec : Spec) (container : Container) (containers : List Container)
        (e : String) (es : List String)
        → (check_container_env_vars S f.pod container spec w).0 ≡ e ∷ es
        → env_infos S f spec (container ∷ containers) w
          ≡ env_info f container
              (e ∷ es)
              (join (check_container_env_vars S f.pod container spec w).1 "; ")
            ∷ env_infos S f spec containers w
    unfolding env_infos
    env_infos-finds f spec container containers e es p = rw (env_infos, p) refl

    pub env_infos→ :
        (f : Findings) (spec : Spec) (containers : List Container)
        → Any IsOf (env_infos S f spec containers w)
        → IsThat f.pod
          × Any (SetsVariable spec.environment_variable_names f.pod.namespace) containers
    unfolding env_infos env_info check_container_env_vars
    env_infos→ f spec [] h = absurd h
    env_infos→ f spec (container ∷ containers) h =
        by_endpoints (check_container_env_vars S f.pod container spec w).0 refl
          (env_infos→ f spec containers)
      where
        Later : Type 0
        Later =
            Any IsOf (env_infos S f spec containers w)
            → IsThat f.pod
              × Any (SetsVariable spec.environment_variable_names f.pod.namespace) containers

        by_endpoints :
            (endpoints : List String)
            → (check_container_env_vars S f.pod container spec w).0 ≡ endpoints
            → Later
            → IsThat f.pod
              × Any
                  (SetsVariable spec.environment_variable_names f.pod.namespace)
                  (container ∷ containers)
        by_endpoints [] p later =
            let (i, a) =
              later (subst (Any IsOf) (env_infos-passes f spec container containers p) h) in
            (i, inr a)
        by_endpoints (e ∷ es) p later =
            elim (subst (Any IsOf) (env_infos-finds f spec container containers e es p) h) [
              | inl i ↦ (
                i,
                inl (
                    check_vars→ S w spec.environment_variable_names f.pod.namespace container.env
                      (λ q. cc)),
              )
              | inr a ↦ let (i, found) = later a in (i, inr found)
            ]

    pub env_infos← :
        (f : Findings) (spec : Spec) (containers : List Container)
        → IsThat f.pod
        → Any (SetsVariable spec.environment_variable_names f.pod.namespace) containers
        → Any IsOf (env_infos S f spec containers w)
    unfolding env_infos env_info check_container_env_vars
    env_infos← f spec [] i h = h
    env_infos← f spec (container ∷ containers) i h =
        by_endpoints (check_container_env_vars S f.pod container spec w).0 refl h
          (env_infos← f spec containers i)
      where
        by_endpoints :
            (endpoints : List String)
            → (check_container_env_vars S f.pod container spec w).0 ≡ endpoints
            → Any
                (SetsVariable spec.environment_variable_names f.pod.namespace)
                (container ∷ containers)
            → (Any (SetsVariable spec.environment_variable_names f.pod.namespace) containers
                → Any IsOf (env_infos S f spec containers w))
            → Any IsOf (env_infos S f spec (container ∷ containers) w)
        by_endpoints [] p (inl sets) later =
            absurd
              (check_vars← S w spec.environment_variable_names f.pod.namespace container.env sets p)
        by_endpoints [] p (inr a) later =
            subst (Any IsOf) (sym (env_infos-passes f spec container containers p)) (later a)
        by_endpoints (e ∷ es) p a later =
            subst (Any IsOf) (sym (env_infos-finds f spec container containers e es p)) (inl i)

    entry_infos→ :
        (f : Findings) (cm_name : String) (entries : List (String × String))
        → Any IsOf (entry_infos S f cm_name entries)
        → IsThat f.pod × Any HasConfig entries
    unfolding entry_infos config_info
    entry_infos→ f cm_name [] h = absurd h
    entry_infos→ f cm_name ((key, content) ∷ entries) h =
        by_file (is_yaml key) (parse S.rules S.unmarshal_yaml content) refl refl h
          (entry_infos→ f cm_name entries)
      where
        by_file :
            (b : Bool) (o : Option KafkaConfigDetails)
            → is_yaml key ≡ b
            → parse S.rules S.unmarshal_yaml content ≡ o
            → Any IsOf (entry_infos S f cm_name ((key, content) ∷ entries))
            → (Any IsOf (entry_infos S f cm_name entries) → IsThat f.pod × Any HasConfig entries)
            → IsThat f.pod × Any HasConfig ((key, content) ∷ entries)
        by_file false o p q = rw p (λ h ih. let (i, a) = ih h in (i, inr a))
        by_file true none p q = rw (p, q) (λ h ih. let (i, a) = ih h in (i, inr a))
        by_file true (some details) p q =
            rw (p, q)
              (λ h ih. elim h [
                | inl i ↦ (i, inl (refl, (details, refl)))
                | inr a ↦ let (i, found) = ih a in (i, inr found)
              ])

    entry_infos← :
        (f : Findings) (cm_name : String) (entries : List (String × String))
        → IsThat f.pod
        → Any HasConfig entries
        → Any IsOf (entry_infos S f cm_name entries)
    unfolding entry_infos config_info
    entry_infos← f cm_name [] i h = h
    entry_infos← f cm_name ((key, content) ∷ entries) i (inl (p, (details, q))) = rw (p, q) (inl i)
    entry_infos← f cm_name ((key, content) ∷ entries) i (inr h) =
        by_file (is_yaml key) (parse S.rules S.unmarshal_yaml content) refl refl
          (entry_infos← f cm_name entries i h)
      where
        by_file :
            (b : Bool) (o : Option KafkaConfigDetails)
            → is_yaml key ≡ b
            → parse S.rules S.unmarshal_yaml content ≡ o
            → Any IsOf (entry_infos S f cm_name entries)
            → Any IsOf (entry_infos S f cm_name ((key, content) ∷ entries))
        by_file false o p q a = rw p a
        by_file true none p q a = rw (p, q) a
        by_file true (some details) p q a = rw (p, q) (inr a)

    pub config_infos→ :
        (f : Findings) (cms : List ConfigMap)
        → Any IsOf (config_infos S f cms)
        → IsThat f.pod × Any HasConfigs cms
    unfolding config_infos
    config_infos→ f [] h = absurd h
    config_infos→ f (cm ∷ cms) h = by_name (cm.name == "cadence") refl h (config_infos→ f cms)
      where
        by_name :
            (b : Bool)
            → (cm.name == "cadence") ≡ b
            → Any IsOf (config_infos S f (cm ∷ cms))
            → (Any IsOf (config_infos S f cms) → IsThat f.pod × Any HasConfigs cms)
            → IsThat f.pod × Any HasConfigs (cm ∷ cms)
        by_name true p = rw p (λ h later. let (i, a) = later h in (i, inr a))
        by_name false p = rw p (λ h later.
            elim (Any-append→ IsOf (entry_infos S f cm.name cm.entries) (config_infos S f cms) h) [
              | inl a ↦
                  let (i, found) = entry_infos→ f cm.name cm.entries a in
                  (i, inl (λ e. ground (arith, eq_iff cm.name "cadence"), found))
              | inr a ↦ let (i, found) = later a in (i, inr found)
            ])

    pub config_infos← :
        (f : Findings) (cms : List ConfigMap)
        → IsThat f.pod
        → Any HasConfigs cms
        → Any IsOf (config_infos S f cms)
    unfolding config_infos
    config_infos← f [] i h = h
    config_infos← f (cm ∷ cms) i h = by_name (cm.name == "cadence") refl h (config_infos← f cms i)
      where
        by_name :
            (b : Bool)
            → (cm.name == "cadence") ≡ b
            → Any HasConfigs (cm ∷ cms)
            → (Any HasConfigs cms → Any IsOf (config_infos S f cms))
            → Any IsOf (config_infos S f (cm ∷ cms))
        by_name true p (inl (n, found)) later = absurd (n ((eq_iff cm.name "cadence").0 p))
        by_name true p (inr a) later = rw p (later a)
        by_name false p (inl (n, found)) later = rw p (
            Any-append← IsOf (entry_infos S f cm.name cm.entries) (config_infos S f cms)
              (inl (entry_infos← f cm.name cm.entries i found)))
        by_name false p (inr a) later = rw p (
            Any-append← IsOf (entry_infos S f cm.name cm.entries) (config_infos S f cms)
              (inr (later a)))
