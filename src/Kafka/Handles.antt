-- ===== src/Kafka/Handles.antt =====
-- What holds of the entries and their slices of problems after the loop over the pods.
use nacho_operators.Common.{
  ℕ, zero, suc, ◌≤◌, ◌<◌, String, ◌≡◌, refl, ◌∙◌, inl, inr, Any, ◌==◌, Bool, true, false, Option,
  none, some, List, [], ◌∷◌, ◌++◌, length, length-append, arith, if◌then◌else◌,
}
use nacho_operators.Common.Dict.{Dict}
use nacho_operators.Common.Int.{ℤ}
use nacho_operators.Kafka.Parser.{KafkaConfigDetails, parse}
use nacho_operators.Kafka.Types.{Spec, ProblemDetail, PodAccessInfo, Pod, Container, ConfigMap}
use nacho_operators.Kafka.Services.{Services}
use nacho_operators.Kafka.Diagnostics.{fetch_recent_problems}
use nacho_operators.Kafka.Discovery.{get_mounted_config_maps}
use nacho_operators.Kafka.Inspect.{
  Slices, slice_at, Infos, at_most_one, Findings, findings, is_yaml, check_container_env_vars,
  env_info, config_info, Seen, env_infos, entry_infos, config_infos, is_inspected, inspect_pod,
  inspect_pods,
}

-- Each slice has one problem at most.
abbrev pub AreShort : Slices → Type 0
AreShort [] = Unit
AreShort (problems ∷ slices) = (length problems ≤ 1) × AreShort slices

slice_at-append : (n : ℕ) (xs ys : Slices) → n < length xs → slice_at n (xs ++ ys) ≡ slice_at n xs
slice_at-append n [] ys h = absurd (ground arith)
slice_at-append zero (x ∷ xs) ys h = refl
slice_at-append (suc n) (x ∷ xs) ys h = slice_at-append n xs ys (omega arith)

slice_at-length :
    (xs : Slices) (problems : List ProblemDetail)
    → slice_at (length xs) (xs ++ (problems ∷ [])) ≡ problems
slice_at-length [] problems = refl
slice_at-length (x ∷ xs) problems = slice_at-length xs problems

append-AreShort : (xs ys : Slices) → AreShort xs → AreShort ys → AreShort (xs ++ ys)
append-AreShort [] ys p q = q
append-AreShort (x ∷ xs) ys (h, p) q = (h, append-AreShort xs ys p q)

at_most_one-short : (problems : List ProblemDetail) → length (at_most_one problems) ≤ 1
at_most_one-short [] = omega arith
at_most_one-short (problem ∷ problems) = omega arith

module _ (S : Services) (spec : Spec) (tenants : Dict (List String)) (since : ℤ) (w : S.World)
    (listed : List Pod) where
  abbrev recent : Pod → List ProblemDetail
  recent pod = at_most_one (fetch_recent_problems S pod since w)

  -- The slice was made for the pod, which is one of those listed and is inspected.
  abbrev WasMade : Slices → ℕ → Pod → Type 0
  WasMade slices n pod =
      (n < length slices)
      × (slice_at n slices ≡ recent pod)
      × Any (λ p. p ≡ pod) listed
      × (is_inspected pod ≡ true)

  -- The slice of the entry was made for the pod that the entry names.
  abbrev IsOwn : Slices → PodAccessInfo ℕ → Type 0
  IsOwn slices info =
      (pod : Pod) × (info.namespace ≡ pod.namespace)
      × (info.pod_name ≡ pod.name)
      × WasMade slices info.recent_problems pod

  abbrev AreOwn : Slices → Infos → Type 0
  AreOwn slices [] = Unit
  AreOwn slices (info ∷ infos) = IsOwn slices info × AreOwn slices infos

  -- What the loop over the pods keeps.
  abbrev pub IsValid : Seen → Type 0
  IsValid seen = AreOwn seen.slices seen.infos × AreShort seen.slices

  AreOwn-weaken : (infos : Infos) (xs ys : Slices) → AreOwn xs infos → AreOwn (xs ++ ys) infos
  AreOwn-weaken [] xs ys h = tt
  AreOwn-weaken (info ∷ infos) xs ys ((pod, p, q, (bound, made, there, inspected)), h) =
      let made' : slice_at info.recent_problems (xs ++ ys) ≡ recent pod =
        slice_at-append info.recent_problems xs ys bound ∙ made in
      (
        (pod, p, q, (omega (arith, length-append xs ys), made', there, inspected)),
        AreOwn-weaken infos xs ys h,
      )

  append-AreOwn :
      (slices : Slices) (xs ys : Infos)
      → AreOwn slices xs
      → AreOwn slices ys
      → AreOwn slices (xs ++ ys)
  append-AreOwn slices [] ys p q = q
  append-AreOwn slices (x ∷ xs) ys (h, p) q = (h, append-AreOwn slices xs ys p q)

  module _ (slices : Slices) (f : Findings) (made : WasMade slices f.problems f.pod) where
    env_infos-AreOwn :
        (containers : List Container) → AreOwn slices (env_infos S f spec containers w)
    unfolding env_infos env_info
    env_infos-AreOwn [] = tt
    env_infos-AreOwn (container ∷ containers) =
        by_endpoints (check_container_env_vars S f.pod container spec w) refl
          (env_infos-AreOwn containers)
      where
        by_endpoints :
            (found : List String × List String)
            → check_container_env_vars S f.pod container spec w ≡ found
            → AreOwn slices (env_infos S f spec containers w)
            → AreOwn slices (env_infos S f spec (container ∷ containers) w)
        by_endpoints ([], sources) p ih = rw (env_infos, p) ih
        by_endpoints (e ∷ es, sources) p ih = rw (env_infos, p) ((f.pod, refl, refl, made), ih)

    entry_infos-AreOwn :
        (cm_name : String) (entries : List (String × String))
        → AreOwn slices (entry_infos S f cm_name entries)
    unfolding entry_infos config_info
    entry_infos-AreOwn cm_name [] = tt
    entry_infos-AreOwn cm_name ((key, content) ∷ entries) =
        by_parts (is_yaml key) refl (parse S.rules S.unmarshal_yaml content) refl
          (entry_infos-AreOwn cm_name entries)
      where
        by_parts :
            (b : Bool)
            → is_yaml key ≡ b
            → (o : Option KafkaConfigDetails) → parse S.rules S.unmarshal_yaml content ≡ o
            → AreOwn slices (entry_infos S f cm_name entries)
            → AreOwn slices (entry_infos S f cm_name ((key, content) ∷ entries))
        by_parts false p o q ih = rw (entry_infos, p) ih
        by_parts true p none q ih = rw (entry_infos, p, q) ih
        by_parts true p (some details) q ih = rw (entry_infos, p, q) ((f.pod, refl, refl, made), ih)

    config_infos-AreOwn : (cms : List ConfigMap) → AreOwn slices (config_infos S f cms)
    unfolding config_infos
    config_infos-AreOwn [] = tt
    config_infos-AreOwn (cm ∷ cms) = by_name (cm.name == "cadence") refl (config_infos-AreOwn cms)
      where
        by_name :
            (b : Bool)
            → (cm.name == "cadence") ≡ b
            → AreOwn slices (config_infos S f cms)
            → AreOwn slices (config_infos S f (cm ∷ cms))
        by_name true p ih = rw (config_infos, p) ih
        by_name false p ih =
            rw (config_infos, p)
              (append-AreOwn slices (entry_infos S f cm.name cm.entries) _
                (entry_infos-AreOwn cm.name cm.entries) ih)

  inspect_pod-IsValid :
      (pod : Pod) (seen : Seen)
      → Any (λ p. p ≡ pod) listed
      → is_inspected pod ≡ true
      → IsValid seen
      → IsValid (inspect_pod S spec tenants since pod w seen)
  unfolding inspect_pod
  inspect_pod-IsValid pod seen there inspected (own, short) = (
    append-AreOwn slices (seen.infos ++ _) _
        (append-AreOwn slices seen.infos _
          (AreOwn-weaken seen.infos seen.slices (recent pod ∷ []) own)
          (env_infos-AreOwn slices f made (pod.containers ++ pod.init_containers)))
        (config_infos-AreOwn slices f made (get_mounted_config_maps S pod w)),
    append-AreShort seen.slices _ short
        (at_most_one-short (fetch_recent_problems S pod since w), tt),
  )
    where
      slices : Slices
      slices = seen.slices ++ (recent pod ∷ [])

      f : Findings
      f = findings S spec tenants since pod (length seen.slices) w

      made : WasMade slices (length seen.slices) pod
      made = (
        omega (arith, length-append seen.slices (recent pod ∷ [])),
        slice_at-length seen.slices (recent pod),
        there,
        inspected,
      )

  inspect_pods-listed :
      (pods : List Pod) (seen : Seen)
      → ((pod : Pod) → Any (λ p. p ≡ pod) pods → Any (λ p. p ≡ pod) listed)
      → IsValid seen
      → IsValid (inspect_pods S spec tenants since pods w seen)
  unfolding inspect_pods
  inspect_pods-listed [] seen all h = h
  inspect_pods-listed (pod ∷ pods) seen all h =
      inspect_pods-listed pods _ (λ p there. all p (inr there)) (by_test (is_inspected pod) refl)
    where
      by_test :
          (b : Bool)
          → is_inspected pod ≡ b
          → IsValid (if b then inspect_pod S spec tenants since pod w seen else seen)
      by_test true p = inspect_pod-IsValid pod seen (all pod (inl refl)) p h
      by_test false p = h

-- The loop over the pods keeps this: each entry has the slice that was made for a pod of the list
-- which is inspected and has the entry's namespace and name, so with the first of the problems that
-- are fetched for this pod, if there are any, and each slice has one problem at most.
pub inspect_pods-IsValid :
    (S : Services) (spec : Spec) (tenants : Dict (List String)) (since : ℤ) (w : S.World)
    (pods : List Pod) (seen : Seen)
    → IsValid S spec tenants since w pods seen
    → IsValid S spec tenants since w pods (inspect_pods S spec tenants since pods w seen)
inspect_pods-IsValid S spec tenants since w pods seen =
    inspect_pods-listed S spec tenants since w pods pods seen (λ pod there. there)
