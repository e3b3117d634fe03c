-- ===== src/Kafka/Uniques.antt =====
-- The count of the pods of the entries.
use nacho_operators.Common.{
  ℕ, String, ◌<>◌, ◌≡◌, refl, eq_iff, Bool-cases, ◌||◌, inl, inr, List, [], ◌∷◌, map, contains,
  length, Distinct, arith,
}
use nacho_operators.Kafka.Inspect.{Infos, unique_pods, count_unique_pods}
use nacho_operators.Kafka.Server.{pod_key}

-- How a pod is told from others.
abbrev pub path : String × String → String
path (namespace, name) = namespace <> "/" <> name

-- The number of different pods among these.
abbrev pub CountsOnce : List (String × String) → ℕ → Type 0
CountsOnce pods n =
    (found : List String) × Distinct found
    × ((p : String) → contains found p ≡ contains (map path pods) p)
    × (n ≡ length found)

unique_pods-Distinct :
    (infos : Infos) (found : List String) → Distinct found → Distinct (unique_pods infos found)
unique_pods-Distinct [] found h = h
unique_pods-Distinct (info ∷ infos) found h =
    elim (Bool-cases (contains found (path (pod_key info)))) [
      | inl p ↦ rw p (unique_pods-Distinct infos found h)
      | inr p ↦ rw p (unique_pods-Distinct infos (path (pod_key info) ∷ found) (p, h))
    ]

unique_pods-contains :
    (infos : Infos) (found : List String) (p : String)
    → contains (unique_pods infos found) p
      ≡ contains found p || contains (map path (map pod_key infos)) p
unique_pods-contains [] found p = ground arith
unique_pods-contains (info ∷ infos) found p =
    elim (Bool-cases (contains found (path (pod_key info)))) [
      | inl q ↦
          rw q (ground (arith, unique_pods-contains infos found p, eq_iff (path (pod_key info)) p))
      | inr q ↦ rw q (
          ground (
            arith,
            unique_pods-contains infos (path (pod_key info) ∷ found) p,
            eq_iff (path (pod_key info)) p,
          ))
    ]

pub count_unique_pods-CountsOnce :
    (infos : Infos) → CountsOnce (map pod_key infos) (count_unique_pods infos)
unfolding count_unique_pods
count_unique_pods-CountsOnce infos =
    (unique_pods infos [], unique_pods-Distinct infos [] tt, unique_pods-contains infos [], refl)
