-- ===== src/Upgrade/TargetVersion.antt =====
-- The versions that the nodes show, and the choice of the target among two.
use nacho_operators.Common.{
  String, ◌≡◌, true, false, ◌||◌, ◌==◌, eq_iff, List, [], ◌∷◌, exists, contains, contains-append,
  Distinct, append-Distinct, Bool-cases, inl, inr, arith, ok,
}
use nacho_operators.Upgrade.Types.{Node}
use nacho_operators.Upgrade.Kube.{Kube}
use nacho_operators.Upgrade.Nodes.{add_version, version_set, determine_target_version}

module _ (v : String) where
  contains-add_version :
      (u : String) (vs : List String) → contains (add_version u vs) v ≡ (contains vs v || u == v)
  unfolding add_version
  contains-add_version u vs = ground (arith, eq_iff u v, contains-append vs (u ∷ []) v)

  contains-version_set :
      (nodes : List Node) (vs : List String)
      → contains (version_set nodes vs) v
        ≡ (contains vs v || exists (λ (n : Node). n.kubelet_version == v) nodes)
  unfolding version_set
  contains-version_set [] vs = ground arith
  contains-version_set (n ∷ nodes) vs = ground (
    arith,
    contains-version_set nodes (add_version n.kubelet_version vs),
    contains-add_version n.kubelet_version vs,
  )

add_version-Distinct : (v : String) (vs : List String) → Distinct vs → Distinct (add_version v vs)
unfolding add_version
add_version-Distinct v vs d = elim (Bool-cases (contains vs v)) [
  | inl old ↦ rw old d
  | inr new ↦ rw new (append-Distinct v vs new d)
]

version_set-Distinct :
    (nodes : List Node) (vs : List String) → Distinct vs → Distinct (version_set nodes vs)
unfolding version_set
version_set-Distinct [] vs d = d
version_set-Distinct (n ∷ nodes) vs d =
    version_set-Distinct nodes _ (add_version-Distinct n.kubelet_version vs d)

-- The versions that are collected are listed once each, and they are those of the nodes.
pub version_set_lem :
    (nodes : List Node)
    → Distinct (version_set nodes [])
      × ((v : String)
          → contains (version_set nodes []) v ≡ exists (λ (n : Node). n.kubelet_version == v) nodes)
version_set_lem nodes = (version_set-Distinct nodes [] tt, λ v. contains-version_set v nodes [])

module _ (K : Kube) (a b : String) {u v : K.Version} where
  -- Of two versions that parse: if semver orders them one way, both orders of the list give the
  -- text of the greater; if neither is greater, the target is the second of the list.
  pub determine_target_version-swap :
      K.new_version a ≡ ok u
      → K.new_version b ≡ ok v
      → ((K.greater_than u v ≡ true)
          → (K.greater_than v u ≡ false)
          → (determine_target_version K (a ∷ b ∷ []) ≡ ok (K.original u))
            × (determine_target_version K (b ∷ a ∷ []) ≡ ok (K.original u)))
        × ((K.greater_than u v ≡ false)
            → (K.greater_than v u ≡ false)
            → (determine_target_version K (a ∷ b ∷ []) ≡ ok (K.original v))
              × (determine_target_version K (b ∷ a ∷ []) ≡ ok (K.original u)))
  unfolding determine_target_version
  determine_target_version-swap p q = rw (p, q) (ground arith)
