-- ===== src/Cert/Selection.antt =====
-- Which secrets are selected.
use nacho_operators.Common.{
  refl, String, ◌≡◌, ◌↔◌, ◌⊎◌, inl, inr, Bool, true, false, Result, ok, err, arith,
}
use nacho_operators.Common.Dict.{Dict}
use nacho_operators.Cert.Types.{Secret}
use nacho_operators.Cert.Services.{Services}
use nacho_operators.Cert.Selectors.{matches_namespace, matches_selectors}

module _ (S : Services) (ns_selector secret_selector : S.Selector) (w : S.World) where
  -- The namespace can be read and matches, unless the selector is empty.
  abbrev pub SelectsNamespace : String → Type 0
  SelectsNamespace namespace =
      (S.is_empty ns_selector ≡ true)
      ⊎ ((ls : Dict String) × (S.get_namespace_labels namespace w ≡ ok ls)
          × (S.matches ns_selector ls ≡ true))

  abbrev pub SelectsSecret : Secret → Type 0
  SelectsSecret secret =
      (S.is_empty secret_selector ≡ true) ⊎ (S.matches secret_selector secret.labels ≡ true)

  namespace_to :
      (namespace : String)
      → matches_namespace S ns_selector namespace w ≡ ok true
      → SelectsNamespace namespace
  unfolding matches_namespace
  namespace_to namespace h =
      by_labels (S.is_empty ns_selector) refl (S.get_namespace_labels namespace w) refl
    where
      by_labels :
          (b : Bool)
          → S.is_empty ns_selector ≡ b
          → (r : Result (Dict String)) → S.get_namespace_labels namespace w ≡ r
          → SelectsNamespace namespace
      by_labels true p r q = inl p
      by_labels false p (err e) q = absurd (ground arith)
      by_labels false p (ok ls) q = inr (ls, q, ground arith)

  namespace_from :
      (namespace : String)
      → SelectsNamespace namespace
      → matches_namespace S ns_selector namespace w ≡ ok true
  unfolding matches_namespace
  namespace_from namespace (inl p) = ground arith
  namespace_from namespace (inr (ls, q, matched)) = ground arith

  selectors_to :
      (secret : Secret)
      → matches_selectors S ns_selector secret_selector secret w ≡ ok true
      → SelectsNamespace secret.namespace × SelectsSecret secret
  unfolding matches_selectors
  selectors_to secret h =
      (namespace_to secret.namespace (ground arith), by_empty (S.is_empty secret_selector) refl)
    where
      by_empty : (b : Bool) → S.is_empty secret_selector ≡ b → SelectsSecret secret
      by_empty true p = inl p
      by_empty false p = inr (ground arith)

  selectors_from :
      (secret : Secret)
      → SelectsNamespace secret.namespace × SelectsSecret secret
      → matches_selectors S ns_selector secret_selector secret w ≡ ok true
  unfolding matches_selectors
  selectors_from secret (p, inl q) = ground (arith, namespace_from secret.namespace p)
  selectors_from secret (p, inr q) = ground (arith, namespace_from secret.namespace p)

  -- A secret is selected exactly if its namespace can be read and matches the namespace selector,
  -- and its labels match the secret selector, where an empty selector needs neither.
  pub matches_selectors_iff :
      (secret : Secret)
      → (matches_selectors S ns_selector secret_selector secret w ≡ ok true)
        ↔ (SelectsNamespace secret.namespace × SelectsSecret secret)
  matches_selectors_iff secret = (selectors_to secret, selectors_from secret)
