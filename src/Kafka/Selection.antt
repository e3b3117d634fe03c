-- ===== src/Kafka/Selection.antt =====
-- Which pods the selectors of a query select.
use nacho_operators.Common.{
  String, ◌≡◌, refl, ◌∙◌, Bool, true, false, Option, none, some, List, [], ◌∷◌, sym, check, wrapped,
  Result, ok, err, arith, LabelSelector,
}
use nacho_operators.Kafka.Types.{Pod, matching_labels_selector, in_namespace}
use nacho_operators.Kafka.Services.{Services}
use nacho_operators.Kafka.Discovery.{namespace_options, find_pods}

-- `metav1.LabelSelectorAsSelector(nil)` is `labels.Nothing()`, which is not empty and matches no pod.
pub record SelectsNothing (S : Services) : Type 0 where
  pub nothing : S.Selector
  pub nil_selector : S.label_selector_as_selector none ≡ ok nothing
  pub is_empty-nothing : S.is_empty nothing ≡ false
  pub list_pods-nothing :
      (namespace : String) (w : S.World) (pods : List Pod)
      → S.list_pods (matching_labels_selector nothing ∷ in_namespace namespace ∷ []) w ≡ ok pods
      → pods ≡ []

-- `MatchingLabelsSelector.ApplyToList` sets the selector of the options: the last one stays.
abbrev pub KeepsLast : Services → Type 0
KeepsLast S =
    (s t : S.Selector) (w : S.World)
    → S.list_pods (matching_labels_selector s ∷ matching_labels_selector t ∷ []) w
      ≡ S.list_pods (matching_labels_selector t ∷ []) w

module _ (S : Services) (w : S.World) where
  -- A query with no selector finds no pod.
  pub find_pods-no_selector :
      SelectsNothing S → {pods : List Pod} → find_pods S none none w ≡ ok pods → pods ≡ []
  unfolding find_pods namespace_options
  find_pods-no_selector law {pods} h = law.list_pods-nothing "" w pods (sym listed ∙ h)
    where
      listed :
          find_pods S none none w
          ≡ S.list_pods (matching_labels_selector law.nothing ∷ in_namespace "" ∷ []) w
      listed = rw (find_pods, law.nil_selector, law.is_empty-nothing) refl

  only_namespace : LabelSelector → Result (List Pod)
  only_namespace given =
      check (S.label_selector_as_selector (some given))
        (λ e. err (wrapped "invalid namespace selector: %w" e))
        (λ selector. S.list_pods (matching_labels_selector selector ∷ []) w)

  namespace_options-labels :
      (given : LabelSelector) {label : String × String} {rest : List (String × String)}
      → given.match_labels ≡ label ∷ rest
      → namespace_options S (some given)
        ≡ check
            (S.label_selector_as_selector (some given))
            (λ e. err (wrapped "invalid namespace selector: %w" e))
            (λ selector. ok (matching_labels_selector selector ∷ []))
  unfolding namespace_options
  namespace_options-labels given m = ground (arith, m)

  find_pods-only_namespace :
      KeepsLast S
      → (given : LabelSelector) (pod_selector : Option LabelSelector) {label : String × String}
        {rest : List (String × String)} {s : S.Selector}
      → given.match_labels ≡ label ∷ rest
      → S.label_selector_as_selector pod_selector ≡ ok s
      → find_pods S (some given) pod_selector w ≡ only_namespace given
  unfolding find_pods only_namespace
  find_pods-only_namespace law given pod_selector {s} m p =
      by_parts (S.is_empty s) refl (S.label_selector_as_selector (some given)) refl
    where
      by_parts :
          (b : Bool)
          → S.is_empty s ≡ b
          → (r : Result S.Selector) → S.label_selector_as_selector (some given) ≡ r
          → find_pods S (some given) pod_selector w ≡ only_namespace given
      by_parts b e (err x) r =
          rw (find_pods, only_namespace, p, namespace_options-labels given m, r) refl
      by_parts true e (ok t) r =
          rw (find_pods, only_namespace, p, namespace_options-labels given m, r, e) refl
      by_parts false e (ok t) r =
          rw (find_pods, only_namespace, p, namespace_options-labels given m, r, e) (law s t w)

  -- Where the namespace selector has labels, the pod selector makes no difference, as long as it is
  -- valid.
  pub find_pods-namespace_selector :
      KeepsLast S
      → (given : LabelSelector) (pod_selector other : Option LabelSelector)
      → {label : String × String} {rest : List (String × String)} {s t : S.Selector}
      → given.match_labels ≡ label ∷ rest
      → S.label_selector_as_selector pod_selector ≡ ok s
      → S.label_selector_as_selector other ≡ ok t
      → find_pods S (some given) pod_selector w ≡ find_pods S (some given) other w
  unfolding find_pods namespace_options
  find_pods-namespace_selector law given pod_selector other {s} {t} m p q =
      find_pods-only_namespace law given pod_selector m p
      ∙ sym (find_pods-only_namespace law given other m q)
