-- ===== src/Kafka/Variables.antt =====
-- When the variables of a container name brokers.
use nacho_operators.Common.{
  Bool-cases, map, String, ◌<>◌, ◌==◌, ◌≡◌, refl, sym, ◌∙◌, ◌≢◌, ◌⊎◌, inl, inr, eq_iff, Bool, true,
  false, Option, none, some, List, [], ◌∷◌, ◌++◌, contains, arith, Result, ok, err, Any,
}
use nacho_operators.Common.Dict
use nacho_operators.Common.Dict.{Dict}
use nacho_operators.Common.Strings.{split_at_char, split_at_char-nonempty, trim_space}
use nacho_operators.Kafka.Types.{EnvVar, KeyRef, ConfigMap}
use nacho_operators.Kafka.Services.{Services}
use nacho_operators.Kafka.Inspect.{resolve, endpoints_of, check_vars}

endpoints_of→ : (value : String) → endpoints_of value ≢ [] → value ≢ ""
endpoints_of→ value h e = h (ground (arith, eq_iff value ""))

map-nonempty : {A B : Type 0} (f : A → B) (xs : List A) → xs ≢ [] → map f xs ≢ []
map-nonempty f [] h e = h refl
map-nonempty f (x ∷ xs) h e = cc

append-nonempty {ℓ} : {A : Type ℓ} (xs ys : List A) → (xs ≢ []) ⊎ (ys ≢ []) → xs ++ ys ≢ []
append-nonempty [] ys (inl n) e = n refl
append-nonempty [] ys (inr n) e = n e
append-nonempty (x ∷ xs) ys n e = cc

endpoints_of← : (value : String) → value ≢ "" → endpoints_of value ≢ []
endpoints_of← value h e = ground (
  arith,
  eq_iff value "",
  map-nonempty trim_space (split_at_char 44 value) (split_at_char-nonempty 44 value),
)

module _ (S : Services) (w : S.World) where
  -- The value of a variable, its own or the one that it refers to.
  pub data HasValue (namespace : String) (v : EnvVar) (value : String) : Type 0 where
    direct : v.value ≢ "" → value ≡ v.value → HasValue namespace v value
    referenced :
        (ref : KeyRef) (cm : ConfigMap)
        → v.value ≡ ""
        → v.config_map_key ≡ some ref
        → S.get_config_map (record { namespace = namespace; name = ref.name }) w ≡ ok cm
        → Dict.lookup ref.key cm.entries ≡ some value
        → HasValue namespace v value

  resolve→ :
      (namespace : String) (v : EnvVar) (value source : String)
      → resolve S namespace v w ≡ some (value, source)
      → HasValue namespace v value
  unfolding resolve
  resolve→ namespace v value source h = by_own (v.value == "") refl
    where
      by_entry :
          (ref : KeyRef) (cm : ConfigMap) (o : Option String)
          → v.value ≡ ""
          → v.config_map_key ≡ some ref
          → S.get_config_map (record { namespace = namespace; name = ref.name }) w ≡ ok cm
          → Dict.lookup ref.key cm.entries ≡ o
          → HasValue namespace v value
      by_entry ref cm none n k g l = absurd (ground (arith, eq_iff v.value ""))
      by_entry ref cm (some found) n k g l =
          referenced ref cm n k g (ground (arith, eq_iff v.value ""))

      by_map :
          (ref : KeyRef) (r : Result ConfigMap)
          → v.value ≡ ""
          → v.config_map_key ≡ some ref
          → S.get_config_map (record { namespace = namespace; name = ref.name }) w ≡ r
          → HasValue namespace v value
      by_map ref (err e) n k g = absurd (ground (arith, eq_iff v.value ""))
      by_map ref (ok cm) n k g = by_entry ref cm (Dict.lookup ref.key cm.entries) n k g refl

      by_ref :
          (o : Option KeyRef) → v.value ≡ "" → v.config_map_key ≡ o → HasValue namespace v value
      by_ref none n k = absurd (ground (arith, eq_iff v.value ""))
      by_ref (some ref) n k =
          by_map ref (S.get_config_map (record { namespace = namespace; name = ref.name }) w) n k
            refl

      by_own : (b : Bool) → (v.value == "") ≡ b → HasValue namespace v value
      by_own true p = by_ref v.config_map_key ((eq_iff v.value "").0 p) refl
      by_own false p = direct (λ e. ground (arith, eq_iff v.value "")) (ground arith)

  resolve← :
      (namespace : String) (v : EnvVar) (value : String)
      → HasValue namespace v value
      → (source : String) × (resolve S namespace v w ≡ some (value, source))
  unfolding resolve
  resolve← namespace v value (direct n e) = ("env:" <> v.name, ground (arith, eq_iff v.value ""))
  resolve← namespace v value (referenced ref cm n k g l) =
      ("env-from-cm:" <> ref.name <> ":" <> ref.key, ground (arith, eq_iff v.value ""))

  -- The variable is searched and its value names brokers.
  abbrev pub SetsBrokers : List String → String → EnvVar → Type 0
  SetsBrokers searched namespace v =
      (contains searched v.name ≡ true)
      × ((value : String) × HasValue namespace v value × (value ≢ ""))

  module _ (searched : List String) (namespace : String) (v : EnvVar) (vars : List EnvVar) where
    check_vars-passes :
        (contains searched v.name ≡ false) ⊎ (resolve S namespace v w ≡ none)
        → (check_vars S searched namespace (v ∷ vars) w).0
          ≡ (check_vars S searched namespace vars w).0
    unfolding check_vars
    check_vars-passes (inl p) = rw p refl
    check_vars-passes (inr q) = elim (Bool-cases (contains searched v.name)) [
      | inl p ↦ rw (p, q) refl
      | inr p ↦ rw p refl
    ]

    check_vars-finds :
        (value source : String)
        → contains searched v.name ≡ true
        → resolve S namespace v w ≡ some (value, source)
        → (check_vars S searched namespace (v ∷ vars) w).0
          ≡ endpoints_of value ++ (check_vars S searched namespace vars w).0
    unfolding check_vars
    check_vars-finds value source p q = rw (p, q) refl

  pub check_vars→ :
      (searched : List String) (namespace : String) (vars : List EnvVar)
      → (check_vars S searched namespace vars w).0 ≢ []
      → Any (SetsBrokers searched namespace) vars
  unfolding check_vars
  check_vars→ searched namespace [] h = absurd (h refl)
  check_vars→ searched namespace (v ∷ vars) h =
      by_name (contains searched v.name) (resolve S namespace v w) refl refl
        (check_vars→ searched namespace vars)
    where
      Later : Type 0
      Later =
          (check_vars S searched namespace vars w).0 ≢ []
          → Any (SetsBrokers searched namespace) vars

      by_name :
          (b : Bool) (o : Option (String × String))
          → contains searched v.name ≡ b
          → resolve S namespace v w ≡ o
          → Later
          → Any (SetsBrokers searched namespace) (v ∷ vars)
      by_name false o p q ih =
          inr (ih (λ e. h (check_vars-passes searched namespace v vars (inl p) ∙ e)))
      by_name true none p q ih =
          inr (ih (λ e. h (check_vars-passes searched namespace v vars (inr q) ∙ e)))
      by_name true (some (value, source)) p q ih = elim (Bool-cases (value == "")) [
        | inl empty ↦ inr (
            ih (λ e.
              h (check_vars-finds searched namespace v vars value source p q ∙ ground (arith))))
        | inr set ↦
            inl (
              p,
              (value, resolve→ namespace v value source q, λ e. ground (arith, eq_iff value "")),
            )
      ]

  pub check_vars← :
      (searched : List String) (namespace : String) (vars : List EnvVar)
      → Any (SetsBrokers searched namespace) vars
      → (check_vars S searched namespace vars w).0 ≢ []
  unfolding check_vars
  check_vars← searched namespace [] h e = h
  check_vars← searched namespace (v ∷ vars) (inl (p, (value, has, n))) e =
      let (source, q) = resolve← namespace v value has in
      append-nonempty (endpoints_of value) (check_vars S searched namespace vars w).0
        (inl (endpoints_of← value n))
        (sym (check_vars-finds searched namespace v vars value source p q) ∙ e)
  check_vars← searched namespace (v ∷ vars) (inr h) e =
      by_name (contains searched v.name) (resolve S namespace v w) refl refl
        (check_vars← searched namespace vars h)
    where
      by_name :
          (b : Bool) (o : Option (String × String))
          → contains searched v.name ≡ b
          → resolve S namespace v w ≡ o
          → (check_vars S searched namespace vars w).0 ≢ []
          → ⊥
      by_name false o p q later =
          later (sym (check_vars-passes searched namespace v vars (inl p)) ∙ e)
      by_name true none p q later =
          later (sym (check_vars-passes searched namespace v vars (inr q)) ∙ e)
      by_name true (some (value, source)) p q later =
          append-nonempty (endpoints_of value) (check_vars S searched namespace vars w).0
            (inr later) (sym (check_vars-finds searched namespace v vars value source p q) ∙ e)
