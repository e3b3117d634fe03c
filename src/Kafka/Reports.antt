-- ===== src/Kafka/Reports.antt =====
-- The messages of a namespace, with the reports and the headers as the code makes them.
use Prim.Native.String.{len}
use text.Mathlib.TextPositions.{len-append}
use mathlib.Core.List.{Perm, nil≢cons}
use mathlib.Core.List.Perm
use nacho_operators.Common.{
  ℕ, ◌+◌, ◌^◌, ◌≤◌, ◌<◌, String, ◌≢◌, refl, subst, Bool, List, [], ◌∷◌, map, length, arith,
}
use nacho_operators.Common.Int.{pos}
use nacho_operators.Common.Digits.{len-decimal}
use nacho_operators.Common.Strings.{decimal, pad_right}
use nacho_operators.Kafka.Types.{PodAccessInfo}
use nacho_operators.Kafka.Services.{Services}
use nacho_operators.Kafka.Slack.{
  first_header, page_header, messages, format_pod_details_as_table, format_single_pod, is_before,
  namespace_messages,
}
use nacho_operators.Kafka.Pages.{AllLong, Divided, messages-Divided}

-- The first header is longer than that of a page by three bytes and the number of pods at most.
len-first_header :
    (namespace : String) (pods page : ℕ)
    → len (first_header namespace pods)
      ≤ len (page_header namespace page) + 3 + len (decimal (pos pods))
unfolding first_header page_header
len-first_header namespace pods page = simp len-append (omega arith)

len-format_single_pod : {P : Type 0} (pod : PodAccessInfo P) → 24 ≤ len (format_single_pod pod)
unfolding format_single_pod format_pod_details_as_table pad_right
len-format_single_pod pod = simp len-append (omega arith)

-- `sort.Slice` only moves the elements of a slice.
abbrev pub SortsSlice : Services → Type 1
SortsSlice S =
    (A : Type 0) (before : A → A → Bool) (xs : List A) → Perm (S.sort_slice {A = A} before xs) xs

reports-AllLong :
    {P : Type 0} (namespace : String) (n : ℕ) (pods : List (PodAccessInfo P))
    → n < 2 ^ 63
    → AllLong (page_header namespace) (len (first_header namespace n)) (map format_single_pod pods)
reports-AllLong namespace n [] few = tt
reports-AllLong namespace n (pod ∷ pods) few = (
  (
    omega (arith, len-format_single_pod pod),
    λ page. omega (
      arith,
      len-format_single_pod pod,
      len-first_header namespace n page,
      len-decimal 18 n (omega arith),
    ),
  ),
  reports-AllLong namespace n pods few,
)

sorted-Divided :
    {P : Type 0} (namespace : String) (n : ℕ) (sorted : List (PodAccessInfo P))
    → n < 2 ^ 63
    → sorted ≢ []
    → Divided
        (page_header namespace)
        (len (first_header namespace n))
        (first_header namespace n)
        1
        (map format_single_pod sorted)
        (messages namespace n (map format_single_pod sorted))
sorted-Divided namespace n [] few some_pod = absurd (some_pod refl)
sorted-Divided namespace n (pod ∷ rest) few some_pod =
    messages-Divided namespace n (format_single_pod pod) (map format_single_pod rest)
      (reports-AllLong namespace n (pod ∷ rest) few)

module _ (S : Services) where
  -- The messages of a namespace with a pod at least, and with fewer than 2 ^ 63, hold the report of
  -- each pod once, in the order in which they are sorted: the reports fall into consecutive groups, the
  -- first stands under the first header and each other under that of its page. A message keeps the limit
  -- of 3500 bytes, or it has one report at most. Sorting only moves the pods.
  pub namespace_messages-Divided :
      SortsSlice S
      → {P : Type 0} (namespace : String) (pod : PodAccessInfo P) (pods : List (PodAccessInfo P))
      → length (pod ∷ pods) < 2 ^ 63
      → let sorted = S.sort_slice is_before (pod ∷ pods) in
        let n = length (pod ∷ pods) in
        Perm sorted (pod ∷ pods)
        × Divided
            (page_header namespace)
            (len (first_header namespace n))
            (first_header namespace n)
            1
            (map format_single_pod sorted)
            (namespace_messages S namespace (pod ∷ pods))
  unfolding namespace_messages
  namespace_messages-Divided law {P} namespace pod pods few = (
    sorting,
    sorted-Divided namespace (length (pod ∷ pods)) (S.sort_slice is_before (pod ∷ pods)) few
        (λ none_left. nil≢cons (Perm.nil-eq (subst (λ l. Perm l (pod ∷ pods)) none_left sorting))),
  )
    where
      sorting : Perm (S.sort_slice is_before (pod ∷ pods)) (pod ∷ pods)
      sorting = law (PodAccessInfo P) is_before (pod ∷ pods)
