-- ===== src/Kafka/Pages.antt =====
-- The division of a namespace's report into messages.
use Prim.Native.String.{len}
use Prim.Native.String.append
use text.Mathlib.TextPositions.{len-append}
use text.Mathlib.TextLemmas.{append_assoc as append_assoc_text, append-nil as append-nil_text}
use nacho_operators.Common.{
  ℕ, suc, ◌+◌, ◌≤◌, ◌<◌, String, ◌<>◌, ◌≡◌, refl, sym, ap, ◌∙◌, Bool, true, false, List, [], ◌∷◌,
  ◌++◌, append_assoc, ltb, length, arith, ◌⊎◌, inl, inr,
}
use nacho_operators.Kafka.Slack.{slack_char_limit, paginate, first_header, page_header, messages}

abbrev pub concat : List String → String
concat [] = ""
concat (s ∷ ss) = s <> concat ss

abbrev pub flatten : List (List String) → List String
flatten [] = []
flatten (g ∷ gs) = g ++ flatten gs

-- Messages, each of one group of reports under its header.
abbrev pub render : (ℕ → String) → ℕ → List (List String) → List String
render header page [] = []
render header page (g ∷ gs) = (header page <> concat g) ∷ render header (suc page) gs

-- A message keeps the limit, or it has one report at most.
abbrev pub Fits : (ℕ → String) → ℕ → List (List String) → Type 0
Fits header page [] = Unit
Fits header page (g ∷ gs) =
    ((len (header page <> concat g) ≤ slack_char_limit) ⊎ (length g ≤ 1))
    × Fits header (suc page) gs

-- No report is empty, and a message with a report is longer than `minimum`.
abbrev pub AllLong : (ℕ → String) → ℕ → List String → Type 0
AllLong header minimum [] = Unit
AllLong header minimum (r ∷ rs) =
    ((0 < len r) × ((page : ℕ) → minimum < len (header page) + len r)) × AllLong header minimum rs

concat-snoc : (g : List String) (r : String) → concat (g ++ (r ∷ [])) ≡ concat g <> r
concat-snoc [] r = append-nil_text r ∙ sym (append.nil r)
concat-snoc (s ∷ g) r = ap (λ t. s <> t) (concat-snoc g r) ∙ sym (append_assoc_text s (concat g) r)

module _ (header : ℕ → String) (minimum : ℕ) where
  abbrev pub FitsLimit : String → List String → Type 0
  FitsLimit first g = (len (first <> concat g) ≤ slack_char_limit) ⊎ (length g ≤ 1)

  -- How the reports of `g` and `rest` are divided, the first group under the header `first`.
  abbrev pub Divided : String → ℕ → List String → List String → Type 0
  Divided first page reports sent =
      (h : List String) × ((gs : List (List String)) × (flatten (h ∷ gs) ≡ reports)
        × (sent ≡ (first <> concat h) ∷ render header (suc page) gs)
        × FitsLimit first h
        × Fits header (suc page) gs)

  -- What is longer than `minimum` is sent; before a report it may be as long.
  abbrev IsFull : String → List String → Type 0
  IsFull chunk [] = minimum < len chunk
  IsFull chunk (r ∷ rest) = minimum ≤ len chunk

  longer-IsFull : (chunk : String) (rest : List String) → minimum < len chunk → IsFull chunk rest
  longer-IsFull chunk [] h = h
  longer-IsFull chunk (r ∷ rest) h = omega (arith, h)

  -- The limit is passed: the chunk is sent, and the next page starts with the report.
  paginate-turned :
      (first : String) (page : ℕ) (chunk : String) (g : List String) (r : String)
      (rest : List String)
      → chunk ≡ first <> concat g
      → ltb slack_char_limit (len chunk + len r) ≡ true
      → FitsLimit first g
      → Divided
          (header (suc page))
          (suc page)
          (r ∷ rest)
          (paginate header minimum (suc page) (header (suc page) <> r) rest)
      → Divided first page (g ++ (r ∷ rest)) (paginate header minimum page chunk (r ∷ rest))
  unfolding paginate
  paginate-turned first page chunk g r rest e p f (h, (gs, whole, same, fits, fitting)) = (
    g,
    (
      h ∷ gs,
      ap (λ rs. g ++ rs) whole,
      rw (paginate, p)
          (ap (λ ms. chunk ∷ ms) same ∙ ap (λ c. c ∷ render header (suc page) (h ∷ gs)) e),
      f,
      (fits, fitting),
    ),
  )

  -- The limit is kept: the report is added to the chunk.
  paginate-extended :
      (first : String) (page : ℕ) (chunk : String) (g : List String) (r : String)
      (rest : List String)
      → ltb slack_char_limit (len chunk + len r) ≡ false
      → Divided first page
          ((g ++ (r ∷ [])) ++ rest)
          (paginate header minimum page (chunk <> r) rest)
      → Divided first page (g ++ (r ∷ rest)) (paginate header minimum page chunk (r ∷ rest))
  unfolding paginate
  paginate-extended first page chunk g r rest p (h, (gs, whole, same, fits, fitting)) =
      (h, (gs, whole ∙ append_assoc g (r ∷ []) rest, rw (paginate, p) same, fits, fitting))

  paginate-Divided :
      (first : String) (page : ℕ) (chunk : String) (g rest : List String)
      → chunk ≡ first <> concat g
      → IsFull chunk rest
      → FitsLimit first g
      → AllLong header minimum rest
      → Divided first page (g ++ rest) (paginate header minimum page chunk rest)
  unfolding paginate
  paginate-Divided first page chunk g [] e m f a = (g, ([], refl, ground (arith, e), f, tt))
  paginate-Divided first page chunk g (r ∷ rest) e m f ((filled, long), a) =
      by_limit (ltb slack_char_limit (len chunk + len r)) refl
        (paginate-Divided (header (suc page)) (suc page) (header (suc page) <> r) (r ∷ []) rest
          (ap (λ t. header (suc page) <> t) (sym (append-nil_text r)))
          (longer-IsFull (header (suc page) <> r) rest
            (ground (arith, long (suc page), len-append (header (suc page)) r)))
          (inr (omega arith)) a)
        (λ kept.
          paginate-Divided first page (chunk <> r) (g ++ (r ∷ [])) rest joined
            (longer-IsFull (chunk <> r) rest (ground (arith, len-append chunk r))) (inl kept) a)
    where
      joined : chunk <> r ≡ first <> concat (g ++ (r ∷ []))
      joined =
          ap (λ t. t <> r) e
          ∙ append_assoc_text first (concat g) r
          ∙ ap (λ t. first <> t) (sym (concat-snoc g r))

      by_limit :
          (b : Bool)
          → ltb slack_char_limit (len chunk + len r) ≡ b
          → Divided
              (header (suc page))
              (suc page)
              (r ∷ rest)
              (paginate header minimum (suc page) (header (suc page) <> r) rest)
          → (len (first <> concat (g ++ (r ∷ []))) ≤ slack_char_limit
              → Divided first page
                  ((g ++ (r ∷ [])) ++ rest)
                  (paginate header minimum page (chunk <> r) rest))
          → Divided first page (g ++ (r ∷ rest)) (paginate header minimum page chunk (r ∷ rest))
      by_limit true p turn go_on = paginate-turned first page chunk g r rest e p f turn
      by_limit false p turn go_on =
          paginate-extended first page chunk g r rest p
            (go_on (ground (arith, len-append chunk r, ap len joined)))

-- The messages of a namespace with a pod at least hold all its reports, in order and each once: the
-- reports fall into consecutive groups, the first stands under the first header and each other under
-- that of its page. A message keeps the limit of 3500 bytes, or it has one report at most. The
-- condition is that no report is empty, and that a page with a report is longer than the first header.
pub messages-Divided :
    (namespace : String) (pods : ℕ) (report : String) (reports : List String)
    → AllLong (page_header namespace) (len (first_header namespace pods)) (report ∷ reports)
    → Divided
        (page_header namespace)
        (len (first_header namespace pods))
        (first_header namespace pods)
        1
        (report ∷ reports)
        (messages namespace pods (report ∷ reports))
unfolding messages
messages-Divided namespace pods report reports a =
    paginate-Divided (page_header namespace) (len (first_header namespace pods))
      (first_header namespace pods) 1 (first_header namespace pods) [] (report ∷ reports)
      (sym (append-nil_text (first_header namespace pods))) (omega arith) (inr (omega arith)) a
