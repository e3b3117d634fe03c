-- ===== src/Kafka/Counting.antt =====
-- The map of problems: one entry for each message, with what was observed of it.
use nacho_operators.Common.{
  ℕ, suc, ◌+◌, ◌≤◌, String, ◌≡◌, refl, ◌==◌, eq_iff, Bool, true, false, ◌||◌, Option, none, some,
  List, [], ◌∷◌, length, keep, every, every-keep, contains, Distinct, arith, if◌then◌else◌,
}
use nacho_operators.Common.Dict
use nacho_operators.Common.Dict.{Dict, lookup-insert}
use nacho_operators.Common.Int.{pos}
use nacho_operators.Kafka.Types.{ProblemDetail}
use nacho_operators.Kafka.Diagnostics.{
  Observation, new_problem, seen_again, add_or_update_problem, add_problems, keys,
}

-- The observations with this message.
abbrev pub said : String → List Observation → List Observation
said message = keep (λ o. o.message == message)

abbrev more : List Observation → ProblemDetail → ProblemDetail
more [] p = p
more (o ∷ os) p = more os (seen_again o p)

abbrev update : List Observation → Option ProblemDetail → Option ProblemDetail
update [] r = r
update (o ∷ os) none = some (more os (new_problem o))
update (o ∷ os) (some p) = some (more (o ∷ os) p)

lookup-add_or_update :
    (o : Observation) (m : Dict ProblemDetail) (message : String)
    → Dict.lookup message (add_or_update_problem o m) ≡ (
        if o.message == message
        then update (o ∷ []) (Dict.lookup message m)
        else Dict.lookup message m)
unfolding add_or_update_problem
lookup-add_or_update o m message = by_old (Dict.lookup o.message m) refl
  where
    by_old :
        (r : Option ProblemDetail)
        → Dict.lookup o.message m ≡ r
        → Dict.lookup message (add_or_update_problem o m) ≡ (
            if o.message == message
            then update (o ∷ []) (Dict.lookup message m)
            else Dict.lookup message m)
    by_old none p =
        ground (arith, lookup-insert o.message message (new_problem o) m, eq_iff o.message message)
    by_old (some old) p =
        ground
          (arith, lookup-insert o.message message (seen_again o old) m, eq_iff o.message message)

update-update :
    (o : Observation) (os : List Observation) (r : Option ProblemDetail)
    → update os (update (o ∷ []) r) ≡ update (o ∷ os) r
update-update o [] none = refl
update-update o [] (some p) = refl
update-update o (n ∷ os) none = refl
update-update o (n ∷ os) (some p) = refl

lookup-add_problems :
    (os : List Observation) (m : Dict ProblemDetail) (message : String)
    → Dict.lookup message (add_problems os m) ≡ update (said message os) (Dict.lookup message m)
unfolding add_problems
lookup-add_problems [] m message = refl
lookup-add_problems (o ∷ os) m message =
    rw
      (lookup-add_problems os (add_or_update_problem o m) message, lookup-add_or_update o m message)
      (by_message (o.message == message))
  where
    by_message :
        (b : Bool)
        → update
            (said message os)
            (if b then update (o ∷ []) (Dict.lookup message m) else Dict.lookup message m)
          ≡ update (if b then o ∷ said message os else said message os) (Dict.lookup message m)
    by_message true = update-update o (said message os) (Dict.lookup message m)
    by_message false = refl

-- No observation is later than `t`.
abbrev pub IsLatest : List Observation → ℕ → Type 0
IsLatest [] t = Unit
IsLatest (o ∷ os) t = (o.timestamp.instant ≤ t) × IsLatest os t

abbrev pub IsSummary : String → List Observation → Option ProblemDetail → Type 0
IsSummary message [] r = r ≡ none
IsSummary message (o ∷ os) r =
    (p : ProblemDetail) × (r ≡ some p)
    × (p.message ≡ message)
    × (p.kind ≡ o.kind)
    × (p.count ≡ pos (length (o ∷ os)))
    × IsLatest (o ∷ os) p.last_seen_timestamp.instant

more-kept :
    (os : List Observation) (p : ProblemDetail)
    → ((more os p).message ≡ p.message)
      × ((more os p).kind ≡ p.kind)
      × (p.last_seen_timestamp.instant ≤ (more os p).last_seen_timestamp.instant)
unfolding seen_again
more-kept [] p = ground arith
more-kept (o ∷ os) p = ground (arith, more-kept os (seen_again o p))

more-count :
    (os : List Observation) (p : ProblemDetail) (n : ℕ)
    → p.count ≡ pos n
    → n + length os ≤ 2_147_483_647
    → (more os p).count ≡ pos (n + length os)
unfolding seen_again
more-count [] p n h b = ground arith
more-count (o ∷ os) p n h b = ground (arith, more-count os (seen_again o p) (suc n))

more-IsLatest :
    (os : List Observation) (p : ProblemDetail)
    → IsLatest os (more os p).last_seen_timestamp.instant
unfolding seen_again
more-IsLatest [] p = tt
more-IsLatest (o ∷ os) p =
    (ground (arith, more-kept os (seen_again o p)), more-IsLatest os (seen_again o p))

said-message :
    (message : String) (os : List Observation)
    → every (λ o. o.message == message) (said message os) ≡ true
said-message message os = every-keep (λ o. o.message == message) os

summary :
    (message : String) (os : List Observation)
    → every (λ (o : Observation). o.message == message) os ≡ true
    → length os ≤ 2_147_483_647
    → IsSummary message os (update os none)
unfolding new_problem
summary message [] h b = refl
summary message (o ∷ os) h b = (
  more os (new_problem o),
  refl,
  ground (arith, more-kept os (new_problem o), eq_iff o.message message),
  ground (arith, more-kept os (new_problem o)),
  ground (arith, more-count os (new_problem o) 1 refl),
  (ground (arith, more-kept os (new_problem o)), more-IsLatest os (new_problem o)),
)

contains-insert :
    (key asked : String) (new : ProblemDetail) (m : Dict ProblemDetail)
    → contains (keys (Dict.insert key new m)) asked ≡ (key == asked || contains (keys m) asked)
unfolding Dict.insert
contains-insert key asked new [] = refl
contains-insert key asked new ((head, old) ∷ rest) =
    ground (arith, contains-insert key asked new rest, eq_iff head key)

insert-Distinct :
    (key : String) (new : ProblemDetail) (m : Dict ProblemDetail)
    → Distinct (keys m)
    → Distinct (keys (Dict.insert key new m))
unfolding Dict.insert
insert-Distinct key new [] d = (refl, tt)
insert-Distinct key new ((head, old) ∷ rest) (fresh, d) =
    by_head (head == key) refl (insert-Distinct key new rest d)
  where
    by_head :
        (b : Bool)
        → (head == key) ≡ b
        → Distinct (keys (Dict.insert key new rest))
        → Distinct (keys (Dict.insert key new ((head, old) ∷ rest)))
    by_head true p ih = rw (Dict.insert, p) (fresh, d)
    by_head false p ih =
        rw (Dict.insert, p)
          (ground (arith, contains-insert key head new rest, eq_iff head key, eq_iff key head), ih)

add_or_update-Distinct :
    (o : Observation) (m : Dict ProblemDetail)
    → Distinct (keys m)
    → Distinct (keys (add_or_update_problem o m))
unfolding add_or_update_problem
add_or_update-Distinct o m d = by_old (Dict.lookup o.message m) refl
  where
    by_old :
        (r : Option ProblemDetail)
        → Dict.lookup o.message m ≡ r
        → Distinct (keys (add_or_update_problem o m))
    by_old none p = rw (add_or_update_problem, p) (insert-Distinct o.message (new_problem o) m d)
    by_old (some old) p =
        rw (add_or_update_problem, p) (insert-Distinct o.message (seen_again o old) m d)

add_problems-Distinct :
    (os : List Observation) (m : Dict ProblemDetail)
    → Distinct (keys m)
    → Distinct (keys (add_problems os m))
unfolding add_problems
add_problems-Distinct [] m d = d
add_problems-Distinct (o ∷ os) m d =
    add_problems-Distinct os (add_or_update_problem o m) (add_or_update-Distinct o m d)

-- Fewer than 2 ^ 31 observations of a message give one problem with it, and none give none. The
-- problem has the severity of the first, their number as its count, and a time that is no earlier
-- than that of any; no message has two entries.
pub add_problems_lem :
    (os : List Observation) (message : String)
    → length (said message os) ≤ 2_147_483_647
    → IsSummary message (said message os) (Dict.lookup message (add_problems os []))
      × Distinct (keys (add_problems os []))
unfolding Dict.lookup
add_problems_lem os message b = (
  rw (lookup-add_problems os [] message)
      (summary message (said message os) (said-message message os) b),
  add_problems-Distinct os [] tt,
)
