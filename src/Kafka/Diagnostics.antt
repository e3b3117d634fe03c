-- ===== src/Kafka/Diagnostics.antt =====
-- kafka-access-monitor-operator/internal/discovery/diagnostics_finder.go.
use nacho_operators.Common.{
  ℕ, zero, suc, String, ◌<>◌, Bool, ◌||◌, Option, none, some, List, [], ◌∷◌, ◌++◌, ltb, nat_eq,
  if◌then◌else◌, second, check,
}
use Prim.Native.String.{len}
use nacho_operators.Common.Dict
use nacho_operators.Common.Dict.{Dict}
use nacho_operators.Common.Int.{ℤ, pos, negsuc, ltb_ℤ, difference, quotient}
use nacho_operators.Common.Strings.{to_lower, has_infix, trim_space, take_bytes}
use nacho_operators.Common.Meta.{Time}
use nacho_operators.Kafka.Types.{ProblemDetail, Container, Pod, Event, LogStream}
use nacho_operators.Kafka.Services.{Services}

-- What `addOrUpdateProblem` is called with.
pub record Observation : Type 0 where
  pub message : String
  pub kind : String
  pub timestamp : Time

-- `Count++` on an int32
abbrev pub increment : ℤ → ℤ
increment (pos n) = if nat_eq n 2_147_483_647 then negsuc 2_147_483_647 else pos (suc n)
increment (negsuc zero) = pos 0
increment (negsuc (suc n)) = negsuc n

unfoldable pub new_problem : Observation → ProblemDetail
new_problem o = record {
  kind = o.kind;
  message = o.message;
  count = pos 1;
  last_seen_timestamp = o.timestamp;
  broker_cpu_utilization = "";
  broker_network_bytes_in = "";
  broker_under_replicated = pos 0;
  ai_analysis = "";
  broker_log_snippets = [];
}

unfoldable pub seen_again : Observation → ProblemDetail → ProblemDetail
seen_again o problem = record problem {
  count = increment problem.count;
  last_seen_timestamp =
      if ltb problem.last_seen_timestamp.instant o.timestamp.instant
      then o.timestamp
      else problem.last_seen_timestamp;
}

unfoldable pub add_or_update_problem : Observation → Dict ProblemDetail → Dict ProblemDetail
add_or_update_problem o problems = elim (Dict.lookup o.message problems) [
  | some existing ↦ Dict.insert o.message (seen_again o existing) problems
  | none ↦ Dict.insert o.message (new_problem o) problems
]

unfoldable pub add_problems : List Observation → Dict ProblemDetail → Dict ProblemDetail
add_problems [] problems = problems
add_problems (o ∷ os) problems = add_problems os (add_or_update_problem o problems)

abbrev pub ignored_error_substring : String
ignored_error_substring = "UNKNOWN_TOPIC_OR_PARTITION"

abbrev pub max_log_line_length : ℕ
max_log_line_length = 650

unfoldable pub truncate_line : String → String
truncate_line line =
    if ltb max_log_line_length (len line)
    then take_bytes max_log_line_length line <> " ... (truncated)"
    else line

unfoldable pub is_problem_line : String → Bool
is_problem_line line_lower =
    has_infix line_lower "error" || has_infix line_lower "warn" || has_infix line_lower "panic"

unfoldable pub problem_type : String → String
problem_type line_lower =
    if has_infix line_lower "panic"
    then "Panic"
    else if has_infix line_lower "error"
    then "Error"
    else "Warning"

-- What one line of a container's log says; an ignored line says nothing.
unfoldable pub scan_line : String → Time → String → Option Observation
scan_line container now line =
    let line_lower = to_lower line in
    let message = "Log in " <> container <> ": " <> truncate_line (trim_space line) in
    if is_problem_line line_lower
    then if has_infix message ignored_error_substring
      then none
      else some (record { message = message; kind = problem_type line_lower; timestamp = now })
    else none

abbrev listed : Option Observation → List Observation
listed none = []
listed (some o) = o ∷ []

unfoldable pub scan_lines : String → Time → List String → List Observation
scan_lines container now [] = []
scan_lines container now (line ∷ lines) =
    listed (scan_line container now line) ++ scan_lines container now lines

-- The test and the observation of the loop over the events.
unfoldable pub scan_event : ℤ → Time → Event → Option Observation
scan_event since now event =
    if ltb_ℤ (difference now.instant event.last_timestamp.instant) since
    then some (record {
      message = "Event: " <> event.reason <> " - " <> event.message;
      kind = "Warning";
      timestamp = event.last_timestamp;
    })
    else none

unfoldable pub scan_events : ℤ → Time → List Event → List Observation
scan_events since now [] = []
scan_events since now (event ∷ events) =
    listed (scan_event since now event) ++ scan_events since now events

abbrev pub keys : Dict ProblemDetail → List String
keys [] = []
keys ((key, problem) ∷ rest) = key ∷ keys rest

-- The loop over the map: its values in the order of the given keys.
unfoldable pub values_in_order : Dict ProblemDetail → List String → List ProblemDetail
values_in_order problems [] = []
values_in_order problems (key ∷ rest) =
    let others = values_in_order problems rest in
    elim (Dict.lookup key problems) [ none ↦ others | some problem ↦ problem ∷ others ]

module _ (S : Services) where
  open S use {World, now, range_order, list_warning_events, log_stream}

  -- Events that cannot be listed are logged, and passed over.
  unfoldable pub event_observations : Pod → ℤ → World → List Observation
  event_observations pod since w =
      check (list_warning_events pod.namespace pod.name w) (λ _. [])
        (λ events. scan_events since (now w) events)

  -- So are logs that cannot be opened; what was read before a failure counts.
  unfoldable pub container_observations : Pod → ℤ → List Container → World → List Observation
  container_observations pod since [] w = []
  container_observations pod since (container ∷ containers) w =
      check (log_stream pod.namespace pod.name container.name (quotient since second) w) (λ _. [])
        (λ (stream : LogStream). scan_lines container.name (now w) stream.lines)
      ++ container_observations pod since containers w

  unfoldable pub fetch_recent_problems : Pod → ℤ → World → List ProblemDetail
  fetch_recent_problems pod since w =
      let problems =
        add_problems
          (event_observations pod since w ++ container_observations pod since pod.containers w)
          [] in
      values_in_order problems (range_order w (keys problems))
