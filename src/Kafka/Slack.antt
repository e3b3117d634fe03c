-- ===== src/Kafka/Slack.antt =====
-- kafka-access-monitor-operator/internal/discovery/slack_reporter.go. The pause before a message is
-- left out.
use Prim.Native.Nat.{Ordering}
use Prim.Native.String.{compare, len}
use nacho_operators.Common.{
  ℕ, suc, ◌+◌, ◌-◌, String, ◌<>◌, ◌==◌, Bool, true, false, none, some, List, [], ◌∷◌, ◌++◌, map,
  ltb, nat_eq, length, if◌then◌else◌, errorf, wrapped, Result, ok, err, check, Go, pure, attempt,
}
use nacho_operators.Common.Dict
use nacho_operators.Common.Dict.{Dict}
use nacho_operators.Common.Int.{pos}
use nacho_operators.Common.Strings.{join, decimal, take_bytes, pad_right}
use nacho_operators.Kafka.Parser.{TopicInfo}
use nacho_operators.Kafka.Types.{PodAccessInfo}
use nacho_operators.Kafka.Services.{Services}

-- `coalesce`, of two
unfoldable pub coalesce : String → String → String
coalesce a b = if a == "" then b else a

unfoldable pub get_topics_as_string : List TopicInfo → String
get_topics_as_string topics = join (map (λ (t : TopicInfo). t.subject) topics) ","

unfoldable pub truncate : String → ℕ → String
truncate s length = if ltb length (len s) then take_bytes (length - 3) s <> "..." else s

unfoldable pub format_with_na : String → String
format_with_na value = if value == "" then "N/A" else value

abbrev row : String → String → String
row label value = pad_right 22 label <> ": " <> format_with_na value

unfoldable pub client_icon : String → String
client_icon client_type =
    if client_type == "Consumer"
    then ":large_blue_circle:"
    else if client_type == "Producer"
    then ":large_orange_circle:"
    else ":white_circle:"

abbrev less : String → String → Bool
less a b = elim (compare a b) [ Ordering.lt ↦ true | _ ↦ false ]

module _ {P : Type 0} where
  unfoldable pub format_pod_details_as_table : PodAccessInfo P → String
  format_pod_details_as_table pod =
      row "Type" pod.client_type
      <> "\n"
      <> row "Group/Client ID" (coalesce pod.group_id pod.client_id)
      <> "\n"
      <> row "Topics" (truncate (get_topics_as_string pod.topics) 70)
      <> "\n"
      <> row "Brokers" (truncate (join pod.detected_broker_endpoints ",") 70)
      <> "\n"
      <> row "Schema Registry URL" pod.schema_registry_url
      <> "\n"
      <> row "Source" pod.source_of_endpoint

  unfoldable pub format_single_pod : PodAccessInfo P → String
  format_single_pod pod =
      "\n"
      <> client_icon pod.client_type
      <> " *"
      <> pod.pod_name
      <> "*\n"
      <> "```\n"
      <> format_pod_details_as_table pod
      <> "```"

  -- The order of the report within a namespace.
  unfoldable pub is_before : PodAccessInfo P → PodAccessInfo P → Bool
  is_before a b =
      if a.namespace == b.namespace
      then less a.client_type b.client_type
      else less a.namespace b.namespace

  abbrev members : String → Dict (List (PodAccessInfo P)) → List (PodAccessInfo P)
  members namespace groups = elim (Dict.lookup namespace groups) [ none ↦ [] | some pods ↦ pods ]

  unfoldable pub by_namespace :
      List (PodAccessInfo P) → Dict (List (PodAccessInfo P)) → Dict (List (PodAccessInfo P))
  by_namespace [] groups = groups
  by_namespace (pod ∷ pods) groups =
      by_namespace pods
        (Dict.insert pod.namespace (members pod.namespace groups ++ (pod ∷ [])) groups)

abbrev rule_line : String
rule_line = "────────────────────────────────────────"

unfoldable pub first_header : String → ℕ → String
first_header namespace pods =
    "\n\n*:k8s: Namespace: `"
    <> namespace
    <> "` ("
    <> decimal (pos pods)
    <> " clientes)*\n"
    <> rule_line
    <> "\n"

unfoldable pub page_header : String → ℕ → String
page_header namespace page =
    "*:k8s: Namespace: `"
    <> namespace
    <> "` (Página "
    <> decimal (pos page)
    <> ")*\n"
    <> rule_line
    <> "\n"

abbrev pub slack_char_limit : ℕ
slack_char_limit = 3500

-- The loop over the pods of a namespace: the messages that it sends, the last one among them, if
-- that is longer than the first header.
unfoldable pub paginate : (ℕ → String) → ℕ → ℕ → String → List String → List String
paginate header minimum page chunk [] = if ltb minimum (len chunk) then chunk ∷ [] else []
paginate header minimum page chunk (report ∷ reports) =
    elim (ltb slack_char_limit (len chunk + len report)) [
      | true ↦ chunk ∷ paginate header minimum (suc page) (header (suc page) <> report) reports
      | false ↦ paginate header minimum page (chunk <> report) reports
    ]

unfoldable pub messages : String → ℕ → List String → List String
messages namespace pods reports =
    paginate (page_header namespace) (len (first_header namespace pods)) 1
      (first_header namespace pods) reports

abbrev summary_text : String → ℕ → String
summary_text time pods =
    ":mag: *Informe de Acceso a Kafka - "
    <> time
    <> "*\nSe han detectado *"
    <> decimal (pos pods)
    <> "* clientes en total, detallados a continuación."

module _ (S : Services) where
  open S use {
    World, now, range_order, marshal_text, new_request, http_do, webhook_url, sort_slice,
    format_time,
  }

  unfoldable pub send_to_slack : String → Go World (Result (Unit {0}))
  send_to_slack msg w =
      check (marshal_text msg)
        (λ e. (err (wrapped "failed to marshal slack message payload: %w" e), w))
        λ body. elim (new_request webhook_url) [
          | some e ↦ (err (wrapped "failed to create slack request: %w" e), w)
          | none ↦
              attempt (http_do (record { url = webhook_url; authorization = none; body = body }))
                (λ e. pure (err (wrapped "failed to send message to slack: %w" e)))
                (λ response. pure (
                  if nat_eq response.status_code 200
                  then ok tt
                  else err (errorf "failed to send message, received status code: %d, body: %s")))
                w
        ]

  -- What `sendChunk` cannot send is printed only.
  unfoldable pub send_chunks : List String → Go World (Unit {0})
  send_chunks [] w = (tt, w)
  send_chunks (chunk ∷ chunks) w = send_chunks chunks (send_to_slack chunk w).1

  module _ {P : Type 0} where
    unfoldable pub namespace_messages : String → List (PodAccessInfo P) → List String
    namespace_messages namespace pods =
        messages namespace (length pods) (map format_single_pod (sort_slice is_before pods))

    unfoldable pub send_namespaces :
        Dict (List (PodAccessInfo P)) → List String → Go World (Unit {0})
    send_namespaces groups [] w = (tt, w)
    send_namespaces groups (namespace ∷ namespaces) w =
        send_namespaces groups namespaces
          (send_chunks (namespace_messages namespace (members namespace groups)) w).1

    abbrev names : Dict (List (PodAccessInfo P)) → List String
    names [] = []
    names ((name, pods) ∷ groups) = name ∷ names groups

    unfoldable pub send_report : List (PodAccessInfo P) → Go World (Result (Unit {0}))
    send_report [] w = (ok tt, w)
    send_report (pod ∷ pods) w =
        attempt (send_to_slack (summary_text (format_time (now w)) (length (pod ∷ pods))))
          (λ e. pure (err (wrapped "failed to send summary message to Slack: %w" e)))
          (λ _ w'.
            let groups = by_namespace (pod ∷ pods) [] in
            let (_, w'') = send_namespaces groups (range_order w' (names groups)) w' in
            (ok tt, w''))
          w
