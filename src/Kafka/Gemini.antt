-- ===== src/Kafka/Gemini.antt =====
-- kafka-access-monitor-operator/internal/ai/analyzer.go.
use nacho_operators.Common.{
  String, ◌<>◌, ◌==◌, Option, none, some, List, [], ◌∷◌, map, nat_eq, if◌then◌else◌, errorf,
  wrapped, Result, ok, err, check, Go, pure, attempt,
}
use nacho_operators.Common.Strings.{join, decimal}
use nacho_operators.Common.Meta.{Response}
use nacho_operators.Kafka.Parser.{TopicInfo}
use nacho_operators.Kafka.Types.{ProblemDetail, PodAccessInfo, GeminiContent, GeminiResponse}
use nacho_operators.Kafka.Services.{Services}

abbrev topic_line : TopicInfo → String
topic_line t = "- " <> t.cluster <> "/" <> t.domain <> "/" <> t.subject

abbrev or_na : String → String
or_na s = if s == "" then "N/A" else s

abbrev log_snippets : List String → String
log_snippets [] = "N/A"
log_snippets (s ∷ ss) = "\n- " <> join (s ∷ ss) "\n- "

unfoldable pub build_prompt : {P : Type 0} → PodAccessInfo P → ProblemDetail → String
build_prompt pod problem =
    "\n"
    <> "\tYou are a Kubernetes and Kafka expert. Analyze the following problem detected in a pod and provide a structured response.\n"
    <> "\t\n"
    <> "\t**Pod Context:**\n"
    <> "\t- **Name:** "
    <> pod.pod_name
    <> "\n"
    <> "\t- **Namespace:** "
    <> pod.namespace
    <> "\n"
    <> "\t- **Kafka Client Type:** "
    <> pod.client_type
    <> "\n"
    <> "\t- **Group ID:** "
    <> pod.group_id
    <> "\n"
    <> "\t- **Detected Broker Endpoints:** "
    <> join pod.detected_broker_endpoints ", "
    <> "\n"
    <> "\t- **Detected Topics:**\n"
    <> "\t"
    <> or_na (join (map topic_line pod.topics) "\n")
    <> "\n"
    <> "\t\n"
    <> "\t**Logged Problem:**\n"
    <> "\t- **Severity:** "
    <> problem.kind
    <> "\n"
    <> "\t- **Message:** "
    <> problem.message
    <> "\n"
    <> "\t- **Occurrences:** "
    <> decimal problem.count
    <> "\n"
    <> "\t\n"
    <> "\t**Broker Log Snippets:**\n"
    <> "\t"
    <> log_snippets problem.broker_log_snippets
    <> "\n"
    <> "\t\n"
    <> "\t**Your Task:**\n"
    <> "\tBased on this information, provide an analysis in two parts:\n"
    <> "\t1.  **Probable Root Cause:** Describe in 1-2 sentences what the most likely cause of the error might be.\n"
    <> "\t2.  **Recommendations:** Offer 2-3 concrete tips or improvements (e.g., configuration, code best practices, resilience) for this type of Kafka producer/consumer.\n"
    <> "\t"

-- The text of the first part of the first candidate, which is there.
abbrev first_part : List GeminiContent → Option String
first_part [] = none
first_part (candidate ∷ candidates) = elim candidate.parts [ [] ↦ none | part ∷ parts ↦ some part ]

unfoldable pub analysis_in : GeminiResponse → Result String
analysis_in answer = elim (first_part answer.candidates) [
  | some part ↦ ok part
  | none ↦
      if answer.block_reason == ""
      then err (errorf "no content received from AI API")
      else err (errorf "prompt was blocked by the API, reason: %s")
]

module _ (S : Services) where
  open S use {World, marshal_prompt, new_request, http_do, api_key, unmarshal_gemini}

  abbrev api_url : String
  api_url =
      "https://generativelanguage.googleapis.com/v1beta/models/gemini-1.5-flash:generateContent?key="
      <> api_key

  abbrev read_response : Response → Result String
  read_response response =
      if nat_eq response.status_code 200
      then check (unmarshal_gemini response.body)
          (λ e. err (wrapped "failed to decode response body: %w" e)) analysis_in
      else err (errorf "API returned non-200 status: %s")

  unfoldable pub call_api : String → Go World (Result String)
  call_api prompt w =
      check (marshal_prompt prompt) (λ e. (err (wrapped "failed to marshal request body: %w" e), w))
        λ body. elim (new_request api_url) [
          | some e ↦ (err (wrapped "failed to create request: %w" e), w)
          | none ↦
              attempt (http_do (record { url = api_url; authorization = none; body = body }))
                (λ e. pure (err (wrapped "API call failed: %w" e)))
                (λ response. pure (read_response response)) w
        ]

  unfoldable pub analyze : {P : Type 0} → PodAccessInfo P → ProblemDetail → Go World (Result String)
  analyze pod problem = call_api (build_prompt pod problem)
