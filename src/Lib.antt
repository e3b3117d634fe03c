-- ===== src/Lib.antt =====
-- Three operators for Kubernetes, written in Go with controller-runtime, modelled by shallow
-- embedding: each function of the source is a function here, with its guards and early returns, and
-- each call that may change the cluster passes the world on.
--
-- The parts. upgrade-orchestrator guides workloads through an upgrade of the nodes: it watches for
-- cordoned nodes, blocks the disruption of dependent workloads by budgets, and releases a workload
-- when its dependencies run on new nodes. cert-monitor-operator scans the secrets of the cluster for
-- X.509 certificates, reports their expiry in the status of a CertificateMonitor, and notifies by
-- webhook, mail and Opsgenie, once a day at most. kafka-access-monitor-operator finds the pods that
-- use Kafka by their environment and their mounted configuration, collects their problems from events
-- and logs, adds metrics of the brokers and an analysis by an AI service, and writes all of it to the
-- status of a KafkaAccessQuery, to Slack and to the log. The three share no code; what they share of
-- controller-runtime is in Common, and so is what their programs (cmd/main.go) have word for word in
-- common.
--
-- The files, with paths from the root of the repository:
-- - Common: lists, texts, association lists for Go's maps, signed integers, `(value, error)` results,
--   calls that change the world, `ctrl.Result`, label selectors, float64, and functions of package
--   strings.
-- - Upgrade: upgrade-orchestrator/internal/controller/upgradeorchestrator_controller.go and
--   upgrade-orchestrator/api/v1alpha1/upgradeorchestrator_types.go. Upgrade/Types has the objects,
--   Upgrade/Kube the client as a record of operations, Upgrade/Nodes, Upgrade/Workloads, Upgrade/Pdb
--   and Upgrade/Migration the helpers, Upgrade/Reconcile the handlers. Upgrade/Server has what is
--   assumed of an API server, as records of laws, each met by the cluster of Upgrade/Memory. The
--   proofs are in Upgrade/Quiet, Upgrade/StateMachine, Upgrade/Gate, Upgrade/Budgets,
--   Upgrade/FoundBudgets, Upgrade/Guarding, Upgrade/Taints, Upgrade/TargetVersion and
--   Upgrade/Branches. Those on rounds over the plan while the cluster moves pods are in
--   Upgrade/Advances, Upgrade/Placement, Upgrade/Rollout and Upgrade/Rounds, and those on what a
--   round leaves alone in Upgrade/Others and Upgrade/Ordering; Upgrade/Cleanup is on the cleanup.
--   Upgrade/Advances, Upgrade/Others and Upgrade/Cleanup have laws of the server, which the modules
--   of Upgrade/Tests show for the cluster of Upgrade/Memory.
-- - Cert: cert-monitor-operator/internal/controller/certificatemonitor_controller.go,
--   cert-monitor-operator/pkg/notifications/notifications.go,
--   cert-monitor-operator/pkg/utils/secrets.go and
--   cert-monitor-operator/api/v1alpha1/certificatemonitor_types.go. Cert/Services has what comes
--   from outside, Cert/Selectors, Cert/Scan, Cert/DeepEqual, Cert/Status, Cert/Messages,
--   Cert/Notifications, Cert/Notify and Cert/Reconcile the code. Cert/Initial has what differs in
--   cert-monitor-operator-INITIAL/, in cmd/main.go and pkg/notifications/notifications.go.
--   Cert/Server has what is assumed of an API server and of retrying, which the cluster of
--   Cert/Memory meets. The proofs are in Cert/Durations, Cert/Expiry, Cert/Certificates, Cert/Scope,
--   Cert/Republish, Cert/Utc, Cert/Delivery, Cert/Agreement, Cert/Daily, Cert/Silence,
--   Cert/Selection, Cert/Holdings, Cert/Storing, Cert/Quiet and Cert/Recording.
-- - Kafka: kafka-access-monitor-operator/. Kafka/Types is api/v1alpha1/kafkaaccessquery_types.go and
--   the types of the packages discovery and ai, Kafka/Services what comes from outside. Of
--   internal/discovery/, Kafka/Yaml and Kafka/Parser are kafka_parser.go, Kafka/Diagnostics is
--   diagnostics_finder.go, Kafka/Discovery has pod_finder.go, configmap_finder.go, secret_finder.go and
--   authn_enricher.go, Kafka/Google has broker_log_finder.go and gcp_metrics_finder.go, Kafka/Slack is
--   slack_reporter.go. Kafka/Gemini is internal/ai/analyzer.go. Kafka/Inspect, Kafka/Enrich,
--   Kafka/Analysis, Kafka/DeepEqual, Kafka/Events and Kafka/Reconcile are
--   internal/controller/kafkaaccessquery_controller.go, in the order of Reconcile. Kafka/Manager is
--   cmd/main.go, with the constructors that it calls. Kafka/Server has what is assumed of an API
--   server, which the cluster of Kafka/Memory meets. The proofs are in Kafka/Converted,
--   Kafka/Nesting, Kafka/Brokers, Kafka/Arrival, Kafka/Answers, Kafka/Selection, Kafka/Variables,
--   Kafka/PodEntries, Kafka/Sightings, Kafka/Uniques, Kafka/Untouched, Kafka/Storing,
--   Kafka/Sharing, Kafka/Handles, Kafka/Publishing, Kafka/Unselected, Kafka/Counting, Kafka/Pages,
--   Kafka/Reports, Kafka/Logging, Kafka/Wiring, Kafka/Ledger and Kafka/Closing.
-- - Common/Manager, Upgrade/Manager and Cert/Manager: the other programs, cmd/main.go of
--   upgrade-orchestrator and of cert-monitor-operator, and SetupWithManager of their controllers. The
--   proofs on the servers of all programs are in Managers.
-- A module Tests in each part has runs and the theorems at concrete data.
--
-- How the code corresponds. Names are the source's, in snake case. A read is a function of the world,
-- a write gives a result and a world, and a request to a web or a mail server is such a write. A read
-- that the code makes without a write in between sees one world: what other clients do meanwhile is
-- seen at the next write. `Update` and `Status().Update` overwrite the object in memory with the
-- server's answer, and so does the model. A Go map is an association list; where the code ranges over
-- one, the order is a parameter or the order of the list. A nil pointer is `none`, a nil map the empty
-- one, and a nil slice is told from an empty one where reflect.DeepEqual tells them apart. Logging is
-- left out, and an error made by fmt.Errorf is its format with what it wraps.
--
-- Bounds and fuel. Instants and durations are in nanoseconds; Cert/Scan writes the saturation of
-- time.Duration out, and the division of the days rounds as float64 does: Common/Float has numbers of
-- float64 as multiples of 2 ^ -100, which is fine enough for the hours and days of a duration, and
-- rounds with a fuel of 128 binary digits, of which a duration needs 69. recursiveParse runs with two
-- levels of depth in Kafka/Parser, which is enough: more depth gives the same result. The digits
-- of a number in Common/Strings have as fuel a number that is never below their count. ToLower and
-- EqualFold are those of ASCII.
--
-- What is not modelled. The client libraries, package labels, semver, JSON, YAML, PEM, X.509, HTTP,
-- SMTP, the clients of Google Cloud, packages flag and os are parameters. The registration of the API
-- types in the scheme and generated deep copies (zz_generated.deepcopy.go) are left out, since values
-- of the model are immutable; so are test scaffolding, and the log but for the events for BigQuery.
-- cert-monitor-operator-INITIAL is an earlier copy of cert-monitor-operator: of what is the same but
-- for blanks, comments, import paths and the name of the API group, only the later copy is modelled.
pub mod Common
pub mod Upgrade
pub mod Cert
pub mod Kafka
pub mod Managers
