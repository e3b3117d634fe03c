-- ===== src/Kafka.antt =====
-- The Kafka access monitor (kafka-access-monitor-operator/).
pub mod Yaml
pub mod Parser
pub mod Types
pub mod Services
pub mod Diagnostics
pub mod Slack
pub mod Discovery
pub mod Google
pub mod Gemini
pub mod Inspect
pub mod Enrich
pub mod Analysis
pub mod DeepEqual
pub mod Events
pub mod Reconcile
pub mod Manager
mod Converted
mod Nesting
mod Brokers
mod Arrival
mod Answers
mod Variables
mod PodEntries
mod Sightings
mod Server
mod Uniques
mod Untouched
mod Storing
mod Selection
mod Sharing
mod Handles
mod Publishing
mod Unselected
mod Counting
mod Wiring
mod Ledger
mod Closing
mod Pages
mod Reports
mod Logging
mod Memory
mod Tests
