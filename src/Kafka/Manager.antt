-- ===== src/Kafka/Manager.antt =====
-- kafka-access-monitor-operator/cmd/main.go, with the constructors that it calls: NewSlackReporter,
-- NewDynamicParser, NewGeminiAnalyzer, NewBrokerLogFinder and NewGCPMetricsFinder, and SetupWithManager
-- of the controller.
mod Indexes
mod SetUp
mod Program
unfoldable pub use Indexes.*
unfoldable pub use SetUp.*
unfoldable pub use Program.*
