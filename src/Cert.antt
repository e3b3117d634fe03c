-- ===== src/Cert.antt =====
-- The certificate monitor (cert-monitor-operator/).
pub mod Types
pub mod Services
pub mod Selectors
pub mod Scan
pub mod DeepEqual
pub mod Status
pub mod Notifications
pub mod Initial
pub mod Messages
pub mod Notify
pub mod Reconcile
mod Expiry
mod Certificates
mod Scope
mod Republish
mod Delivery
mod Agreement
mod Utc
mod Daily
mod Durations
mod Silence
mod Server
mod Quiet
mod Recording
mod Selection
mod Holdings
mod Storing
mod Memory
pub mod Manager
mod Tests
