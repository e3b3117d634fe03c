-- ===== src/Upgrade.antt =====
-- The upgrade orchestrator (upgrade-orchestrator/).
pub mod Types
pub mod Kube
pub mod Nodes
pub mod Workloads
pub mod Pdb
pub mod Migration
pub mod Reconcile
pub mod Server
pub mod Quiet
pub mod StateMachine
pub mod TargetVersion
pub mod Taints
pub mod Gate
pub mod Budgets
mod FoundBudgets
mod Guarding
mod Advances
mod Placement
mod Others
mod Ordering
mod Cleanup
mod Rollout
mod Rounds
pub mod Branches
pub mod Memory
pub mod Manager
mod Tests
