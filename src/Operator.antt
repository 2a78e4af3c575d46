-- ===== src/Operator.antt =====
-- The reconciler of controllers/workspace_controller.go. `Env` has what it is configured with, what
-- the API server answers and what the reconciler asks for; `Helpers`, `Ensure`, `PodStages` and
-- `Reconcile` have its methods, and their children what is proved of them.
pub mod Env
pub mod Helpers
pub mod Ensure
pub mod PodStages
pub mod Reconcile
pub mod Settings
pub mod Cluster
