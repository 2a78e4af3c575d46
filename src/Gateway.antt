-- ===== src/Gateway.antt =====
-- The gateway (pkg/gateway and cmd/gateway): who a request is from, and that user's workspace.
pub mod UserId
pub mod Lifecycle
pub mod RateLimit
pub mod TokenCache
pub mod Recording
pub mod Auth
pub mod Audit
pub mod Activity
pub mod Proxy
pub mod Web
pub mod Program
pub mod Metrics
