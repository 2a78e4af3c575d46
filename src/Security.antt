-- ===== src/Security.antt =====
-- What pkg/security builds: network policies and RBAC objects. The proofs stand in the children
-- named for what they prove.
pub mod Policy
pub mod Netpol
pub mod Rbac
