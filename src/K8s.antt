-- ===== src/K8s.antt =====
-- The k8s package.
pub mod Admission
pub mod Client
pub mod Errors
pub mod Watch
pub mod Webhooks
