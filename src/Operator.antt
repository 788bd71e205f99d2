-- ===== src/Operator.antt =====
-- The operator package.
pub mod Io
mod Samples
pub mod Trace
pub mod ListMap
mod Events
mod EventQueue
mod ConcurrentWatcher
mod Controller
mod CustomCache
pub mod Finalizers
pub mod Watcher
pub mod Action
pub mod Reconciler
pub mod Retry
