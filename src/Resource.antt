-- ===== src/Resource.antt =====
-- The resource package: objects as the operator code sees them, and patch requests.
pub mod Object
pub mod Patch
pub mod Samples
pub mod Client
pub mod Store
pub mod TypedStore
pub mod Updater
pub mod Metadata
pub mod SimpleStore
