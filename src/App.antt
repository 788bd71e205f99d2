-- ===== src/App.antt =====
-- The app package: the runners of several runnables.
pub mod Runner
pub mod DynamicRunner
pub mod SingletonRunner
