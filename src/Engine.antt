-- ===== src/Engine.antt =====
-- internal/engine
pub mod Config
pub mod Segments
pub mod Worker
pub mod Release
pub mod Accounting
pub mod Inject
pub mod Handle
pub mod Collector
pub mod Shutdown
pub mod Dispatch
pub mod Exit
