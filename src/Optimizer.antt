-- ===== src/Optimizer.antt =====
-- The optimizer's driver and promoter (internal/optimizer).
pub mod Prompts
pub mod Driver
pub mod Janitor
mod Tests
mod JanitorTests
