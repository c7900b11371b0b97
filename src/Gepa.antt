-- ===== src/Gepa.antt =====
-- The prompt optimizer (internal/optimizer/gepa).
pub mod Candidate
pub mod Pareto
pub mod Selection
pub mod Dataset
pub mod Best
pub mod Run
pub mod Scorer
pub mod Reflect
pub mod Llm
mod Tests
mod RunTests
