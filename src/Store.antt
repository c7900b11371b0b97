-- ===== src/Store.antt =====
-- The stores (internal/store).
pub mod Types
pub mod Layered
pub mod Balance
pub mod Keys
pub mod Log
pub mod Variants
pub mod Hashes
pub mod Feedback
pub mod Pg
pub mod LogKeys
mod Tests
mod RedisTests
pub mod MiniKv
mod TierTests
mod MiniRedis
mod FeedbackTests
mod PgTests
