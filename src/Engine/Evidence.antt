-- ===== src/Engine/Evidence.antt =====
-- What the experiments behind a result of `Analyze` (internal/experiment/engine.go) show.
pub mod Runs
pub mod Log
pub mod Drops
pub mod Proof
pub mod Proven
