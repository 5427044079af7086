-- ===== src/Engine.antt =====
-- internal/experiment/engine.go: the analysis of a good and a bad capture.
-- What the engine calls of other packages and of the system is a `Lab` over a state `W`: the
-- context, identifiers, the cache, the workspace, the runner, the oracle and the store. Durations
-- and the times of records are left out. An error is its text. Numbers that Go has as `int` and
-- that a request leaves out or gives below 1 are 0 here.
pub mod Lab
pub mod World
pub mod Trials
pub mod Stages
pub mod Analyze
pub mod Evidence
