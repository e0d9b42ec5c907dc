-- ===== src/Examples.antt =====
-- Tests of the models on small inputs, and the theorems at inputs that meet their hypotheses.
pub mod Streams
pub mod Quotas
pub mod Failures
pub mod Routes
pub mod Candles
pub mod Updates
pub mod Layers
pub mod Requests
pub mod Histories
pub mod Buckets
