-- ===== src/Tests.antt =====
-- Concrete runs: sample data, and each theorem that has hypotheses or parameters, applied.
mod Samples
mod Outside
mod Agent
mod Discovery
mod Checks
mod Messages
mod Tables
mod Loadtest
mod Lifecycle
