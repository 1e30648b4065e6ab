-- ===== src/Examples.antt =====
-- Runs of the development's theorems at concrete inputs.
mod Data
mod Chains
mod Agent
mod Access
mod Server
mod Monitors
mod Exit
mod Startup
mod Scores
mod Handler
mod Runs
mod Kept
