-- ===== src/Examples.antt =====
-- The theorems at concrete inputs, on fixed-point amounts in ten-thousandths of a dollar.
mod Guardian
mod Account
mod Rollout
mod Review
mod Gates
mod Retry
mod Cost
mod Evidence
mod Momentum
mod Runs
mod Autonomy
mod Ranking
mod Aggregate
