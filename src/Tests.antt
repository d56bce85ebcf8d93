-- ===== src/Tests.antt =====
-- Concrete runs of the model: small tests, and the theorems applied at inputs that meet their
-- hypotheses.
mod Fixtures
mod Bounds
mod Targets
mod Baselines
mod Economy
mod Watch
mod Hub
mod Failing
mod Fan
mod Holds
mod Week
mod Guards
mod Sources
mod Airing
mod Valve
mod Damp
