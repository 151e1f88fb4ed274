-- ===== src/Examples.antt =====
-- Runs of the models at concrete inputs, and the theorems at inputs where their hypotheses hold.
mod Permissions
mod Webhook
mod Token
mod Gate
mod Plan
mod Writer
mod Pipeline
mod Registry
mod Audit
mod Readiness
mod Switch
