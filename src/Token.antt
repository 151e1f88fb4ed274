-- ===== src/Token.antt =====
-- Installation tokens: app/installation-token-plan.ts and app/installation-token-exchange-adapter.ts.
pub mod Plan
pub mod Exchange
