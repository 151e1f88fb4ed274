-- ===== src/Webhook.antt =====
-- The webhook side of the actuator: app/webhook-intake.ts, app/webhook-route-dispatcher.ts and
-- app/webhook-request-handler.ts.
pub mod Route
pub mod Intake
pub mod Handler
