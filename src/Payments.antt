-- ===== src/Payments.antt =====
-- backend/src/payments/payments.service.ts: payment links, spending limits for the agent, and the
-- gateway's callbacks.
pub mod PayUrl
pub mod Intents
pub mod Settle
pub mod Callback
