-- ===== src/Orders.antt =====
-- backend/src/orders/orders.service.ts and order-expire.service.ts: orders are placed, looked up,
-- cancelled by their owner, and expired by the hourly job.
pub mod View
pub mod Cancel
pub mod Create
pub mod Expire
