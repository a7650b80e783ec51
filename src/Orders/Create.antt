-- ===== src/Orders/Create.antt =====
-- `OrdersService.create`, part by part.
pub mod Amount
pub mod Input
pub mod Lines
pub mod Intent
pub mod Replay
pub mod Retry
pub mod Place
pub mod Service
