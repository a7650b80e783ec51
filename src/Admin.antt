-- ===== src/Admin.antt =====
-- The back office, backend/src/admin/.
pub mod Orders
