-- ===== src/Interleaving.antt =====
-- Requests that run at the same time. A request reads an order, and later commits its transaction;
-- in between any number of transactions of other requests, of the hourly job and of the gateway's
-- callbacks commit. What each request read may be out of date when it commits.
pub mod Orders
pub mod Transactions
pub mod Cancelled
pub mod Steps
