-- ===== src/Tests.antt =====
-- Runs of the services on the sample shop, and the instances of the theorems.
mod Runs
mod Witnesses
mod Members
mod Sales
mod Site
mod Pages
mod Desk
