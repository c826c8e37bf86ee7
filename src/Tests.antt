-- ===== src/Tests.antt =====
-- A small shop, and the theorems at it.
mod Throttle
mod Crew
mod Goods
mod Qr
pub mod Shop
mod Carts
mod Payments
mod Edits
mod Gates
mod Bundling
