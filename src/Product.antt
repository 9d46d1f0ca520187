-- ===== src/Product.antt =====
-- The product's own services.
pub mod Entitlements
