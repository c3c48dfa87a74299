-- ===== src/Supplier.antt =====
-- The pages of a supplier, under web/src/app/dashboard/suppliers and become-supplier.
pub mod Become
pub mod Form
pub mod Untouched
pub mod Offerings
pub mod Workers
pub mod NewWorker
pub mod Laws
