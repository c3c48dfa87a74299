-- ===== src/Dashboard.antt =====
-- The pages under web/src/app/dashboard.
pub mod Laws
pub mod Sidebar
pub mod Home
pub mod Bookings
