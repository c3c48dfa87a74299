-- ===== src/Worker.antt =====
-- worker/src: the process on a supplier's machine that runs the sandboxes of the bookings.
pub mod Events
pub mod Booking
pub mod Loop
pub mod Tracked
pub mod Cancel
pub mod Safe
