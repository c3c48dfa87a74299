-- ===== src/Site.antt =====
-- The parts of the public site that are no page of their own.
pub mod Frame
pub mod Errors
