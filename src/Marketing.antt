-- ===== src/Marketing.antt =====
-- web/src/components/marketing: the sections of the home page.
pub mod Announcement
pub mod How
pub mod Offerings
pub mod Supplier
pub mod Hero
pub mod Page
pub mod Laws
