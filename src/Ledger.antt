-- ===== src/Ledger.antt =====
-- web/src/components/ledger and the pages that show the ledger.
pub mod Chip
pub mod Stats
pub mod Table
pub mod Chain
pub mod Tape
pub mod Page
pub mod Laws
