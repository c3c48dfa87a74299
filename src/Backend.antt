-- ===== src/Backend.antt =====
-- backend/src/claw_api: the bookings of the API and their settlement on the escrow contract.
pub mod Models
pub mod Client
pub mod Service
pub mod Router
pub mod Tokens
pub mod Login
pub mod Workers
pub mod Realtime
pub mod Sealer
pub mod Messages
pub mod Delivery
pub mod Transitions
pub mod Locking
pub mod Closing
pub mod Overrun
pub mod Settled
pub mod PublicLedger
pub mod LedgerLocked
pub mod LedgerSums
pub mod Conversation
