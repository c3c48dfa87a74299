-- ===== src/Escrow.antt =====
-- contracts/src/ClawEscrow.sol: the escrow contract of the settlement rail.
pub mod Mapping
pub mod Result
pub mod Contract
pub mod Calls
pub mod Effect
pub mod Price
pub mod Sound
pub mod Refines
pub mod System
pub mod Settle
pub mod Outcome
pub mod Exit
pub mod Lifecycle
