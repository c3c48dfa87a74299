-- ===== src/Tests.antt =====
-- Concrete servers, forms and histories, at which the theorems are applied.
mod World
mod Codec
mod Server
mod Pages
mod Token
mod Escrow
mod Backend
mod Accounts
mod Relay
