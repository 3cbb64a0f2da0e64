-- ===== src/Program.antt =====
-- The on-chain program (programs/obp-core/src).
pub mod State
pub mod Accounts
pub mod Errors
pub mod Words
pub mod Status
pub mod Tokens
pub mod Context
pub mod Checks
pub mod Start
pub mod Append
pub mod Finalize
pub mod Settle
pub mod History
pub mod Backing
pub mod Dispute
pub mod Outcome
pub mod Handled
pub mod Mint
pub mod Vault
pub mod Init
pub mod World
