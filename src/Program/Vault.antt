-- ===== src/Program/Vault.antt =====
-- programs/obp-core/src/instructions/vault.rs and allowance.rs.
pub mod Closed
use offline_bearer_protocol.Buffer.{Buffer, equals}
use offline_bearer_protocol.Prelude.{
  ℕ, ◌+◌, Option, none, some, Bool, ◌&&◌, Result, ok, err, guard, some_or, ◌>>=◌, ◌>>◌, leb,
}
use offline_bearer_protocol.Program.Accounts.{Config, Allowance}
use offline_bearer_protocol.Program.Checks.{pda_transfer}
use offline_bearer_protocol.Program.Context.{put}
use offline_bearer_protocol.Program.Errors
use offline_bearer_protocol.Program.Errors.{Failure, obp, account_error}
use offline_bearer_protocol.Program.Mint.{World}
use offline_bearer_protocol.Program.Tokens.{TokenProgram, TokenAccount, Addresses}
use offline_bearer_protocol.Program.Words.{add_word}

module _ {Tokens : Type 0} where
  module _ (spl : TokenProgram Tokens) (at : Addresses) where
    -- A token account with the vault's mint and an owner.
    unfoldable pub owned_account : World Tokens → Buffer → Buffer → Result Failure TokenAccount
    owned_account w key owner = do
      a ← some_or (spl.account w.tokens key) account_error
      guard (equals a.mint w.config.vault_mint && equals a.owner owner) (obp Errors.status_invalid)
      ok a

    unfoldable pub fund_vault :
        Buffer → Buffer → Buffer → ℕ → World Tokens → Result Failure (World Tokens)
    unfolding owned_account pda_transfer
    fund_vault signer source vault amount w = do
      guard (equals signer w.config.mint_authority) (obp Errors.status_invalid)
      from ← owned_account w source signer
      target ← owned_account w vault at.vault_pda
      tokens ← pda_transfer spl w.tokens source vault signer amount
      ok (record w { tokens = tokens })

    -- The transfer has the mint authority as its authority, here too.
    unfoldable pub withdraw_vault :
        Buffer → Buffer → Buffer → ℕ → World Tokens → Result Failure (World Tokens)
    unfolding owned_account add_word pda_transfer
    withdraw_vault signer source vault amount w = do
      guard (equals signer w.config.mint_authority) (obp Errors.status_invalid)
      from ← owned_account w source at.vault_pda
      target ← owned_account w vault signer
      kept ← add_word 64 w.config.total_unspent_supply amount
      guard (leb kept from.amount) (obp Errors.vault_underflow)
      tokens ← pda_transfer spl w.tokens source vault signer amount
      ok (record w { tokens = tokens })

  -- The allowance's account is the one at the wallet's address.
  unfoldable pub set_allowance : Buffer → ℕ → World Tokens → Result Failure (World Tokens)
  unfolding put
  set_allowance wallet new_cap w = do
    a ← some_or (w.allowances wallet) account_error
    guard (leb a.committed new_cap) (obp Errors.allowance_cap_below_committed)
    ok (record w { allowances = put wallet (record a { cap = new_cap }) w.allowances })
