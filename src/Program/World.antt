-- ===== src/Program/World.antt =====
-- All accounts that the program works on, and its instructions as steps on them. Each instruction of
-- programs/obp-core/src/instructions/checkin.rs sees the accounts of one coin.
pub mod Coins
pub mod Payments
pub mod Sound
pub mod Always
pub mod Live
use offline_bearer_protocol.Buffer.{Buffer, equals}
use offline_bearer_protocol.Instructions.Append.{Link}
use offline_bearer_protocol.Prelude.{
  ℕ, List, [], ◌∷◌, ◌≤◌, ◌≡◌, ◌≢◌, Option, none, some, Bool, Result, ok, if◌then◌else◌,
}
use offline_bearer_protocol.Program.Accounts.{Config, MintRegistry, HeadRegistry, Allowance}
use offline_bearer_protocol.Program.Append.{append_links}
use offline_bearer_protocol.Program.Context.{Context, CoinAccounts}
use offline_bearer_protocol.Program.Finalize.{FinalizeKeys, finalize_check_in}
use offline_bearer_protocol.Program.Init.{InitArgs, init}
use offline_bearer_protocol.Program.Mint.{World, find_coin, mint_coin}
use offline_bearer_protocol.Program.Settle.{SettleKeys, settle}
use offline_bearer_protocol.Program.Start.{start_check_in}
use offline_bearer_protocol.Program.Tokens.{TokenProgram, Addresses}
use offline_bearer_protocol.Program.Vault.{fund_vault, withdraw_vault, set_allowance}

unfoldable pub replace_coin : Buffer → CoinAccounts → List CoinAccounts → List CoinAccounts
replace_coin serial c' [] = []
replace_coin serial c' (c ∷ coins) =
    if equals c.registry.serial serial then c' ∷ coins else c ∷ replace_coin serial c' coins

module _ {Tokens : Type 0} where
  -- What an instruction on the coin sees, and the accounts with what it leaves.
  abbrev pub context_of : World Tokens → CoinAccounts → Context Tokens
  context_of w c = record {
    config = w.config;
    coin = c;
    allowances = w.allowances;
    tokens = w.tokens;
    slot = w.slot;
  }

  abbrev pub world_after : World Tokens → Buffer → Context Tokens → World Tokens
  world_after w serial ctx = record {
    config = ctx.config;
    coins = replace_coin serial ctx.coin w.coins;
    allowances = ctx.allowances;
    tokens = ctx.tokens;
    slot = w.slot;
  }

-- An instruction of the check-in that succeeds. The checker signs, and no one can sign as the vault.
pub data Acts {Tokens : Type 0} (hash : Buffer → Buffer) (spl : TokenProgram Tokens)
    (at : Addresses) (serial : Buffer) (ctx ctx' : Context Tokens) : Type 0 where
  starts :
      (attempt : ℕ) (state_0 checker checker_token escrow : Buffer)
      → checker ≢ at.vault_pda
      → start_check_in hash spl at serial attempt state_0 checker checker_token escrow ctx ≡ ok ctx'
      → Acts hash spl at serial ctx ctx'
  appends :
      (attempt : ℕ) (head_owner : Buffer) (links : List Link) (last_hash : Buffer)
      → append_links hash serial attempt head_owner links last_hash ctx ≡ ok ctx'
      → Acts hash spl at serial ctx ctx'
  finalizes :
      (attempt other_attempt : ℕ) (recipient : Buffer) (keys : FinalizeKeys)
      → finalize_check_in hash spl at serial attempt other_attempt recipient keys ctx ≡ ok ctx'
      → Acts hash spl at serial ctx ctx'
  settles :
      (attempt other_attempt : ℕ) (recipient : Buffer) (keys : SettleKeys)
      → settle hash spl at serial attempt other_attempt recipient keys ctx ≡ ok ctx'
      → Acts hash spl at serial ctx ctx'

-- One step: an instruction that succeeds, someone else's transfer, or a slot that passes.
pub data Step {Tokens : Type 0} (hash : Buffer → Buffer) (spl : TokenProgram Tokens)
    (at : Addresses) : World Tokens → World Tokens → Type 0 where
  on_coin :
      (w : World Tokens) (serial : Buffer) (c : CoinAccounts) (ctx' : Context Tokens)
      → find_coin serial w.coins ≡ some c
      → Acts hash spl at serial (context_of w c) ctx'
      → Step hash spl at w (world_after w serial ctx')
  mints :
      (w w' : World Tokens) (signer serial : Buffer) (value : ℕ)
      (recipient genesis_state_hash mint_tx vault : Buffer)
      → mint_coin hash spl at signer serial value recipient genesis_state_hash mint_tx vault w
        ≡ ok w'
      → Step hash spl at w w'
  funds :
      (w w' : World Tokens) (signer source vault : Buffer) (amount : ℕ)
      → signer ≢ at.vault_pda
      → fund_vault spl at signer source vault amount w ≡ ok w'
      → Step hash spl at w w'
  withdraws :
      (w w' : World Tokens) (signer source vault : Buffer) (amount : ℕ)
      → signer ≢ at.vault_pda
      → withdraw_vault spl at signer source vault amount w ≡ ok w'
      → Step hash spl at w w'
  allows :
      (w w' : World Tokens) (wallet : Buffer) (new_cap : ℕ)
      → set_allowance wallet new_cap w ≡ ok w'
      → Step hash spl at w w'
  transfers :
      (w : World Tokens) (tokens : Tokens) (source target authority : Buffer) (amount : ℕ)
      → authority ≢ at.vault_pda
      → spl.transfer w.tokens source target authority amount ≡ some tokens
      → Step hash spl at w (record w { tokens = tokens })
  passes :
      (w : World Tokens) (slot : ℕ) → w.slot ≤ slot → Step hash spl at w (record w { slot = slot })

-- What the steps reach after `init`.
pub data Reached {Tokens : Type 0} (hash : Buffer → Buffer) (spl : TokenProgram Tokens)
    (at : Addresses) : World Tokens → Type 0 where
  initialised :
      (mint_authority : Buffer) (bump : ℕ) (args : InitArgs) (config : Config)
      (allowances : Buffer → Option Allowance) (tokens : Tokens) (slot : ℕ)
      → init mint_authority bump args ≡ ok config
      → Reached hash spl at (record {
        config = config;
        coins = [];
        allowances = allowances;
        tokens = tokens;
        slot = slot;
      })
  later :
      (w w' : World Tokens) → Reached hash spl at w → Step hash spl at w w' → Reached hash spl at w'
