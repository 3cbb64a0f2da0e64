-- ===== src/Program/Tokens.antt =====
-- What programs/obp-core takes from the token program and from Solana's accounts, as parameters.
-- `Tokens` is the state of all accounts that are not the program's own.
use offline_bearer_protocol.Buffer.{Buffer}
use offline_bearer_protocol.Prelude.{ℕ, ◌+◌, ◌≤◌, ◌≡◌, ◌≢◌, ◌⊎◌, Option, none, some}

-- An account as any program sees it.
pub record AccountInfo : Type 0 where
  pub program : Buffer
  pub content : Buffer

-- A token account, as Anchor reads it.
pub record TokenAccount : Type 0 where
  pub mint : Buffer
  pub owner : Buffer
  pub amount : ℕ
  pub delegate : Option Buffer

-- `transfer` has a source, a target, the authority that signs and an amount.
pub record TokenProgram (Tokens : Type 0) : Type 0 where
  pub id : Buffer
  pub info : Tokens → Buffer → AccountInfo
  pub account : Tokens → Buffer → Option TokenAccount
  pub transfer : Tokens → Buffer → Buffer → Buffer → ℕ → Option Tokens

-- The addresses that the program derives: of a submission by serial and attempt, of the vault and
-- of the fee sink; and the bumps of the accounts that store theirs.
pub record Addresses : Type 0 where
  pub sub_pda : Buffer → ℕ → Buffer
  pub vault_pda : Buffer
  pub fee_pda : Buffer
  pub allowance_pda : Buffer → Buffer
  pub submission_bump : Buffer → ℕ → ℕ
  pub registry_bump : Buffer → ℕ
  pub head_bump : Buffer → ℕ
  pub allowance_bump : Buffer → ℕ

-- What a transfer does to the account at an address.
pub record Moves (address source : Buffer) (amount : ℕ) (a b : TokenAccount) : Type 0 where
  pub same_mint : b.mint ≡ a.mint
  pub same_owner : b.owner ≡ a.owner
  pub no_delegate : a.delegate ≡ none → b.delegate ≡ none
  pub takes_at_most : a.amount ≤ b.amount + amount
  pub takes_from_source : address ≢ source → a.amount ≤ b.amount

-- What the token program promises of a transfer that succeeds: its source holds the amount, its
-- authority is the source's owner or delegate, and only the source can lose tokens, no more than
-- the amount.
pub record IsTokenProgram {Tokens : Type 0} (spl : TokenProgram Tokens) : Type 0 where
  pub authorized :
      (t t' : Tokens) (source target authority : Buffer) (amount : ℕ)
      → spl.transfer t source target authority amount ≡ some t'
      → (a : TokenAccount) × (spl.account t source ≡ some a)
        × (amount ≤ a.amount)
        × ((a.owner ≡ authority) ⊎ (a.delegate ≡ some authority))
  pub moves :
      (t t' : Tokens) (source target authority : Buffer) (amount : ℕ) (address : Buffer)
      (a : TokenAccount)
      → spl.transfer t source target authority amount ≡ some t'
      → spl.account t address ≡ some a
      → (b : TokenAccount) × (spl.account t' address ≡ some b) × Moves address source amount a b
