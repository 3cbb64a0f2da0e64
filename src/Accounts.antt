-- ===== src/Accounts.antt =====
-- sdk/src/accounts.ts: the addresses of the program's accounts.
use offline_bearer_protocol.Buffer.{Buffer}
use offline_bearer_protocol.Prelude.Text.{utf8}
use offline_bearer_protocol.Prelude.{ℕ, ◌%◌, List, [], ◌∷◌}
use offline_bearer_protocol.Solana.{PublicKey, Solana, TransactionInstruction}

module _ (net : Solana) where
  unfoldable create_program_owned_account_ix :
      PublicKey → PublicKey → ℕ → ℕ → PublicKey → List TransactionInstruction
  create_program_owned_account_ix payer new_account lamports space owner =
      net.create_account payer new_account lamports space owner ∷ net.assign new_account owner ∷ []

  unfoldable pub pda : Buffer → List Buffer → PublicKey × ℕ
  pda prefix extra = net.find_program_address (prefix ∷ extra) net.program_id

  unfoldable pub config_pda : PublicKey × ℕ
  unfolding pda
  config_pda = pda (utf8 "config") []

  unfoldable pub vault_pda : PublicKey × ℕ
  unfolding pda
  vault_pda = pda (utf8 "vault") []

  unfoldable pub fee_pda : PublicKey × ℕ
  unfolding pda
  fee_pda = pda (utf8 "fee") []

  unfoldable pub registry_pda : Buffer → PublicKey × ℕ
  unfolding pda
  registry_pda serial = pda (utf8 "mint") (serial ∷ [])

  unfoldable pub head_pda : Buffer → PublicKey × ℕ
  unfolding pda
  head_pda serial = pda (utf8 "head") (serial ∷ [])

  -- `Buffer.from([attempt])` keeps the low byte.
  unfoldable pub submission_pda : Buffer → ℕ → PublicKey × ℕ
  unfolding pda
  submission_pda serial attempt = pda (utf8 "submission") (serial ∷ (attempt % 256 ∷ []) ∷ [])

  unfoldable pub allowance_pda : PublicKey → PublicKey × ℕ
  unfolding pda
  allowance_pda recipient = pda (utf8 "allowance") (recipient ∷ [])

  unfoldable pub ata : PublicKey → PublicKey → PublicKey
  ata mint owner = net.associated_token_address mint owner
