-- ===== src/Solana.antt =====
-- What the SDK takes from @solana/web3.js and @solana/spl-token, as a parameter of the model. A
-- public key is its 32 bytes.
use offline_bearer_protocol.Buffer.{Buffer}
use offline_bearer_protocol.Prelude.{ℕ, List, Bool}

abbrev pub PublicKey : Type 0
PublicKey = Buffer

pub record AccountMeta : Type 0 where
  pub pubkey : PublicKey
  pub is_writable : Bool
  pub is_signer : Bool

pub record TransactionInstruction : Type 0 where
  pub program : PublicKey
  pub keys : List AccountMeta
  pub content : Buffer

pub record Solana : Type 0 where
  pub program_id : PublicKey
  pub ed25519_precompile_id : PublicKey
  pub token_program_id : PublicKey
  pub system_program_id : PublicKey
  pub find_program_address : List Buffer → PublicKey → PublicKey × ℕ
  pub associated_token_address : PublicKey → PublicKey → PublicKey
  -- `SystemProgram.createAccount` of payer, account, lamports, space and owner, and `assign`
  pub create_account : PublicKey → PublicKey → ℕ → ℕ → PublicKey → TransactionInstruction
  pub assign : PublicKey → PublicKey → TransactionInstruction
