-- ===== src/Instructions.antt =====
-- sdk/src/instructions.ts: the instructions that the SDK sends to the program. A public key is its
-- 32 bytes, so `pk` and `asBuf` are the identity here.
pub mod Append
use offline_bearer_protocol.Accounts.{
  config_pda, vault_pda, fee_pda, registry_pda, head_pda, submission_pda, allowance_pda, ata,
}
use offline_bearer_protocol.Buffer.{Buffer, alloc, subarray, write_uint}
use offline_bearer_protocol.Errors.{Error}
use offline_bearer_protocol.Prelude.Text.{utf8}
use offline_bearer_protocol.Prelude.{
  ℕ, ◌%◌, List, [], ◌∷◌, ◌++◌, Option, none, some, Bool, true, false, length, flatten, Result, ok,
  ◌>>=◌,
}
use offline_bearer_protocol.Solana.{PublicKey, Solana, AccountMeta, TransactionInstruction}
use Prim.Native.String.{String}

-- `w` and `s` without and with their second argument
unfoldable pub read_only : PublicKey → AccountMeta
read_only p = record { pubkey = p; is_writable = false; is_signer = false }

unfoldable pub writable : PublicKey → AccountMeta
writable p = record { pubkey = p; is_writable = true; is_signer = false }

unfoldable pub signer : PublicKey → AccountMeta
signer p = record { pubkey = p; is_writable = false; is_signer = true }

unfoldable pub paying_signer : PublicKey → AccountMeta
paying_signer p = record { pubkey = p; is_writable = true; is_signer = true }

unfoldable pub u8b : ℕ → Buffer
u8b v = v % 256 ∷ []

unfoldable pub u16le : ℕ → Result Error Buffer
u16le v = write_uint 2 v 0 (alloc 2)

unfoldable pub u32le : ℕ → Result Error Buffer
u32le v = write_uint 4 v 0 (alloc 4)

unfoldable pub u64le : ℕ → Result Error Buffer
u64le v = write_uint 8 v 0 (alloc 8)

module _ (sha256 : Buffer → Buffer) where
  -- An empty buffer is truthy, so only a missing argument leaves the second part out.
  unfoldable pub ix_data : String → Option Buffer → Buffer
  ix_data name none = subarray (sha256 (utf8 "global:" ++ utf8 name)) 0 8
  ix_data name (some args) = subarray (sha256 (utf8 "global:" ++ utf8 name)) 0 8 ++ args

  module _ (net : Solana) where
    unfoldable pub instruction : List AccountMeta → Buffer → TransactionInstruction
    instruction keys content = record { program = net.program_id; keys = keys; content = content }

    unfoldable pub init_ix :
        PublicKey → ℕ → ℕ → ℕ → ℕ → PublicKey → PublicKey → ℕ → Result Error TransactionInstruction
    unfolding instruction ix_data u64le u32le u16le u8b config_pda vault_pda fee_pda
    init_ix vault_mint bond_multiplier_bps challenge_window_slots max_links_per_tx default_allowance
          mint_authority payer sig_scheme =
        do
          bond ← u32le bond_multiplier_bps
          window ← u64le challenge_window_slots
          links ← u16le max_links_per_tx
          allowance ← u64le default_allowance
          let args = flatten (vault_mint ∷ bond ∷ window ∷ links ∷ allowance ∷ u8b sig_scheme ∷ [])
          ok (
              instruction
                (writable (config_pda net).0
                  ∷ writable (vault_pda net).0
                  ∷ writable (fee_pda net).0
                  ∷ signer mint_authority
                  ∷ paying_signer payer
                  ∷ read_only net.system_program_id
                  ∷ [])
                (ix_data "init" (some args)))

    unfoldable pub verify_sig_commit_ix :
        Buffer → ℕ → ℕ → Buffer → PublicKey → PublicKey → Result Error TransactionInstruction
    unfolding instruction ix_data u16le u8b
    verify_sig_commit_ix serial attempt link_index sig submission config = do
      index ← u16le link_index
      let args = flatten (serial ∷ u8b attempt ∷ index ∷ sig ∷ [])
      ok (
          instruction (read_only config ∷ read_only submission ∷ [])
            (ix_data "verify_sig_commit" (some args)))

    unfoldable pub ping_ix : TransactionInstruction
    unfolding instruction ix_data config_pda
    ping_ix = instruction (read_only (config_pda net).0 ∷ []) (ix_data "ping" none)

    unfoldable pub fund_vault_ix : ℕ → PublicKey → PublicKey → Result Error TransactionInstruction
    unfolding instruction ix_data u64le config_pda vault_pda
    fund_vault_ix amount mint_authority vault_mint = do
      let vp = (vault_pda net).0
      args ← u64le amount
      ok (
          instruction
            (paying_signer mint_authority
              ∷ read_only (config_pda net).0
              ∷ writable (ata net vault_mint mint_authority)
              ∷ writable (ata net vault_mint vp)
              ∷ read_only vp
              ∷ read_only net.token_program_id
              ∷ [])
            (ix_data "fund_vault" (some args)))

    unfoldable pub withdraw_vault_ix :
        ℕ → PublicKey → PublicKey → Result Error TransactionInstruction
    unfolding instruction ix_data u64le config_pda vault_pda
    withdraw_vault_ix amount mint_authority vault_mint = do
      let vp = (vault_pda net).0
      args ← u64le amount
      ok (
          instruction
            (paying_signer mint_authority
              ∷ writable (config_pda net).0
              ∷ writable (ata net vault_mint vp)
              ∷ writable (ata net vault_mint mint_authority)
              ∷ read_only vp
              ∷ read_only net.token_program_id
              ∷ [])
            (ix_data "withdraw_vault" (some args)))

    unfoldable pub mint_coin_ix :
        Buffer
        → ℕ
        → PublicKey
        → Buffer
        → Buffer
        → PublicKey
        → PublicKey
        → PublicKey
        → Result Error TransactionInstruction
    unfolding instruction ix_data u64le config_pda registry_pda vault_pda allowance_pda
    mint_coin_ix serial value recipient genesis_hash mint_tx mint_authority payer vault_mint = do
      let vp = (vault_pda net).0
      amount ← u64le value
      let args = flatten (serial ∷ amount ∷ recipient ∷ genesis_hash ∷ mint_tx ∷ [])
      ok (
          instruction
            (signer mint_authority
              ∷ writable (config_pda net).0
              ∷ writable (registry_pda net serial).0
              ∷ read_only (ata net vault_mint vp)
              ∷ read_only vp
              ∷ writable (allowance_pda net recipient).0
              ∷ paying_signer payer
              ∷ read_only net.system_program_id
              ∷ read_only net.token_program_id
              ∷ [])
            (ix_data "mint_coin" (some args)))

    unfoldable pub start_check_in_ix :
        Buffer → ℕ → Buffer → PublicKey → PublicKey → PublicKey → TransactionInstruction
    unfolding instruction ix_data u8b config_pda registry_pda submission_pda
    start_check_in_ix serial attempt state0 recipient payer vault_mint =
        let sub = (submission_pda net serial attempt).0 in
        let args = flatten (serial ∷ u8b attempt ∷ state0 ∷ []) in
        instruction
          (read_only (config_pda net).0
            ∷ writable (registry_pda net serial).0
            ∷ writable sub
            ∷ signer recipient
            ∷ writable (ata net vault_mint recipient)
            ∷ writable (ata net vault_mint sub)
            ∷ read_only net.token_program_id
            ∷ paying_signer payer
            ∷ read_only net.system_program_id
            ∷ [])
          (ix_data "start_check_in" (some args))

    -- `caseB` is the other checker, when there is one.
    unfoldable pub finalize_ix :
        Buffer
        → ℕ
        → ℕ
        → PublicKey
        → PublicKey
        → PublicKey
        → PublicKey
        → PublicKey
        → Option PublicKey
        → TransactionInstruction
    unfolding instruction ix_data u8b config_pda registry_pda head_pda submission_pda vault_pda
        fee_pda allowance_pda
    finalize_ix serial attempt other_attempt mint_recipient checker final_owner vault_mint payer
          case_b =
        let sub = (submission_pda net serial attempt).0 in
        let vp = (vault_pda net).0 in
        let fp = (fee_pda net).0 in
        let other_sub = (submission_pda net serial other_attempt).0 in
        let args = flatten (serial ∷ u8b other_attempt ∷ mint_recipient ∷ []) in
        let remaining : List AccountMeta = elim case_b [
          | some other_checker ↦
              writable other_sub
              ∷ writable (ata net vault_mint other_sub)
              ∷ writable (ata net vault_mint other_checker)
              ∷ writable (allowance_pda net mint_recipient).0
              ∷ []
          | none ↦
              read_only net.program_id
              ∷ read_only net.program_id
              ∷ read_only net.program_id
              ∷ read_only net.program_id
              ∷ []
        ] in
        instruction
          ((writable (config_pda net).0
              ∷ writable (registry_pda net serial).0
              ∷ writable (head_pda net serial).0
              ∷ writable sub
              ∷ writable (ata net vault_mint sub)
              ∷ writable (ata net vault_mint checker)
              ∷ writable (ata net vault_mint final_owner)
              ∷ writable (ata net vault_mint vp)
              ∷ read_only vp
              ∷ writable (ata net vault_mint fp)
              ∷ read_only fp
              ∷ read_only net.token_program_id
              ∷ paying_signer payer
              ∷ read_only net.system_program_id
              ∷ [])
            ++ remaining)
          (ix_data "finalize_check_in" (some args))

    unfoldable pub settle_ix :
        Buffer
        → ℕ
        → ℕ
        → PublicKey
        → PublicKey
        → PublicKey
        → PublicKey
        → PublicKey
        → TransactionInstruction
    unfolding instruction ix_data u8b config_pda registry_pda head_pda submission_pda vault_pda
        fee_pda allowance_pda
    settle_ix serial attempt other_attempt mint_recipient checker final_owner vault_mint payer =
        let sub = (submission_pda net serial attempt).0 in
        let vp = (vault_pda net).0 in
        let fp = (fee_pda net).0 in
        let args = flatten (serial ∷ u8b other_attempt ∷ mint_recipient ∷ []) in
        instruction
          (writable (config_pda net).0
            ∷ writable (registry_pda net serial).0
            ∷ read_only (head_pda net serial).0
            ∷ writable sub
            ∷ writable (ata net vault_mint sub)
            ∷ writable (ata net vault_mint checker)
            ∷ writable (ata net vault_mint final_owner)
            ∷ writable (ata net vault_mint vp)
            ∷ read_only vp
            ∷ writable (ata net vault_mint fp)
            ∷ read_only fp
            ∷ read_only net.token_program_id
            ∷ signer payer
            ∷ read_only net.system_program_id
            ∷ read_only net.program_id
            ∷ read_only net.program_id
            ∷ writable (allowance_pda net mint_recipient).0
            ∷ [])
          (ix_data "settle" (some args))

    unfoldable pub set_allowance_ix : ℕ → PublicKey → Result Error TransactionInstruction
    unfolding instruction ix_data u64le allowance_pda
    set_allowance_ix new_cap wallet = do
      args ← u64le new_cap
      ok (
          instruction (signer wallet ∷ writable (allowance_pda net wallet).0 ∷ [])
            (ix_data "set_allowance" (some args)))

    unfoldable pub pq_benchmark_ix : PublicKey → ℕ → TransactionInstruction
    unfolding instruction ix_data u8b
    pq_benchmark_ix data_account scheme =
        instruction (read_only data_account ∷ []) (ix_data "pq_benchmark" (some (u8b scheme)))

    unfoldable pub pq_write_data_ix : PublicKey → ℕ → Buffer → Result Error TransactionInstruction
    unfolding instruction ix_data u32le
    pq_write_data_ix data_account offset chunk = do
      at ← u32le offset
      size ← u32le (length chunk)
      ok (
          instruction (writable data_account ∷ [])
            (ix_data "pq_write_data" (some (flatten (at ∷ size ∷ chunk ∷ [])))))
