-- ===== src/Errors.antt =====
-- The errors that the SDK's functions throw (sdk/src), one constructor for each message, and
-- the two kinds that Node's Buffer and a call of other code can raise.

pub data Error : Type 0 where
  -- ERR_OUT_OF_RANGE of a Buffer read or write
  range_error : Error
  -- a property of `undefined` is read
  type_error : Error
  -- a call of a third-party function throws
  foreign_error : Error
  -- layout.ts
  state_size serial_size owner_size prev_hash_size : Error
  -- coin.ts
  seed_size : Error
  -- coinfile.ts
  no_states sigs_length buffer_too_small magic_mismatch unknown_version size_mismatch
        checksum_mismatch :
      Error
  -- wrapper.ts
  key_size encrypted_magic encrypted_version encrypted_size key_hint_mismatch : Error
  -- precompile.ts and instructions.ts
  no_records too_many_records no_links : Error
  -- chain.ts
  unsupported_scheme no_key_provider : Error
  -- pq.ts
  public_key_size : Error
  -- orchestrate.ts
  not_ed25519 chain_invalid config_missing registry_missing coin_spent registry_status
        recipient_mismatch mint_mismatch submission_missing chain_incomplete final_owner_mismatch
        window_timeout head_missing :
      Error
