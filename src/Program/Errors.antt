-- ===== src/Program/Errors.antt =====
-- programs/obp-core/src/errors.rs, and how an instruction can fail besides.

pub data ObpError : Type 0 where
  bond_below_parity window_too_small max_links_too_small zero_value bond_overflow attempt_range :
      ObpError
  duplicate_submission allowance_exceeded allowance_cap_below_committed vault_underflow : ObpError
  serial_mismatch value_mismatch genesis_mismatch chain_broken bad_signature status_invalid :
      ObpError
  max_links_exceeded empty_links states_full window_expired submission_mismatch bond_escrow_failed :
      ObpError
  owner_anchor_mismatch last_hash_mismatch sig_scheme_unsupported sig_commit_format : ObpError
  sig_commit_mismatch not_mint_authority : ObpError

-- An instruction that fails changes nothing: with one of the program's errors, in Anchor's own
-- checks of an account, in the token program, or by a panic of an operation that overflows.
pub data Failure : Type 0 where
  obp : ObpError → Failure
  account_error token_error overflow : Failure
