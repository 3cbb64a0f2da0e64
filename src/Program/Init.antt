-- ===== src/Program/Init.antt =====
-- programs/obp-core/src/instructions/init.rs: `init`, which makes the configuration.
use offline_bearer_protocol.Buffer.{Buffer}
use offline_bearer_protocol.Prelude.{ℕ, Result, ok, guard, ◌>>◌, leb}
use offline_bearer_protocol.Program.Accounts.{Config}
use offline_bearer_protocol.Program.Errors
use offline_bearer_protocol.Program.Errors.{Failure, obp}

pub record InitArgs : Type 0 where
  pub vault_mint : Buffer
  pub bond_multiplier_bps : ℕ
  pub challenge_window_slots : ℕ
  pub max_links_per_tx : ℕ
  pub default_allowance : ℕ
  pub sig_scheme : ℕ

-- The markers of the vault and of the fees hold nothing but their bumps.
unfoldable pub init : Buffer → ℕ → InitArgs → Result Failure Config
init mint_authority bump args = do
  guard (leb 10000 args.bond_multiplier_bps) (obp Errors.bond_below_parity)
  guard (leb 1 args.challenge_window_slots) (obp Errors.window_too_small)
  guard (leb 1 args.max_links_per_tx) (obp Errors.max_links_too_small)
  guard (leb args.sig_scheme 1) (obp Errors.sig_scheme_unsupported)
  ok (record {
    mint_authority = mint_authority;
    vault_mint = args.vault_mint;
    bond_multiplier_bps = args.bond_multiplier_bps;
    challenge_window_slots = args.challenge_window_slots;
    max_links_per_tx = args.max_links_per_tx;
    default_allowance = args.default_allowance;
    total_unspent_supply = 0;
    sig_scheme = args.sig_scheme;
    bump = bump;
  })
