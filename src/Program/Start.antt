-- ===== src/Program/Start.antt =====
-- programs/obp-core/src/instructions/checkin.rs: `start_check_in`, with Anchor's checks of its
-- accounts first.
use offline_bearer_protocol.Buffer.{Buffer, alloc, equals}
use offline_bearer_protocol.Prelude.{
  ℕ, Option, none, some, replicate, ◌&&◌, Result, ok, err, guard, some_or, set, ◌>>=◌, ◌>>◌, ltb,
  leb, ◌==◌,
}
use offline_bearer_protocol.Program.Accounts.{MintRegistry, Submission}
use offline_bearer_protocol.Program.Checks.{bond_amount, pda_transfer}
use offline_bearer_protocol.Program.Context.{Context, submission_of, put_submission}
use offline_bearer_protocol.Program.Errors
use offline_bearer_protocol.Program.Errors.{Failure, obp, account_error}
use offline_bearer_protocol.Program.State.{state_hash, parse_serial, parse_value, parse_owner}
use offline_bearer_protocol.Program.Status.{active, receiving}
use offline_bearer_protocol.Program.Tokens.{TokenProgram, Addresses}
use offline_bearer_protocol.Program.Words.{add_word}

-- `init` makes an account only at an address without one.
unfoldable pub absent : {A : Type 0} → Option A → Result Failure (Unit {0})
absent none = ok tt
absent (some a) = err account_error

-- The account as `start_check_in` leaves it: what it does not write is zero.
unfoldable pub new_submission : Buffer → ℕ → Buffer → ℕ → Buffer → ℕ → Submission
unfolding parse_owner
new_submission serial attempt checker slot state_0 bump = record {
  serial = serial;
  attempt = attempt;
  checker = checker;
  final_owner = parse_owner state_0;
  links_count = 0;
  started_slot = slot;
  finalized_slot = 0;
  status = receiving;
  states_len = 1;
  states = set (replicate 4 (alloc 104)) 0 state_0;
  sig_commits = replicate 4 (alloc 32);
  bump = bump;
}

module _ {Tokens : Type 0} (hash : Buffer → Buffer) (spl : TokenProgram Tokens)
    (at : Addresses) where
  -- The handler's own tests.
  unfoldable pub check_start : MintRegistry → Buffer → ℕ → Buffer → Result Failure (Unit {0})
  unfolding state_hash parse_serial parse_value
  check_start registry serial attempt state_0 = do
    guard (leb attempt 1) (obp Errors.attempt_range)
    guard (ltb registry.submissions_count 2) (obp Errors.duplicate_submission)
    guard (equals (parse_serial state_0) serial) (obp Errors.serial_mismatch)
    guard (parse_value state_0 == registry.value) (obp Errors.value_mismatch)
    guard (equals (state_hash hash state_0) registry.genesis_state_hash)
        (obp Errors.genesis_mismatch)

  -- The constraints on the checker's account and on the escrow, which has to be empty.
  unfoldable pub check_start_tokens :
      Context Tokens → Buffer → ℕ → Buffer → Buffer → Buffer → Result Failure (Unit {0})
  check_start_tokens ctx serial attempt checker checker_token escrow = do
    source ← some_or (spl.account ctx.tokens checker_token) account_error
    guard (equals source.mint ctx.config.vault_mint && equals source.owner checker)
        (obp Errors.bond_escrow_failed)
    target ← some_or (spl.account ctx.tokens escrow) account_error
    guard
        (equals target.mint ctx.config.vault_mint
          && (equals target.owner (at.sub_pda serial attempt) && target.amount == 0))
        (obp Errors.bond_escrow_failed)

  unfoldable pub start_check_in :
      Buffer
      → ℕ
      → Buffer
      → Buffer
      → Buffer
      → Buffer
      → Context Tokens
      → Result Failure (Context Tokens)
  unfolding submission_of put_submission absent new_submission check_start check_start_tokens
      add_word bond_amount pda_transfer
  start_check_in serial attempt state_0 checker checker_token escrow ctx = do
    guard (leb ctx.config.sig_scheme 1) (obp Errors.sig_scheme_unsupported)
    guard (ctx.coin.registry.status == active) (obp Errors.status_invalid)
    absent (submission_of ctx.coin attempt)
    check_start_tokens ctx serial attempt checker checker_token escrow
    check_start ctx.coin.registry serial attempt state_0
    count ← add_word 8 ctx.coin.registry.submissions_count 1
    bond ← bond_amount ctx.coin.registry.value ctx.config.bond_multiplier_bps
    tokens ← pda_transfer spl ctx.tokens checker_token escrow checker bond
    let submission =
        new_submission serial attempt checker ctx.slot state_0 (at.submission_bump serial attempt)
    let coin = put_submission ctx.coin attempt submission
    ok (record ctx {
      coin = record coin { registry = record ctx.coin.registry { submissions_count = count } };
      tokens = tokens;
    })
