-- ===== src/Program/Settle.antt =====
-- programs/obp-core/src/instructions/checkin.rs: `settle`, after the challenge window, and
-- `verify_sig_commit`.
use offline_bearer_protocol.Buffer.{Buffer, equals}
use offline_bearer_protocol.Prelude.{
  ℕ, ◌+◌, Option, some, get_elem?, ◌&&◌, ◌||◌, Result, ok, err, guard, some_or, ◌>>=◌, ◌>>◌, leb,
  ◌==◌, if◌then◌else◌,
}
use offline_bearer_protocol.Program.Accounts.{Submission, Allowance}
use offline_bearer_protocol.Program.Checks.{
  bond_amount, pda_transfer, tok_of, check_tok, parse_submission, parse_allowance, sig_commit_hash,
}
use offline_bearer_protocol.Program.Context.{
  Context, Remaining, missing, program_id, account, submission_of, put_submission, put,
  required_account,
}
use offline_bearer_protocol.Program.Errors
use offline_bearer_protocol.Program.Errors.{Failure, obp, account_error, overflow}
use offline_bearer_protocol.Program.Finalize.{release}
use offline_bearer_protocol.Program.Status.{active, spent, receiving, pending, rejected, won, lost}
use offline_bearer_protocol.Program.Tokens.{TokenProgram, Addresses}
use offline_bearer_protocol.Program.Words.{sub_word, checked_sub, saturating_add}

pub record SettleKeys : Type 0 where
  pub escrow : Buffer
  pub checker_token : Buffer
  pub winner_token : Buffer
  pub coin_vault : Buffer
  pub fee_sink : Buffer
  pub other_submission : Remaining
  pub other_escrow : Remaining
  pub recipient_allowance : Remaining

module _ {Tokens : Type 0} (hash : Buffer → Buffer) (spl : TokenProgram Tokens)
    (at : Addresses) where
  -- The other submission, where one is passed: one that still receives links is rejected, and its
  -- bond goes to the fee sink.
  unfoldable pub close_other :
      Buffer → ℕ → SettleKeys → ℕ → Context Tokens → Submission → Result Failure (Context Tokens)
  unfolding required_account tok_of pda_transfer put_submission
  close_other serial other_attempt keys bond ctx other =
      if other.status == receiving
      then (required_account keys.other_escrow >>= λ escrow. tok_of spl ctx.tokens escrow >>= λ tok.
          guard (equals tok.owner (at.sub_pda serial other_attempt)) (obp Errors.bond_escrow_failed)
          >> (pda_transfer spl ctx.tokens escrow keys.fee_sink (at.sub_pda serial other_attempt)
                bond
              >>= λ tokens. ok (record ctx {
                coin = put_submission ctx.coin other_attempt (record other { status = rejected });
                tokens = tokens;
              })))
      else (guard (other.status == lost || other.status == rejected) (obp Errors.status_invalid)
          >> ok ctx)

  unfoldable pub settle_other :
      Buffer → ℕ → SettleKeys → ℕ → Context Tokens → Remaining → Result Failure (Context Tokens)
  unfolding parse_submission close_other
  settle_other serial other_attempt keys bond ctx missing = err (obp Errors.status_invalid)
  settle_other serial other_attempt keys bond ctx program_id = ok ctx
  settle_other serial other_attempt keys bond ctx (account key) = do
    other ← parse_submission spl at ctx.coin key serial other_attempt
    close_other serial other_attempt keys bond ctx other

  -- The allowance, where one is passed.
  unfoldable pub settle_allowance :
      ℕ → Buffer → Context Tokens → Remaining → Result Failure (Buffer → Option Allowance)
  unfolding parse_allowance release put
  settle_allowance value recipient ctx missing = err (obp Errors.status_invalid)
  settle_allowance value recipient ctx program_id = ok ctx.allowances
  settle_allowance value recipient ctx (account key) = do
    allowance ← parse_allowance spl at ctx key recipient
    released ← release hash spl at value allowance
    ok (put recipient released ctx.allowances)

  unfoldable pub settle_pay_out :
      Buffer → ℕ → ℕ → SettleKeys → Submission → Context Tokens → Result Failure (Context Tokens)
  unfolding bond_amount settle_other pda_transfer checked_sub settle_allowance put_submission
  settle_pay_out serial attempt other_attempt keys sub ctx = do
    bond ← bond_amount ctx.coin.registry.value ctx.config.bond_multiplier_bps
    c1 ← settle_other serial other_attempt keys bond ctx keys.other_submission
    t2 ←
        pda_transfer spl c1.tokens keys.coin_vault keys.winner_token at.vault_pda
          ctx.coin.registry.value
    t3 ← pda_transfer spl t2 keys.escrow keys.checker_token (at.sub_pda serial attempt) bond
    supply ←
        some_or (checked_sub ctx.config.total_unspent_supply ctx.coin.registry.value)
          (obp Errors.vault_underflow)
    allowances ←
        settle_allowance ctx.coin.registry.value ctx.coin.registry.recipient ctx
          keys.recipient_allowance
    let coin = put_submission c1.coin attempt (record sub { status = won })
    ok (record {
      config = record ctx.config { total_unspent_supply = supply };
      coin = record coin { registry = record ctx.coin.registry { status = spent } };
      allowances = allowances;
      tokens = t3;
      slot = ctx.slot;
    })

  unfoldable pub check_settle_tokens :
      Buffer → ℕ → SettleKeys → Submission → Context Tokens → Result Failure (Unit {0})
  unfolding check_tok
  check_settle_tokens serial attempt keys sub ctx = do
    check_tok spl ctx.tokens keys.escrow ctx.config.vault_mint (some (at.sub_pda serial attempt))
    check_tok spl ctx.tokens keys.checker_token ctx.config.vault_mint (some sub.checker)
    check_tok spl ctx.tokens keys.winner_token ctx.config.vault_mint (some sub.final_owner)
    check_tok spl ctx.tokens keys.coin_vault ctx.config.vault_mint (some at.vault_pda)
    check_tok spl ctx.tokens keys.fee_sink ctx.config.vault_mint (some at.fee_pda)

  unfoldable pub settle :
      Buffer → ℕ → ℕ → Buffer → SettleKeys → Context Tokens → Result Failure (Context Tokens)
  unfolding submission_of sub_word saturating_add check_settle_tokens settle_pay_out
  settle serial attempt other_attempt recipient keys ctx = do
    guard (leb ctx.config.sig_scheme 1) (obp Errors.sig_scheme_unsupported)
    guard (ctx.coin.registry.status == active) (obp Errors.status_invalid)
    sub ← some_or (submission_of ctx.coin attempt) account_error
    guard (sub.status == pending) (obp Errors.status_invalid)
    guard (equals serial sub.serial) (obp Errors.submission_mismatch)
    guard (equals recipient ctx.coin.registry.recipient) (obp Errors.submission_mismatch)
    expected ← sub_word 1 sub.attempt
    guard (other_attempt == expected) (obp Errors.attempt_range)
    guard ctx.coin.head.set (obp Errors.status_invalid)
    guard (sub.attempt == ctx.coin.head.head_attempt) (obp Errors.status_invalid)
    guard (sub.attempt == attempt) (obp Errors.submission_mismatch)
    guard
        (leb (saturating_add 64 ctx.coin.head.pending_since_slot ctx.config.challenge_window_slots)
          ctx.slot)
        (obp Errors.window_expired)
    check_settle_tokens serial attempt keys sub ctx
    settle_pay_out serial attempt other_attempt keys sub ctx

  -- An instruction that only checks: the signature belongs to the commitment of its link.
  unfoldable pub verify_sig_commit :
      Buffer → ℕ → ℕ → Buffer → Context Tokens → Result Failure (Unit {0})
  unfolding submission_of sig_commit_hash
  verify_sig_commit serial attempt link_index sig ctx = do
    guard (leb ctx.config.sig_scheme 1) (obp Errors.sig_scheme_unsupported)
    sub ← some_or (submission_of ctx.coin attempt) account_error
    guard (equals sub.serial serial) (obp Errors.submission_mismatch)
    guard (sub.attempt == attempt) (obp Errors.submission_mismatch)
    guard (leb 1 link_index && leb (link_index + 1) sub.states_len) (obp Errors.status_invalid)
    stored ← some_or (get_elem? sub.sig_commits link_index) overflow
    guard (equals (sig_commit_hash hash sig) stored) (obp Errors.sig_commit_mismatch)
