-- ===== src/Program/Finalize.antt =====
-- programs/obp-core/src/instructions/checkin.rs: `finalize_check_in`, with the dispute between the two
-- submissions of a coin.
pub mod Wins
use offline_bearer_protocol.Buffer.{Buffer, equals}
use offline_bearer_protocol.Prelude.{
  ℕ, zero, suc, ◌+◌, ◌-◌, List, [], ◌∷◌, take, Option, none, some, Bool, true, Result, ok, err,
  guard, some_or, ◌>>=◌, ◌>>◌, ltb, leb, ◌==◌, if◌then◌else◌,
}
use offline_bearer_protocol.Program.Accounts.{MintRegistry, Submission, HeadRegistry, Allowance}
use offline_bearer_protocol.Program.Checks.{
  bond_amount, last_state, verify_full_chain, pda_transfer, tok_of, check_tok, parse_submission,
  parse_allowance,
}
use offline_bearer_protocol.Program.Context.{
  Context, CoinAccounts, Remaining, submission_of, put_submission, put, required_account,
}
use offline_bearer_protocol.Program.Errors
use offline_bearer_protocol.Program.Errors.{Failure, obp, account_error}
use offline_bearer_protocol.Program.Status.{spent, receiving, pending, rejected, won, lost}
use offline_bearer_protocol.Program.Tokens.{TokenProgram, Addresses}
use offline_bearer_protocol.Program.Words.{sub_word, checked_sub}

-- The token accounts of the instruction, and `remaining_accounts`.
pub record FinalizeKeys : Type 0 where
  pub escrow : Buffer
  pub checker_token : Buffer
  pub winner_token : Buffer
  pub coin_vault : Buffer
  pub fee_sink : Buffer
  pub other_submission : Remaining
  pub other_escrow : Remaining
  pub other_checker_token : Remaining
  pub recipient_allowance : Remaining

-- The first index, from `i` on, at which the head's state stands.
unfoldable pub head_index : Buffer → ℕ → List Buffer → Option ℕ
head_index head_state i [] = none
head_index head_state i (s ∷ states) =
    if equals s head_state then some i else head_index head_state (i + 1) states

unfoldable pub i_win : HeadRegistry → Submission → Bool
unfolding head_index
i_win head sub = elim (head_index head.head_state 0 (take sub.states_len sub.states)) [
  | some d ↦ ltb (d + 1) sub.states_len
  | none ↦ ltb head.head_states_len sub.states_len
]

-- The head that a submission becomes.
unfoldable pub head_of : HeadRegistry → Submission → Buffer → ℕ → HeadRegistry
head_of head sub last slot = record head {
  head_state = last;
  head_attempt = sub.attempt;
  head_states_len = sub.states_len;
  pending_since_slot = slot;
}

module _ {Tokens : Type 0} (hash : Buffer → Buffer) (spl : TokenProgram Tokens)
    (at : Addresses) where
  unfoldable pub fin_reject_spent :
      Buffer → ℕ → FinalizeKeys → Submission → Context Tokens → Result Failure (Context Tokens)
  unfolding bond_amount pda_transfer put_submission
  fin_reject_spent serial attempt keys sub ctx = do
    bond ← bond_amount ctx.coin.registry.value ctx.config.bond_multiplier_bps
    tokens ← pda_transfer spl ctx.tokens keys.escrow keys.fee_sink (at.sub_pda serial attempt) bond
    let done = record sub { status = rejected; finalized_slot = ctx.slot }
    ok (record ctx { coin = put_submission ctx.coin attempt done; tokens = tokens })

  unfoldable pub fin_set_head : ℕ → Submission → Context Tokens → Result Failure (Context Tokens)
  unfolding last_state put_submission head_of
  fin_set_head attempt sub ctx = do
    last ← last_state sub
    let coin =
        put_submission ctx.coin attempt (record sub { status = pending; finalized_slot = ctx.slot })
    ok (record ctx {
      coin = record coin { head = record (head_of ctx.coin.head sub last ctx.slot) { set = true } };
    })

  -- The three payments of a winner: its bond back, the other bond, and the coin's value.
  unfoldable pub pay_winner :
      Buffer → ℕ → ℕ → FinalizeKeys → Submission → Context Tokens → Result Failure Tokens
  unfolding bond_amount pda_transfer tok_of required_account
  pay_winner serial attempt other_attempt keys sub ctx = do
    bond ← bond_amount ctx.coin.registry.value ctx.config.bond_multiplier_bps
    t1 ← pda_transfer spl ctx.tokens keys.escrow keys.checker_token (at.sub_pda serial attempt) bond
    other_escrow ← required_account keys.other_escrow
    guard (equals (spl.info t1 other_escrow).program spl.id) (obp Errors.bond_escrow_failed)
    other_tok ← tok_of spl t1 other_escrow
    guard (equals other_tok.owner (at.sub_pda serial other_attempt)) (obp Errors.bond_escrow_failed)
    t2 ← pda_transfer spl t1 other_escrow keys.checker_token (at.sub_pda serial other_attempt) bond
    winner ← tok_of spl t2 keys.winner_token
    guard (equals winner.owner sub.final_owner) (obp Errors.status_invalid)
    pda_transfer spl t2 keys.coin_vault keys.winner_token at.vault_pda ctx.coin.registry.value

  -- `committed` of an allowance, less the coin's value
  unfoldable pub release : ℕ → Allowance → Result Failure Allowance
  unfolding checked_sub
  release value a = do
    committed ← some_or (checked_sub a.committed value) (obp Errors.allowance_exceeded)
    ok (record a { committed = committed })

  unfoldable pub fin_resolve_win :
      Buffer
      → ℕ
      → ℕ
      → FinalizeKeys
      → Submission
      → Submission
      → Context Tokens
      → Result Failure (Context Tokens)
  unfolding pay_winner last_state checked_sub required_account parse_allowance release
      put_submission put head_of
  fin_resolve_win serial attempt other_attempt keys sub other ctx = do
    tokens ← pay_winner serial attempt other_attempt keys sub ctx
    last ← last_state sub
    supply ←
        some_or (checked_sub ctx.config.total_unspent_supply ctx.coin.registry.value)
          (obp Errors.vault_underflow)
    key ← required_account keys.recipient_allowance
    allowance ← parse_allowance spl at ctx key ctx.coin.registry.recipient
    released ← release ctx.coin.registry.value allowance
    let mine =
        put_submission ctx.coin attempt (record sub { status = won; finalized_slot = ctx.slot })
    let coin = put_submission mine other_attempt (record other { status = lost })
    ok (record {
      config = record ctx.config { total_unspent_supply = supply };
      coin = record coin {
        registry = record ctx.coin.registry { status = spent };
        head = head_of ctx.coin.head sub last ctx.slot;
      };
      allowances = put ctx.coin.registry.recipient released ctx.allowances;
      tokens = tokens;
      slot = ctx.slot;
    })

  unfoldable pub fin_resolve_lose :
      Buffer → ℕ → ℕ → FinalizeKeys → Submission → Context Tokens → Result Failure (Context Tokens)
  unfolding required_account parse_submission tok_of bond_amount pda_transfer put_submission
  fin_resolve_lose serial attempt other_attempt keys sub ctx = do
    other_key ← required_account keys.other_submission
    other ← parse_submission spl at ctx.coin other_key serial other_attempt
    other_checker_token ← required_account keys.other_checker_token
    tok ← tok_of spl ctx.tokens other_checker_token
    guard (equals tok.owner other.checker) (obp Errors.bond_escrow_failed)
    bond ← bond_amount ctx.coin.registry.value ctx.config.bond_multiplier_bps
    tokens ←
        pda_transfer spl ctx.tokens keys.escrow other_checker_token (at.sub_pda serial attempt) bond
    let done = record sub { status = lost; finalized_slot = ctx.slot }
    ok (record ctx { coin = put_submission ctx.coin attempt done; tokens = tokens })

  unfoldable pub fin_resolve :
      Buffer → ℕ → ℕ → FinalizeKeys → Submission → Context Tokens → Result Failure (Context Tokens)
  unfolding required_account parse_submission i_win fin_resolve_win fin_resolve_lose
  fin_resolve serial attempt other_attempt keys sub ctx = do
    other_key ← required_account keys.other_submission
    other ← parse_submission spl at ctx.coin other_key serial other_attempt
    guard (other.attempt == ctx.coin.head.head_attempt) (obp Errors.status_invalid)
    guard (other.status == pending) (obp Errors.status_invalid)
    if i_win ctx.coin.head sub
        then fin_resolve_win serial attempt other_attempt keys sub other ctx
        else fin_resolve_lose serial attempt other_attempt keys sub ctx

  unfoldable pub check_finalize_tokens :
      Buffer → ℕ → FinalizeKeys → Submission → Context Tokens → Result Failure (Unit {0})
  unfolding check_tok
  check_finalize_tokens serial attempt keys sub ctx = do
    check_tok spl ctx.tokens keys.escrow ctx.config.vault_mint (some (at.sub_pda serial attempt))
    check_tok spl ctx.tokens keys.checker_token ctx.config.vault_mint (some sub.checker)
    check_tok spl ctx.tokens keys.winner_token ctx.config.vault_mint none
    check_tok spl ctx.tokens keys.coin_vault ctx.config.vault_mint (some at.vault_pda)
    check_tok spl ctx.tokens keys.fee_sink ctx.config.vault_mint (some at.fee_pda)

  -- The three outcomes, for a submission that has passed the tests.
  unfoldable pub decide :
      Buffer → ℕ → ℕ → FinalizeKeys → Submission → Context Tokens → Result Failure (Context Tokens)
  unfolding fin_reject_spent fin_set_head fin_resolve
  decide serial attempt other_attempt keys sub ctx =
      if ctx.coin.registry.status == spent
      then fin_reject_spent serial attempt keys sub ctx
      else if ctx.coin.head.set
      then fin_resolve serial attempt other_attempt keys sub ctx
      else fin_set_head attempt sub ctx

  -- The submission's account is the one at the address of `attempt`.
  unfoldable pub finalize_check_in :
      Buffer → ℕ → ℕ → Buffer → FinalizeKeys → Context Tokens → Result Failure (Context Tokens)
  unfolding submission_of sub_word check_finalize_tokens verify_full_chain decide
  finalize_check_in serial attempt other_attempt recipient keys ctx = do
    guard (leb ctx.config.sig_scheme 1) (obp Errors.sig_scheme_unsupported)
    sub ← some_or (submission_of ctx.coin attempt) account_error
    guard (sub.status == receiving) (obp Errors.status_invalid)
    guard (equals serial sub.serial) (obp Errors.submission_mismatch)
    guard (equals recipient ctx.coin.registry.recipient) (obp Errors.submission_mismatch)
    expected ← sub_word 1 sub.attempt
    guard (other_attempt == expected) (obp Errors.attempt_range)
    guard (sub.attempt == attempt) (obp Errors.submission_mismatch)
    check_finalize_tokens serial attempt keys sub ctx
    verify_full_chain hash sub ctx.coin.registry
    let head = record ctx.coin.head { bump = at.head_bump serial }
    decide serial attempt other_attempt keys sub
        (record ctx { coin = record ctx.coin { head = head } })
