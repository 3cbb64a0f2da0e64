-- ===== src/Program/Checks.antt =====
-- programs/obp-core/src/instructions/checkin.rs: the helpers that the check-in's instructions share.
-- `hash` stands for sha256, `spl` for the token program and `at` for the derived addresses.
pub mod Bond
use offline_bearer_protocol.Buffer.{Buffer, subarray, of_le, equals}
use offline_bearer_protocol.Prelude.{
  ℕ, zero, suc, ◌+◌, ◌-◌, ◌*◌, ◌/◌, List, [], ◌∷◌, take, length, get_elem?, Option, none, some,
  Bool, Result, ok, err, guard, some_or, ◌>>=◌, ◌>>◌, leb, ◌==◌,
}
use offline_bearer_protocol.Program.Accounts.{MintRegistry, Submission, Allowance}
use offline_bearer_protocol.Program.Context.{
  Context, CoinAccounts, Remaining, account, submission_of,
}
use offline_bearer_protocol.Program.Errors
use offline_bearer_protocol.Program.Errors.{Failure, obp, token_error, overflow}
use offline_bearer_protocol.Program.State.{state_hash, parse_serial, parse_value, parse_prev_hash}
use offline_bearer_protocol.Program.Tokens.{TokenProgram, Addresses}
use offline_bearer_protocol.Program.Words.{checked_mul}

unfoldable pub bond_amount : ℕ → ℕ → Result Failure ℕ
unfolding checked_mul
bond_amount value bps = do
  guard (leb 10000 bps) (obp Errors.bond_below_parity)
  scaled ← some_or (checked_mul 64 value bps) (obp Errors.bond_overflow)
  ok (scaled / 10000)

-- An index out of range panics.
unfoldable pub state_at : List Buffer → ℕ → Result Failure Buffer
state_at states i = some_or (get_elem? states i) overflow

unfoldable pub last_state : Submission → Result Failure Buffer
unfolding state_at
last_state sub = do guard (leb 1 sub.states_len) overflow; state_at sub.states (sub.states_len - 1)

module _ (hash : Buffer → Buffer) where
  unfoldable pub sig_commit_hash : Buffer → Buffer
  sig_commit_hash sig = hash sig

  -- The three tests on a link from `prev` to `cur`, here and in `append_links`.
  unfoldable pub check_link : MintRegistry → Buffer → Buffer → Result Failure (Unit {0})
  unfolding state_hash parse_serial parse_value parse_prev_hash
  check_link registry prev cur = do
    guard (equals (parse_serial cur) registry.serial) (obp Errors.serial_mismatch)
    guard (parse_value cur == registry.value) (obp Errors.value_mismatch)
    guard (equals (parse_prev_hash cur) (state_hash hash prev)) (obp Errors.chain_broken)

  -- `for i in 1..n`, with the state before
  unfoldable pub check_chain : MintRegistry → Buffer → List Buffer → Result Failure (Unit {0})
  unfolding check_link
  check_chain registry prev [] = ok tt
  check_chain registry prev (cur ∷ states) = do
    check_link registry prev cur
    check_chain registry cur states

  unfoldable pub check_genesis : MintRegistry → List Buffer → Result Failure (Unit {0})
  unfolding check_chain
  check_genesis registry [] = err (obp Errors.status_invalid)
  check_genesis registry (state_0 ∷ states) = do
    guard (equals (state_hash hash state_0) registry.genesis_state_hash)
        (obp Errors.genesis_mismatch)
    check_chain registry state_0 states

  -- `states_len` states are in use, of an array that holds as many.
  unfoldable pub verify_full_chain : Submission → MintRegistry → Result Failure (Unit {0})
  unfolding check_genesis
  verify_full_chain sub registry = check_genesis registry (take sub.states_len sub.states)

pub record Tok : Type 0 where
  pub mint : Buffer
  pub owner : Buffer
  pub amount : ℕ

module _ {Tokens : Type 0} (spl : TokenProgram Tokens) where
  unfoldable pub pda_transfer : Tokens → Buffer → Buffer → Buffer → ℕ → Result Failure Tokens
  pda_transfer tokens source target authority amount =
      some_or (spl.transfer tokens source target authority amount) token_error

  unfoldable pub tok_of : Tokens → Buffer → Result Failure Tok
  tok_of tokens key = do
    let d = (spl.info tokens key).content
    guard (leb 165 (length d)) (obp Errors.status_invalid)
    ok (record {
      mint = subarray d 0 32;
      owner = subarray d 32 64;
      amount = of_le (subarray d 64 72);
    })

  unfoldable pub check_owner : Option Buffer → Tok → Result Failure (Unit {0})
  check_owner none t = ok tt
  check_owner (some o) t = guard (equals t.owner o) (obp Errors.bond_escrow_failed)

  unfoldable pub check_tok : Tokens → Buffer → Buffer → Option Buffer → Result Failure (Unit {0})
  unfolding tok_of check_owner
  check_tok tokens key mint owner = do
    guard (equals (spl.info tokens key).program spl.id) (obp Errors.bond_escrow_failed)
    t ← tok_of tokens key
    guard (equals t.mint mint) (obp Errors.status_invalid)
    check_owner owner t

  module _ (at : Addresses) where
    -- Only an account at the address of a submission of this coin, and one that exists, is read.
    unfoldable pub parse_submission : CoinAccounts → Buffer → Buffer → ℕ → Result Failure Submission
    unfolding submission_of
    parse_submission coin key serial attempt = do
      guard (equals key (at.sub_pda serial attempt)) (obp Errors.submission_mismatch)
      some_or (submission_of coin attempt) (obp Errors.status_invalid)

    unfoldable pub parse_allowance : Context Tokens → Buffer → Buffer → Result Failure Allowance
    parse_allowance ctx key recipient = do
      guard (equals key (at.allowance_pda recipient)) (obp Errors.status_invalid)
      some_or (ctx.allowances recipient) (obp Errors.status_invalid)
