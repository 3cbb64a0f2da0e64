-- ===== src/Program/Context.antt =====
-- The state that the instructions of programs/obp-core work on. The accounts of a coin stand together
-- under its serial, by which their addresses are derived: an account that does not exist yet is `none`,
-- or a head that is not set.
use offline_bearer_protocol.Buffer.{Buffer, equals}
use offline_bearer_protocol.Prelude.{
  ℕ, zero, suc, Option, none, some, Result, ok, err, if◌then◌else◌,
}
use offline_bearer_protocol.Program.Accounts.{
  Config, MintRegistry, HeadRegistry, Submission, Allowance,
}
use offline_bearer_protocol.Program.Errors.{Failure, obp, status_invalid}

-- The accounts of one serial, with the submissions of attempts 0 and 1.
pub record CoinAccounts : Type 0 where
  pub registry : MintRegistry
  pub head : HeadRegistry
  pub first : Option Submission
  pub second : Option Submission

-- The accounts that an instruction on one coin sees.
pub record Context (Tokens : Type 0) : Type 0 where
  pub config : Config
  pub coin : CoinAccounts
  pub allowances : Buffer → Option Allowance
  pub tokens : Tokens
  pub slot : ℕ

-- The one of two accounts that is at an attempt.
abbrev pub at_attempt : {A : Type 0} → Option A → Option A → ℕ → Option A
at_attempt first second zero = first
at_attempt first second (suc zero) = second
at_attempt first second (suc (suc attempt)) = none

unfoldable pub submission_of : CoinAccounts → ℕ → Option Submission
submission_of c attempt = at_attempt c.first c.second attempt

unfoldable pub put_submission : CoinAccounts → ℕ → Submission → CoinAccounts
put_submission c zero s = record c { first = some s }
put_submission c (suc zero) s = record c { second = some s }
put_submission c (suc (suc attempt)) s = c

-- A map with the value at one key changed.
unfoldable pub put : {A : Type 0} → Buffer → A → (Buffer → Option A) → Buffer → Option A
put key a m k = if equals k key then some a else m k

-- An entry of `remaining_accounts`: past the end, the program's own id, which stands for no
-- account, or an address.
pub data Remaining : Type 0 where
  missing program_id : Remaining
  account : Buffer → Remaining

-- `get(i).ok_or(StatusInvalid)?` and `require!(key != crate::ID, StatusInvalid)`
unfoldable pub required_account : Remaining → Result Failure Buffer
required_account missing = err (obp status_invalid)
required_account program_id = err (obp status_invalid)
required_account (account key) = ok key
