-- ===== src/Program/World/Always.antt =====
-- The steps of programs/obp-core keep what holds of all its accounts.
use offline_bearer_protocol.Buffer.{Buffer}
use offline_bearer_protocol.Prelude.{ℕ, zero, suc, ◌≡◌, ◌≢◌, none, some}
use offline_bearer_protocol.Program.Accounts.{Submission}
use offline_bearer_protocol.Program.Context.{at_attempt}
use offline_bearer_protocol.Program.Mint.{World}
use offline_bearer_protocol.Program.Tokens.{TokenProgram, TokenAccount, Addresses, IsTokenProgram}

pub no_submission : (b : ℕ) {s : Submission} → at_attempt none none b ≡ some s → ⊥
no_submission zero e = cc
no_submission (suc zero) e = cc
no_submission (suc (suc b)) e = cc

-- What the program relies on beside the token program's transfers: no submission's address is the
-- vault's, and the vault's address never approves a delegate.
pub record IsSetting {Tokens : Type 0} (spl : TokenProgram Tokens) (at : Addresses) : Type 0 where
  pub law : IsTokenProgram spl
  pub apart : (serial : Buffer) (attempt : ℕ) → at.sub_pda serial attempt ≢ at.vault_pda
  pub undelegated :
      (t : Tokens) (key : Buffer) (a : TokenAccount)
      → spl.account t key ≡ some a
      → a.owner ≡ at.vault_pda
      → a.delegate ≡ none
