-- ===== src/Checkin/Steps.antt =====
-- sdk/src/orchestrate.ts: what `runCheckIn` sends in its steps besides the batches, from what it has
-- read last. A step that is skipped sends nothing.
use offline_bearer_protocol.Buffer.{Buffer, equals}
use offline_bearer_protocol.Checkin.{submission_pending}
use offline_bearer_protocol.Coin.{item}
use offline_bearer_protocol.Coinfile.{CoinCore}
use offline_bearer_protocol.Errors.{Error, final_owner_mismatch}
use offline_bearer_protocol.Instructions.{start_check_in_ix, finalize_ix, settle_ix}
use offline_bearer_protocol.Prelude.{
  ℕ, ◌+◌, ◌-◌, Option, none, some, Result, ok, guard, ltb, ◌==◌, if◌then◌else◌, ◌>>=◌, ◌>>◌,
}
use offline_bearer_protocol.Readers.{OnChainConfig, OnChainHead, OnChainRegistry, OnChainSubmission}
use offline_bearer_protocol.Solana.{PublicKey, Solana, TransactionInstruction}

abbrev submission_won : ℕ
submission_won = 5

-- How much is minted to the checker, whose balance has to cover the bond and 50 more.
unfoldable bond_cover : ℕ → ℕ → Option ℕ
bond_cover bond balance = if ltb balance (bond + 50) then some (bond + 500 - balance) else none

module _ (sha256 : Buffer → Buffer) (net : Solana) where
  -- The submission of either attempt, or the instruction that starts the first.
  unfoldable start_step :
      CoinCore
      → PublicKey
      → PublicKey
      → PublicKey
      → Option OnChainSubmission
      → Option OnChainSubmission
      → Result Error (Option TransactionInstruction)
  unfolding start_check_in_ix
  start_step coin recipient payer vault_mint (some first) second = ok none
  start_step coin recipient payer vault_mint none (some second) = ok none
  start_step coin recipient payer vault_mint none none = do
    state0 ← item coin.states 0
    ok (some (start_check_in_ix sha256 net coin.serial 0 state0 recipient payer vault_mint))

  -- `1 - sub.attempt`; an attempt is 0 or 1
  unfoldable finalize_step :
      CoinCore
      → PublicKey
      → PublicKey
      → PublicKey
      → PublicKey
      → OnChainSubmission
      → Result Error (Option TransactionInstruction)
  unfolding finalize_ix
  finalize_step coin coin_final_owner recipient payer vault_mint sub = do
    guard (equals sub.final_owner coin_final_owner) final_owner_mismatch
    ok (
        if sub.status == submission_pending
        then none
        else if sub.status == submission_won
        then none
        else some (
            finalize_ix sha256 net coin.serial sub.attempt (1 - sub.attempt) recipient sub.checker
              sub.final_owner vault_mint payer none))

  unfoldable settle_step :
      CoinCore
      → PublicKey
      → PublicKey
      → PublicKey
      → OnChainSubmission
      → Option TransactionInstruction
  unfolding settle_ix
  settle_step coin recipient payer vault_mint sub =
      if sub.status == submission_pending
      then some (
          settle_ix sha256 net coin.serial sub.attempt (1 - sub.attempt) recipient sub.checker
            sub.final_owner vault_mint payer)
      else none

unfoldable deadline_slot : OnChainHead → OnChainConfig → ℕ
deadline_slot head cfg = head.pending_since_slot + cfg.challenge_window_slots

-- `tokenBal`: an account that cannot be read counts as empty.
unfoldable token_balance : Option ℕ → ℕ
token_balance none = 0
token_balance (some amount) = amount

-- `report.final`, of the registry, the submission and the three token accounts as they are read last
record FinalState : Type 0 where
  registry_status : ℕ
  submission_status : ℕ
  final_owner_balance : ℕ
  checker_balance : ℕ
  vault_balance : ℕ

unfoldable final_state :
    OnChainRegistry → OnChainSubmission → Option ℕ → Option ℕ → Option ℕ → FinalState
unfolding token_balance
final_state reg sub final_owner_amount checker_amount vault_amount = record {
  registry_status = reg.status;
  submission_status = sub.status;
  final_owner_balance = token_balance final_owner_amount;
  checker_balance = token_balance checker_amount;
  vault_balance = token_balance vault_amount;
}
