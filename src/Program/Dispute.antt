-- ===== src/Program/Dispute.antt =====
-- What the check-in of a coin is meant to be, apart from the instructions of
-- programs/obp-core/src/instructions/checkin.rs: the first submission that is finalized holds the head
-- until the window ends or the other one beats it, and one of the two is paid.
pub mod Moves
pub mod Refines
use offline_bearer_protocol.Buffer.{Buffer}
use offline_bearer_protocol.Prelude.{ℕ, ◌≤◌, ◌≡◌, ◌≢◌, ◌⊎◌, Bool, true, false, Option, some}
use offline_bearer_protocol.Program.Accounts.{Submission}
use offline_bearer_protocol.Program.Append.Grows.{IsGenuine}
use offline_bearer_protocol.Program.Context.{CoinAccounts, submission_of}
use offline_bearer_protocol.Program.Finalize.Wins.{Beats}
use offline_bearer_protocol.Program.Status.{active, spent, receiving, pending, rejected, won, lost}

-- What becomes of a coin: no submission is finalized, one holds the head, or one was paid.
pub data Phase : Type 0 where
  undecided : Phase
  held paid : ℕ → Phase

-- The steps between them, each with the attempt that moves, on the accounts of a coin: only a
-- submission that beats the head is paid in place of the one that holds it.
pub data Next (c : CoinAccounts) : Phase → Phase → Type 0 where
  unchanged : (p : Phase) → Next c p p
  accepted : (attempt : ℕ) → Next c undecided (held attempt)
  overturned :
      (attempt other : ℕ) (s : Submission)
      → attempt ≢ other
      → submission_of c attempt ≡ some s
      → Beats c.head s
      → Next c (held other) (paid attempt)
  settled : (attempt : ℕ) → Next c (held attempt) (paid attempt)

-- A submission that has neither the head nor the coin.
pub data IsIdle (status : ℕ) : Type 0 where
  still_receiving : status ≡ receiving → IsIdle status
  was_lost : status ≡ lost → IsIdle status
  was_rejected : status ≡ rejected → IsIdle status

-- The submission of one attempt has a status, and each other one is idle.
pub record Leads (c : CoinAccounts) (attempt status : ℕ) : Type 0 where
  pub leader : Submission
  pub stored : submission_of c attempt ≡ some leader
  pub has_status : leader.status ≡ status
  pub others : (b : ℕ) (s : Submission) → b ≢ attempt → submission_of c b ≡ some s → IsIdle s.status

-- How the accounts of a coin show its phase.
pub data InPhase (c : CoinAccounts) : Phase → Type 0 where
  is_undecided :
      c.registry.status ≡ active
      → c.head.set ≡ false
      → ((b : ℕ) (s : Submission) → submission_of c b ≡ some s → s.status ≡ receiving)
      → InPhase c undecided
  is_held :
      (attempt : ℕ)
      → c.registry.status ≡ active
      → c.head.set ≡ true
      → c.head.head_attempt ≡ attempt
      → Leads c attempt pending
      → InPhase c (held attempt)
  is_paid :
      (attempt : ℕ)
      → c.registry.status ≡ spent
      → c.head.set ≡ true
      → c.head.head_attempt ≡ attempt
      → Leads c attempt won
      → InPhase c (paid attempt)

-- The submissions stand under their attempts and hold genuine chains.
pub record IsStored (hash : Buffer → Buffer) (c : CoinAccounts) : Type 0 where
  pub attempts : (b : ℕ) (s : Submission) → submission_of c b ≡ some s → s.attempt ≡ b
  pub genuine : (b : ℕ) (s : Submission) → submission_of c b ≡ some s → IsGenuine hash c.registry s
