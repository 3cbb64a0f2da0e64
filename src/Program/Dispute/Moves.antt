-- ===== src/Program/Dispute/Moves.antt =====
-- What the instructions of programs/obp-core/src/instructions/checkin.rs do to the accounts of a coin,
-- by the submission that each moves.
use offline_bearer_protocol.Buffer.{Buffer}
use offline_bearer_protocol.Prelude.{
  ℕ, zero, suc, ◌≤◌, ◌≡◌, ◌≢◌, refl, true, false, none, some, arith,
}
use offline_bearer_protocol.Program.Accounts.{Submission}
use offline_bearer_protocol.Program.Append.Grows.{IsGenuine, SameCoin}
use offline_bearer_protocol.Program.Context.{CoinAccounts, submission_of, put_submission}
use offline_bearer_protocol.Program.Dispute.{IsStored}
use offline_bearer_protocol.Program.Finalize.Wins.{Beats}
use offline_bearer_protocol.Program.Status.{active, spent, receiving, pending, rejected, won, lost}

pub submission_of-put :
    (c : CoinAccounts) (a : ℕ) (s : Submission)
    → a ≤ 1
    → submission_of (put_submission c a s) a ≡ some s
unfolding submission_of put_submission
submission_of-put c zero s h = refl
submission_of-put c (suc zero) s h = refl
submission_of-put c (suc (suc a)) s h = absurd (omega arith)

pub submission_of-put_other :
    (c : CoinAccounts) (a b : ℕ) (s : Submission)
    → b ≢ a
    → submission_of (put_submission c a s) b ≡ submission_of c b
unfolding submission_of put_submission
submission_of-put_other c zero zero s h = absurd (h refl)
submission_of-put_other c zero (suc zero) s h = refl
submission_of-put_other c zero (suc (suc b)) s h = refl
submission_of-put_other c (suc zero) zero s h = refl
submission_of-put_other c (suc zero) (suc zero) s h = absurd (h refl)
submission_of-put_other c (suc zero) (suc (suc b)) s h = refl
submission_of-put_other c (suc (suc a)) b s h = refl

pub submission_of-le :
    (c : CoinAccounts) (a : ℕ) (s : Submission) → submission_of c a ≡ some s → a ≤ 1
unfolding submission_of
submission_of-le c zero s e = omega arith
submission_of-le c (suc zero) s e = omega arith
submission_of-le c (suc (suc a)) s e = cc

-- One submission is written, and it is right where the others are.
pub record Writes (hash : Buffer → Buffer) (c c' : CoinAccounts) (a : ℕ) (s' : Submission)
    : Type 0 where
  pub coin : SameCoin c.registry c'.registry
  pub stored : submission_of c' a ≡ some s'
  pub kept : (b : ℕ) → b ≢ a → submission_of c' b ≡ submission_of c b
  pub attempt : IsStored hash c → s'.attempt ≡ a
  pub genuine : IsStored hash c → IsGenuine hash c'.registry s'

-- The registry's status and the head are as they were.
pub record SameHead (c c' : CoinAccounts) : Type 0 where
  pub same_status : c'.registry.status ≡ c.registry.status
  pub same_set : c'.head.set ≡ c.head.set
  pub same_attempt : c'.head.head_attempt ≡ c.head.head_attempt

-- The head is at an attempt, and the registry has a status.
pub record HeadAt (c : CoinAccounts) (status attempt : ℕ) : Type 0 where
  pub has_status : c.registry.status ≡ status
  pub is_set : c.head.set ≡ true
  pub at_attempt : c.head.head_attempt ≡ attempt

-- A submission stands at an attempt with a status.
abbrev pub StandsAt : CoinAccounts → ℕ → ℕ → Type 0
StandsAt c a status = (s : Submission) × (submission_of c a ≡ some s) × (s.status ≡ status)

-- Beside the submission of an attempt, one that still receives links may be rejected.
pub data RejectsOther (hash : Buffer → Buffer) (c c' : CoinAccounts) (a : ℕ) : Type 0 where
  no_other : c' ≡ c → RejectsOther hash c c' a
  rejects :
      (b : ℕ) (o' : Submission)
      → b ≢ a
      → StandsAt c b receiving
      → Writes hash c c' b o'
      → o'.status ≡ rejected
      → RejectsOther hash c c' a

pub data CoinMove (hash : Buffer → Buffer) (c c' : CoinAccounts) : Type 0 where
  begins :
      (a : ℕ) (s' : Submission)
      → submission_of c a ≡ none
      → c.registry.status ≡ active
      → Writes hash c c' a s'
      → s'.status ≡ receiving
      → SameHead c c'
      → CoinMove hash c c'
  grows :
      (a : ℕ) (s' : Submission)
      → StandsAt c a receiving
      → Writes hash c c' a s'
      → s'.status ≡ receiving
      → SameHead c c'
      → CoinMove hash c c'
  refuses :
      (a : ℕ) (s' : Submission)
      → StandsAt c a receiving
      → c.registry.status ≡ spent
      → Writes hash c c' a s'
      → s'.status ≡ rejected
      → SameHead c c'
      → CoinMove hash c c'
  accepts :
      (a : ℕ) (s' : Submission)
      → StandsAt c a receiving
      → c.registry.status ≢ spent
      → c.head.set ≡ false
      → Writes hash c c' a s'
      → s'.status ≡ pending
      → HeadAt c' c.registry.status a
      → CoinMove hash c c'
  upholds :
      (a : ℕ) (s' : Submission)
      → StandsAt c a receiving
      → c.registry.status ≢ spent
      → c.head.set ≡ true
      → Writes hash c c' a s'
      → s'.status ≡ lost
      → SameHead c c'
      → CoinMove hash c c'
  overturns :
      (a b : ℕ) (s' o' : Submission) (c1 : CoinAccounts)
      → a ≢ b
      → (at_a : StandsAt c a receiving) → Beats c.head at_a.0
      → StandsAt c b pending
      → c.registry.status ≢ spent
      → HeadAt c c.registry.status b
      → Writes hash c c1 a s'
      → s'.status ≡ won
      → Writes hash c1 c' b o'
      → o'.status ≡ lost
      → HeadAt c' spent a
      → CoinMove hash c c'
  settles :
      (a : ℕ) (s' : Submission) (c1 : CoinAccounts)
      → HeadAt c active a
      → RejectsOther hash c c1 a
      → Writes hash c1 c' a s'
      → s'.status ≡ won
      → HeadAt c' spent a
      → CoinMove hash c c'
