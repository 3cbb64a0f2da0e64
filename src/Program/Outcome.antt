-- ===== src/Program/Outcome.antt =====
-- What the end of a check-in leaves, for `finalize_check_in` and `settle` of
-- programs/obp-core/src/instructions/checkin.rs: the accounts that change and the payments made.
pub mod Paid
use offline_bearer_protocol.Buffer.{Buffer, subarray}
use offline_bearer_protocol.Prelude.{
  ℕ, ◌+◌, ◌-◌, ◌≤◌, ◌≡◌, ◌≢◌, refl, sym, ◌∙◌, List, [], ◌∷◌, Option, some, ok, true, false,
}
use offline_bearer_protocol.Program.Accounts.{MintRegistry, HeadRegistry, Submission, Allowance}
use offline_bearer_protocol.Program.Checks.{bond_amount, last_state}
use offline_bearer_protocol.Program.Context.{
  Context, CoinAccounts, Remaining, program_id, account, submission_of, put,
}
use offline_bearer_protocol.Program.Finalize.{FinalizeKeys}
use offline_bearer_protocol.Program.Finalize.Wins.{Beats}
use offline_bearer_protocol.Program.Settle.{SettleKeys}
use offline_bearer_protocol.Program.Status.{active, spent, receiving, pending, rejected, won, lost}
use offline_bearer_protocol.Program.Tokens.{TokenProgram, Addresses}

-- One transfer of the token program.
pub record Payment : Type 0 where
  pub source : Buffer
  pub target : Buffer
  pub authority : Buffer
  pub amount : ℕ

-- The payments succeed, one after the other.
pub data Pays {Tokens : Type 0} (spl : TokenProgram Tokens)
    : Tokens → List Payment → Tokens → Type 0 where
  pays_none : (t : Tokens) → Pays spl t [] t
  pays_first :
      (p : Payment) (ps : List Payment) (t u v : Tokens)
      → spl.transfer t p.source p.target p.authority p.amount ≡ some u
      → Pays spl u ps v
      → Pays spl t (p ∷ ps) v

-- The owner that the bytes of a token account name.
abbrev pub owner_at : {Tokens : Type 0} → TokenProgram Tokens → Tokens → Buffer → Buffer
owner_at spl t key = subarray (spl.info t key).content 32 64

-- One submission is stored anew, and the other one is as it was.
pub record Rewrites (c c' : CoinAccounts) (attempt : ℕ) (s : Submission) : Type 0 where
  pub stored : submission_of c' attempt ≡ some s
  pub kept : (b : ℕ) → b ≢ attempt → submission_of c' b ≡ submission_of c b

-- The coin's value is no longer committed by its recipient.
pub record Releases (r : MintRegistry) (before after : Buffer → Option Allowance) : Type 0 where
  pub allowance : Allowance
  pub found : before r.recipient ≡ some allowance
  pub enough : r.value ≤ allowance.committed
  pub left :
      after
      ≡ put r.recipient (record allowance { committed = allowance.committed - r.value }) before

-- The coin is spent for a submission: its value is transferred from the vault to a token account
-- that, when it was looked at, belonged to that submission's final owner, and leaves the supply.
pub record PaidOut {Tokens : Type 0} (spl : TokenProgram Tokens) (at : Addresses)
    (ctx ctx' : Context Tokens) (final_owner coin_vault winner_token : Buffer)
    (earlier between later : List Payment) : Type 0 where
  pub checked : Tokens
  pub before : Tokens
  pub after : Tokens
  pub paid_earlier : Pays spl ctx.tokens earlier checked
  pub owned : owner_at spl checked winner_token ≡ final_owner
  pub paid_between : Pays spl checked between before
  pub transferred :
      spl.transfer before coin_vault winner_token at.vault_pda ctx.coin.registry.value ≡ some after
  pub paid_later : Pays spl after later ctx'.tokens
  pub has_registry : ctx'.coin.registry ≡ record ctx.coin.registry { status = spent }
  pub supply :
      ctx'.config.total_unspent_supply + ctx.coin.registry.value ≡ ctx.config.total_unspent_supply
  pub same_config :
      ctx'.config ≡ record ctx.config { total_unspent_supply = ctx'.config.total_unspent_supply }

-- Neither the registry, nor the configuration, nor an allowance changes.
pub record SameBooks {Tokens : Type 0} (ctx ctx' : Context Tokens) : Type 0 where
  pub same_registry : ctx'.coin.registry ≡ ctx.coin.registry
  pub same_config : ctx'.config ≡ ctx.config
  pub same_allowances : ctx'.allowances ≡ ctx.allowances

-- The submission that holds the head.
pub record HoldsHead (c : CoinAccounts) (attempt : ℕ) (s : Submission) : Type 0 where
  pub is_set : c.head.set ≡ true
  pub at_attempt : c.head.head_attempt ≡ attempt
  pub stored : submission_of c attempt ≡ some s
  pub is_pending : s.status ≡ pending

-- The head as the submission holds it from a slot on.
abbrev pub head_held_by : HeadRegistry → ℕ → Submission → Buffer → ℕ → HeadRegistry
head_held_by head attempt sub last slot = record {
  set = true;
  head_state = last;
  head_attempt = attempt;
  head_states_len = sub.states_len;
  pending_since_slot = slot;
  bump = head.bump;
}

-- How a submission that receives links is finalized: refused on a spent coin, accepted where none
-- holds the head, lost to the one that holds it, or paid because it beats that one.
pub data FinalizeOutcome {Tokens : Type 0} (spl : TokenProgram Tokens) (at : Addresses)
    (serial : Buffer) (attempt other_attempt : ℕ) (keys : FinalizeKeys) (sub : Submission)
    (ctx ctx' : Context Tokens) : Type 0 where
  refused :
      (bond : ℕ)
      → ctx.coin.registry.status ≡ spent
      → bond_amount ctx.coin.registry.value ctx.config.bond_multiplier_bps ≡ ok bond
      → Rewrites ctx.coin ctx'.coin attempt
          (record sub { status = rejected; finalized_slot = ctx.slot })
      → ctx'.coin.head ≡ ctx.coin.head
      → SameBooks ctx ctx'
      → Pays spl ctx.tokens
          (record {
            source = keys.escrow;
            target = keys.fee_sink;
            authority = at.sub_pda serial attempt;
            amount = bond;
          }
            ∷ [])
          ctx'.tokens
      → FinalizeOutcome spl at serial attempt other_attempt keys sub ctx ctx'
  accepted :
      (last : Buffer)
      → ctx.coin.registry.status ≢ spent
      → ctx.coin.head.set ≡ false
      → last_state sub ≡ ok last
      → Rewrites ctx.coin ctx'.coin attempt
          (record sub { status = pending; finalized_slot = ctx.slot })
      → ctx'.coin.head ≡ head_held_by ctx.coin.head attempt sub last ctx.slot
      → SameBooks ctx ctx'
      → Pays spl ctx.tokens [] ctx'.tokens
      → FinalizeOutcome spl at serial attempt other_attempt keys sub ctx ctx'
  upheld :
      (other : Submission) (bond : ℕ) (other_checker_token : Buffer)
      → ctx.coin.registry.status ≢ spent
      → HoldsHead ctx.coin other_attempt other
      → ¬ (Beats ctx.coin.head sub)
      → bond_amount ctx.coin.registry.value ctx.config.bond_multiplier_bps ≡ ok bond
      → owner_at spl ctx.tokens other_checker_token ≡ other.checker
      → Rewrites ctx.coin ctx'.coin attempt
          (record sub { status = lost; finalized_slot = ctx.slot })
      → ctx'.coin.head ≡ ctx.coin.head
      → SameBooks ctx ctx'
      → Pays spl ctx.tokens
          (record {
            source = keys.escrow;
            target = other_checker_token;
            authority = at.sub_pda serial attempt;
            amount = bond;
          }
            ∷ [])
          ctx'.tokens
      → FinalizeOutcome spl at serial attempt other_attempt keys sub ctx ctx'
  overturned :
      (other : Submission) (bond : ℕ) (other_escrow last : Buffer)
      → ctx.coin.registry.status ≢ spent
      → attempt ≢ other_attempt
      → HoldsHead ctx.coin other_attempt other
      → Beats ctx.coin.head sub
      → bond_amount ctx.coin.registry.value ctx.config.bond_multiplier_bps ≡ ok bond
      → last_state sub ≡ ok last
      → submission_of ctx'.coin attempt
        ≡ some (record sub { status = won; finalized_slot = ctx.slot })
      → submission_of ctx'.coin other_attempt ≡ some (record other { status = lost })
      → ctx'.coin.head ≡ head_held_by ctx.coin.head attempt sub last ctx.slot
      → PaidOut spl at ctx ctx' sub.final_owner keys.coin_vault keys.winner_token
          (record {
            source = keys.escrow;
            target = keys.checker_token;
            authority = at.sub_pda serial attempt;
            amount = bond;
          }
            ∷ record {
              source = other_escrow;
              target = keys.checker_token;
              authority = at.sub_pda serial other_attempt;
              amount = bond;
            }
            ∷ [])
          []
          []
      → Releases ctx.coin.registry ctx.allowances ctx'.allowances
      → FinalizeOutcome spl at serial attempt other_attempt keys sub ctx ctx'

-- What a settlement does about the other submission: nothing, or one that still receives links is
-- rejected and its bond goes to the fee sink.
pub data ClosesOther (at : Addresses) (serial : Buffer) (other_attempt : ℕ) (keys : SettleKeys)
    (bond : ℕ) (c c' : CoinAccounts) : List Payment → Type 0 where
  leaves_other :
      submission_of c' other_attempt ≡ submission_of c other_attempt
      → ClosesOther at serial other_attempt keys bond c c' []
  rejects_other :
      (other : Submission) (escrow : Buffer)
      → submission_of c other_attempt ≡ some other
      → other.status ≡ receiving
      → keys.other_escrow ≡ account escrow
      → submission_of c' other_attempt ≡ some (record other { status = rejected })
      → ClosesOther at serial other_attempt keys bond c c' (
          record {
            source = escrow;
            target = keys.fee_sink;
            authority = at.sub_pda serial other_attempt;
            amount = bond;
          }
          ∷ [])

-- Where no allowance is passed, all stay.
pub data ReleasesOrKeeps (key : Remaining) (r : MintRegistry)
    (before after : Buffer → Option Allowance) : Type 0 where
  keeps : key ≡ program_id → after ≡ before → ReleasesOrKeeps key r before after
  releases :
      (k : Buffer) → key ≡ account k → Releases r before after → ReleasesOrKeeps key r before after

-- What `settle` does: the submission that holds the head of an active coin is paid.
pub record SettleOutcome {Tokens : Type 0} (spl : TokenProgram Tokens) (at : Addresses)
    (serial : Buffer) (attempt other_attempt : ℕ) (keys : SettleKeys) (ctx ctx' : Context Tokens)
    : Type 0 where
  pub sub : Submission
  pub holds : HoldsHead ctx.coin attempt sub
  pub was_active : ctx.coin.registry.status ≡ active
  pub two : other_attempt ≢ attempt
  pub bond : ℕ
  pub bonded : bond_amount ctx.coin.registry.value ctx.config.bond_multiplier_bps ≡ ok bond
  pub payments : List Payment
  pub other : ClosesOther at serial other_attempt keys bond ctx.coin ctx'.coin payments
  pub stored : submission_of ctx'.coin attempt ≡ some (record sub { status = won })
  pub same_head : ctx'.coin.head ≡ ctx.coin.head
  pub paid_out :
      PaidOut spl at ctx ctx' sub.final_owner keys.coin_vault keys.winner_token [] payments (
        record {
          source = keys.escrow;
          target = keys.checker_token;
          authority = at.sub_pda serial attempt;
          amount = bond;
        }
        ∷ [])
  pub allowances :
      ReleasesOrKeeps keys.recipient_allowance ctx.coin.registry ctx.allowances ctx'.allowances
