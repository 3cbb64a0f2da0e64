-- ===== src/Program/Handled.antt =====
-- What an instruction on one coin does, for programs/obp-core/src/instructions/checkin.rs: to the coin,
-- to the vault and to the supply.
pub mod Started
pub mod Appended
pub mod Decision
pub mod Winning
pub mod Decided
pub mod Closing
pub mod Settled
use offline_bearer_protocol.Buffer.{Buffer, equals}
use offline_bearer_protocol.Prelude.{
  ℕ, List, zero, suc, ◌+◌, ◌≤◌, ◌≡◌, ◌≢◌, refl, sym, ap, subst, ◌∙◌, ◌⊎◌, Option, some, ok,
  some_or-eq-ok, guard-eq-ok,
}
use offline_bearer_protocol.Program.Accounts.{Submission, MintRegistry, HeadRegistry}
use offline_bearer_protocol.Program.Append.Grows.{IsGenuine, SameCoin, IsGenuine-same}
use offline_bearer_protocol.Program.Backing.{LosesAtMost}
use offline_bearer_protocol.Program.Checks.{parse_submission}
use offline_bearer_protocol.Program.Context.{Context, CoinAccounts, submission_of, put_submission}
use offline_bearer_protocol.Program.Dispute.{IsStored}
use offline_bearer_protocol.Program.Dispute.Moves.{
  SameHead, Writes, CoinMove, submission_of-put, submission_of-put_other, submission_of-le,
}
use offline_bearer_protocol.Program.Outcome.{Payment, PaidOut}
use offline_bearer_protocol.Program.Status.{spent, won}
use offline_bearer_protocol.Program.Tokens.{TokenProgram, Addresses}

-- Nothing is paid, or the coin's value is, and the coin is spent by that.
pub data IsPayment (r r' : MintRegistry) : ℕ → Type 0 where
  no_payment : r'.status ≡ r.status → r'.value ≡ r.value → IsPayment r r' 0
  pays_coin : r.status ≢ spent → r'.status ≡ spent → r'.value ≡ r.value → IsPayment r r' r.value

-- The bump of the head is stored anew.
abbrev pub rebump : CoinAccounts → ℕ → CoinAccounts
rebump c bump = record c { head = record c.head { bump = bump } }

-- The submission that the coin is paid out for is won.
pub record PaidTo {Tokens : Type 0} (spl : TokenProgram Tokens) (at : Addresses)
    (ctx ctx' : Context Tokens) : Type 0 where
  pub attempt : ℕ
  pub winner : Submission
  pub stored : submission_of ctx'.coin attempt ≡ some winner
  pub is_won : winner.status ≡ won
  pub coin_vault : Buffer
  pub winner_token : Buffer
  pub earlier : List Payment
  pub between : List Payment
  pub later : List Payment
  pub paid_out :
      PaidOut spl at ctx ctx' winner.final_owner coin_vault winner_token earlier between later

-- The vault loses what is paid at most, and the supply drops by what is paid.
pub record Handled (hash : Buffer → Buffer) {Tokens : Type 0} (spl : TokenProgram Tokens)
    (at : Addresses) (ctx ctx' : Context Tokens) : Type 0 where
  pub bump : ℕ
  pub moved : CoinMove hash (rebump ctx.coin bump) ctx'.coin
  pub amount : ℕ
  pub payment : IsPayment ctx.coin.registry ctx'.coin.registry amount
  pub loss : LosesAtMost spl at amount ctx.tokens ctx'.tokens
  pub paid_to :
      ctx.coin.registry.status ≢ spent → ctx'.coin.registry.status ≡ spent → PaidTo spl at ctx ctx'
  pub same_mint : ctx'.config.vault_mint ≡ ctx.config.vault_mint
  pub supply : ctx'.config.total_unspent_supply + amount ≡ ctx.config.total_unspent_supply

pub put_submission-rest :
    (c : CoinAccounts) (a : ℕ) (s : Submission)
    → ((put_submission c a s).registry ≡ c.registry) × ((put_submission c a s).head ≡ c.head)
unfolding put_submission
put_submission-rest c zero s = (refl, refl)
put_submission-rest c (suc zero) s = (refl, refl)
put_submission-rest c (suc (suc a)) s = (refl, refl)

submission_of-same :
    (c d : CoinAccounts) (b : ℕ)
    → c.first ≡ d.first
    → c.second ≡ d.second
    → submission_of c b ≡ submission_of d b
unfolding submission_of
submission_of-same c d zero e f = e
submission_of-same c d (suc zero) e f = f
submission_of-same c d (suc (suc b)) e f = refl

pub same_coin : (r : MintRegistry) → SameCoin r r
same_coin r = record { same_serial = refl; same_value = refl; same_genesis = refl }

module _ (hash : Buffer → Buffer) (c c' : CoinAccounts) (a : ℕ) where
  -- A write by `put_submission`, with any registry of the same coin and any head.
  pub put_submission-Writes :
      (s : Submission)
      → a ≤ 1
      → c'.first ≡ (put_submission c a s).first
      → c'.second ≡ (put_submission c a s).second
      → SameCoin c.registry c'.registry
      → (IsStored hash c → s.attempt ≡ a)
      → (IsStored hash c → IsGenuine hash c'.registry s)
      → Writes hash c c' a s
  put_submission-Writes s le e f same attempt genuine = record {
    coin = same;
    stored = submission_of-same c' (put_submission c a s) a e f ∙ submission_of-put c a s le;
    kept = λ b n.
        submission_of-same c' (put_submission c a s) b e f ∙ submission_of-put_other c a b s n;
    attempt = attempt;
    genuine = genuine;
  }

  -- A submission that only gets another status and, it may be, a slot of its end.
  pub closed-Writes :
      (s : Submission) (status slot : ℕ)
      → submission_of c a ≡ some s
      → c'.first ≡ (put_submission c a (record s { status = status; finalized_slot = slot })).first
      → c'.second
        ≡ (put_submission c a (record s { status = status; finalized_slot = slot })).second
      → SameCoin c.registry c'.registry
      → Writes hash c c' a (record s { status = status; finalized_slot = slot })
  closed-Writes s status slot at e f same =
      put_submission-Writes _ (submission_of-le c a s at) e f same (λ h. h.attempts a s at)
        (λ h.
          let g = IsGenuine-same hash c.registry c'.registry same s (h.genuine a s at) in
          record {
            slots = g.slots;
            fits = g.fits;
            last = g.last;
            history = g.history;
            owner = g.owner;
            counted = g.counted;
            serial = g.serial;
          })

pub unchanged_head : (c : CoinAccounts) (a : ℕ) (s : Submission) → SameHead c (put_submission c a s)
unchanged_head c a s =
    let (same_registry, same_head) = put_submission-rest c a s in
    record {
      same_status = ap (λ (r : MintRegistry). r.status) same_registry;
      same_set = ap (λ (h : HeadRegistry). h.set) same_head;
      same_attempt = ap (λ (h : HeadRegistry). h.head_attempt) same_head;
    }

pub put_submission-SameCoin :
    (c : CoinAccounts) (a : ℕ) (s : Submission)
    → SameCoin c.registry (put_submission c a s).registry
put_submission-SameCoin c a s =
    subst (λ r. SameCoin c.registry r) (sym (put_submission-rest c a s).0) (same_coin c.registry)

pub parse_submission-eq-ok :
    {Tokens : Type 0} (spl : TokenProgram Tokens) (at : Addresses) (c : CoinAccounts)
    (key serial : Buffer) (attempt : ℕ) {s : Submission}
    → parse_submission spl at c key serial attempt ≡ ok s
    → submission_of c attempt ≡ some s
unfolding parse_submission
parse_submission-eq-ok spl at c key serial attempt e =
    some_or-eq-ok _ _ (guard-eq-ok (equals key (at.sub_pda serial attempt)) _ _ e).1

-- A write by `put_submission` spends no coin.
pub put_submission-spends_nothing :
    (c : CoinAccounts) (a : ℕ) (s : Submission)
    → c.registry.status ≢ spent
    → (put_submission c a s).registry.status ≢ spent
put_submission-spends_nothing c a s live now =
    live (sym (ap (λ (r : MintRegistry). r.status) (put_submission-rest c a s).0) ∙ now)

pub put_submission-IsPayment :
    (c : CoinAccounts) (a : ℕ) (s : Submission)
    → IsPayment c.registry (put_submission c a s).registry 0
put_submission-IsPayment c a s =
    let same_registry = (put_submission-rest c a s).0 in
    no_payment (ap (λ (r : MintRegistry). r.status) same_registry)
      (ap (λ (r : MintRegistry). r.value) same_registry)
