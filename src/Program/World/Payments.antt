-- ===== src/Program/World/Payments.antt =====
-- The steps of the dispute of a coin with what programs/obp-core pays in them.
use offline_bearer_protocol.Buffer.{Buffer}
use offline_bearer_protocol.Prelude.{ℕ, ◌≤◌, ◌≡◌, ◌≢◌, sym, refl, ◌⊎◌, inl, inr, ◌∙◌, some, arith}
use offline_bearer_protocol.Program.Accounts.{MintRegistry, Submission}
use offline_bearer_protocol.Program.Backing.{LosesAtMost}
use offline_bearer_protocol.Program.Context.{Context, CoinAccounts, submission_of}
use offline_bearer_protocol.Program.Dispute.{
  Phase, undecided, held, paid, Next, unchanged, accepted, overturned, settled, IsIdle,
  still_receiving, was_lost, was_rejected, InPhase, is_undecided, is_held, is_paid,
}
use offline_bearer_protocol.Program.Finalize.Wins.{Beats, Beats-rebump}
use offline_bearer_protocol.Program.Handled.{
  Handled, PaidTo, IsPayment, no_payment, pays_coin, rebump,
}
use offline_bearer_protocol.Program.Status.{active, spent, won}
use offline_bearer_protocol.Program.Tokens.{TokenProgram, Addresses}

-- The supply stays, and no account of the vault loses anything.
pub record Unpaid {Tokens : Type 0} (spl : TokenProgram Tokens) (at : Addresses)
    (ctx ctx' : Context Tokens) : Type 0 where
  pub same_supply : ctx'.config.total_unspent_supply ≡ ctx.config.total_unspent_supply
  pub spared : LosesAtMost spl at 0 ctx.tokens ctx'.tokens

-- The coin's value is paid to the submission of an attempt, and no account of the vault loses more.
pub record Paid {Tokens : Type 0} (spl : TokenProgram Tokens) (at : Addresses)
    (ctx ctx' : Context Tokens) (attempt : ℕ) : Type 0 where
  pub paid_to : PaidTo spl at ctx ctx'
  pub same_attempt : paid_to.attempt ≡ attempt
  pub loss : LosesAtMost spl at ctx.coin.registry.value ctx.tokens ctx'.tokens

-- A step of the dispute, with what is paid in it.
pub data Advances {Tokens : Type 0} (spl : TokenProgram Tokens) (at : Addresses)
    (ctx ctx' : Context Tokens) : Phase → Phase → Type 0 where
  stays : (p : Phase) → Unpaid spl at ctx ctx' → Advances spl at ctx ctx' p p
  comes_to_hold :
      (attempt : ℕ) → Unpaid spl at ctx ctx' → Advances spl at ctx ctx' undecided (held attempt)
  takes_over :
      (attempt other : ℕ) (s : Submission)
      → attempt ≢ other
      → submission_of ctx.coin attempt ≡ some s
      → Beats ctx.coin.head s
      → Paid spl at ctx ctx' attempt
      → Advances spl at ctx ctx' (held other) (paid attempt)
  is_settled :
      (attempt : ℕ)
      → Paid spl at ctx ctx' attempt
      → Advances spl at ctx ctx' (held attempt) (paid attempt)

-- The registry's status in a phase.
abbrev status_in : Phase → ℕ
status_in undecided = active
status_in (held attempt) = active
status_in (paid attempt) = spent

InPhase-status : (c : CoinAccounts) (p : Phase) → InPhase c p → c.registry.status ≡ status_in p
InPhase-status c _ (is_undecided st unset all) = st
InPhase-status c _ (is_held a st set at l) = st
InPhase-status c _ (is_paid a st set at l) = st

-- In a coin that is paid, only one submission is won.
InPhase-won :
    (c : CoinAccounts) (a b : ℕ) (s : Submission)
    → InPhase c (paid a)
    → submission_of c b ≡ some s
    → s.status ≡ won
    → b ≡ a
InPhase-won c _ b s (is_paid a st set at l) e f = elim (attempts b a) [
  | inl same ↦ same
  | inr other ↦ absurd (idle-not_won (l.others b s other e) f)
]
  where
    attempts : (m n : ℕ) → (m ≡ n) ⊎ (m ≢ n)
    attempts m n = ground arith

    idle-not_won : {n : ℕ} → IsIdle n → n ≡ won → ⊥
    idle-not_won (still_receiving g) h = omega arith
    idle-not_won (was_lost g) h = omega arith
    idle-not_won (was_rejected g) h = omega arith

-- Nothing is paid while the registry's status stays.
IsPayment-none :
    (r r' : MintRegistry) (amount : ℕ) → IsPayment r r' amount → r'.status ≡ r.status → amount ≡ 0
IsPayment-none r r' _ (no_payment st v) same = refl
IsPayment-none r r' _ (pays_coin live now v) same = absurd (live (sym same ∙ now))

IsPayment-le : (r r' : MintRegistry) (amount : ℕ) → IsPayment r r' amount → amount ≤ r.value
IsPayment-le r r' _ (no_payment st v) = omega arith
IsPayment-le r r' _ (pays_coin live now v) = omega arith

module _ {Tokens : Type 0} (hash : Buffer → Buffer) (spl : TokenProgram Tokens)
    (at : Addresses) where
  LosesAtMost-le :
      (m n : ℕ) (t t' : Tokens) → m ≤ n → LosesAtMost spl at m t t' → LosesAtMost spl at n t t'
  LosesAtMost-le m n t t' le loss key a f v =
      let (b, g, w, same, kept) = loss key a f v in (b, g, w, same, omega arith)

  Handled-Unpaid :
      (ctx ctx' : Context Tokens)
      → Handled hash spl at ctx ctx'
      → ctx'.coin.registry.status ≡ ctx.coin.registry.status
      → Unpaid spl at ctx ctx'
  Handled-Unpaid ctx ctx' h same =
      let none_paid = IsPayment-none ctx.coin.registry ctx'.coin.registry h.amount h.payment same in
      let supply = h.supply in
      record {
        same_supply = omega arith;
        spared = LosesAtMost-le h.amount 0 ctx.tokens ctx'.tokens (omega arith) h.loss;
      }

  Handled-Paid :
      (ctx ctx' : Context Tokens) (a : ℕ)
      → Handled hash spl at ctx ctx'
      → ctx.coin.registry.status ≡ active
      → InPhase ctx'.coin (paid a)
      → Paid spl at ctx ctx' a
  Handled-Paid ctx ctx' a h live at_paid =
      let paid_to =
        h.paid_to (λ e. absurd (omega (arith, live))) (InPhase-status ctx'.coin (paid a) at_paid) in
      record {
        paid_to = paid_to;
        same_attempt =
            InPhase-won ctx'.coin a paid_to.attempt paid_to.winner at_paid paid_to.stored
              paid_to.is_won;
        loss =
            LosesAtMost-le h.amount ctx.coin.registry.value ctx.tokens ctx'.tokens
              (IsPayment-le ctx.coin.registry ctx'.coin.registry h.amount h.payment) h.loss;
      }

  pub Next-Advances :
      (ctx ctx' : Context Tokens) (p q : Phase) (h : Handled hash spl at ctx ctx')
      → InPhase ctx.coin p
      → InPhase ctx'.coin q
      → Next (rebump ctx.coin h.bump) p q
      → Advances spl at ctx ctx' p q
  unfolding submission_of
  Next-Advances ctx ctx' _ _ h at_p at_q (unchanged p) = stays p (
      Handled-Unpaid ctx ctx' h
        (InPhase-status ctx'.coin p at_q ∙ sym (InPhase-status ctx.coin p at_p)))
  Next-Advances ctx ctx' _ _ h at_p at_q (accepted a) = comes_to_hold a (
      Handled-Unpaid ctx ctx' h
        (InPhase-status ctx'.coin (held a) at_q ∙ sym (InPhase-status ctx.coin undecided at_p)))
  Next-Advances ctx ctx' _ _ h at_p at_q (overturned a b s apart stored beats) =
      takes_over a b s apart stored (Beats-rebump ctx.coin.head h.bump s beats)
        (Handled-Paid ctx ctx' a h (InPhase-status ctx.coin (held b) at_p) at_q)
  Next-Advances ctx ctx' _ _ h at_p at_q (settled a) =
      is_settled a (Handled-Paid ctx ctx' a h (InPhase-status ctx.coin (held a) at_p) at_q)
