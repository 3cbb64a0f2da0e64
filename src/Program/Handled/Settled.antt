-- ===== src/Program/Handled/Settled.antt =====
-- `settle` of programs/obp-core/src/instructions/checkin.rs pays the submission that holds the head.
use offline_bearer_protocol.Buffer.{Buffer, equals}
use offline_bearer_protocol.Prelude.{
  ◌∷◌, Option, ℕ, [], ◌-◌, ◌+◌, ◌≤◌, ◌≡◌, ◌≢◌, refl, sym, ap, subst, ◌∙◌, arith, Ensures,
  Ensures-bind, Ensures-guard, Ensures-ok, some_or, some_or-eq-ok, leb, leb→le, ◌<◌, ◌^◌, ◌==◌,
  ==_iff, ok,
}
use offline_bearer_protocol.Program.Accounts.{Allowance, HeadRegistry, Submission}
use offline_bearer_protocol.Program.Append.Grows.{SameCoin}
use offline_bearer_protocol.Program.Backing.{loses_middle, pda_transfer-loses, pda_transfer-spares}
use offline_bearer_protocol.Program.Checks.{bond_amount, pda_transfer}
use offline_bearer_protocol.Program.Context.{CoinAccounts, Context, submission_of, put_submission}
use offline_bearer_protocol.Program.Dispute.Moves.{Writes, CoinMove, settles}
use offline_bearer_protocol.Program.Outcome.{PaidOut, pays_none, owner_at, HoldsHead, SettleOutcome}
use offline_bearer_protocol.Program.Outcome.Paid.{pda_transfer-eq-ok, pda_transfer-Pays}
use offline_bearer_protocol.Program.Handled.{Handled, pays_coin, closed-Writes, put_submission-rest}
use offline_bearer_protocol.Program.Handled.Closing.{
  OtherClosed, check_settle_tokens-owner_at, settle_other-OtherClosed,
  settle_allowance-ReleasesOrKeeps, ClosesOther-kept,
}
use offline_bearer_protocol.Program.Settle.{
  SettleKeys, settle_other, settle_allowance, settle_pay_out, check_settle_tokens, settle,
}
use offline_bearer_protocol.Program.Status.{active, spent, pending, won}
use offline_bearer_protocol.Program.Tokens.{TokenProgram, Addresses, IsTokenProgram}
use offline_bearer_protocol.Program.Words.{
  sub_word, sub_word-eq-ok, saturating_add, checked_sub, checked_sub-eq-some,
}

-- What a settlement does, and what it means for the coin.
pub record Settlement {Tokens : Type 0} (hash : Buffer → Buffer) (spl : TokenProgram Tokens)
    (at : Addresses) (serial : Buffer) (attempt other_attempt : ℕ) (keys : SettleKeys)
    (ctx ctx' : Context Tokens) : Type 0 where
  pub outcome : SettleOutcome spl at serial attempt other_attempt keys ctx ctx'
  pub handled : Handled hash spl at ctx ctx'

module _ (hash : Buffer → Buffer) {Tokens : Type 0} (spl : TokenProgram Tokens) (at : Addresses)
    (law : IsTokenProgram spl)
    (apart : (serial : Buffer) (attempt : ℕ) → at.sub_pda serial attempt ≢ at.vault_pda) where
  module _ (serial : Buffer) (attempt other_attempt : ℕ) (keys : SettleKeys) (ctx : Context Tokens)
      (two : other_attempt ≢ attempt) where
    module _ (sub : Submission) (holds : HoldsHead ctx.coin attempt sub)
        (is_active : ctx.coin.registry.status ≡ active) (bond : ℕ) (c1 : Context Tokens)
        (o : OtherClosed hash spl at law apart serial attempt other_attempt keys bond ctx c1) where
      -- What `settle_pay_out` leaves, by what it computed.
      abbrev settled_coin : CoinAccounts
      settled_coin = record (put_submission c1.coin attempt (record sub { status = won })) {
        registry = record ctx.coin.registry { status = spent };
      }

      abbrev settled_context : Tokens → ℕ → (Buffer → Option Allowance) → Context Tokens
      settled_context tokens supply allowances = record {
        config = record ctx.config { total_unspent_supply = supply };
        coin = settled_coin;
        allowances = allowances;
        tokens = tokens;
        slot = ctx.slot;
      }

      winner_written : Writes hash c1.coin settled_coin attempt (record sub { status = won })
      winner_written =
          let spends : SameCoin c1.coin.registry settled_coin.registry =
            subst (λ r. SameCoin r settled_coin.registry) (sym o.same_registry)
              (record { same_serial = refl; same_value = refl; same_genesis = refl }) in
          closed-Writes hash c1.coin settled_coin attempt sub won sub.finalized_slot
            (o.same_winner ∙ holds.stored) refl refl spends

      head_kept : settled_coin.head ≡ ctx.coin.head
      head_kept =
          (put_submission-rest c1.coin attempt (record sub { status = won })).1 ∙ o.same_head

      settled_coin-moved : CoinMove hash ctx.coin settled_coin
      settled_coin-moved =
          settles attempt (record sub { status = won }) c1.coin
            (record {
              has_status = is_active;
              is_set = holds.is_set;
              at_attempt = holds.at_attempt;
            })
            o.closed winner_written refl
            (record {
              has_status = refl;
              is_set = ap (λ (x : HeadRegistry). x.set) head_kept ∙ holds.is_set;
              at_attempt = ap (λ (x : HeadRegistry). x.head_attempt) head_kept ∙ holds.at_attempt;
            })

      settled_context-PaidOut :
          (t2 t3 : Tokens) (supply : ℕ) (allowances : Buffer → Option Allowance)
          → owner_at spl ctx.tokens keys.winner_token ≡ sub.final_owner
          → pda_transfer spl c1.tokens keys.coin_vault keys.winner_token at.vault_pda
              ctx.coin.registry.value
            ≡ ok t2
          → pda_transfer spl t2 keys.escrow keys.checker_token (at.sub_pda serial attempt) bond
            ≡ ok t3
          → supply + ctx.coin.registry.value ≡ ctx.config.total_unspent_supply
          → PaidOut spl at ctx
              (settled_context t3 supply allowances)
              sub.final_owner
              keys.coin_vault
              keys.winner_token
              []
              o.payments
              (record {
                source = keys.escrow;
                target = keys.checker_token;
                authority = at.sub_pda serial attempt;
                amount = bond;
              }
                ∷ [])
      settled_context-PaidOut t2 t3 supply allowances owned e3 e4 left = record {
        checked = ctx.tokens;
        before = c1.tokens;
        after = t2;
        paid_earlier = pays_none ctx.tokens;
        owned = owned;
        paid_between = o.paid;
        transferred = pda_transfer-eq-ok spl c1.tokens _ _ _ ctx.coin.registry.value e3;
        paid_later = pda_transfer-Pays spl t2 _ _ _ bond e4;
        has_registry = refl;
        supply = left;
        same_config = refl;
      }

    settle_pay_out-Settlement :
        (sub : Submission)
        → HoldsHead ctx.coin attempt sub
        → ctx.coin.registry.status ≡ active
        → owner_at spl ctx.tokens keys.winner_token ≡ sub.final_owner
        → Ensures
            (settle_pay_out hash spl at serial attempt other_attempt keys sub ctx)
            (Settlement hash spl at serial attempt other_attempt keys ctx)
    unfolding settle_pay_out
    settle_pay_out-Settlement sub holds is_active owned =
        Ensures-bind (bond_amount ctx.coin.registry.value ctx.config.bond_multiplier_bps) _ _
          λ bond e1.
            Ensures-bind
              (settle_other hash spl at serial other_attempt keys bond ctx keys.other_submission) _
              _
              λ c1 e2.
                Ensures-bind
                  (pda_transfer spl c1.tokens keys.coin_vault keys.winner_token at.vault_pda
                    ctx.coin.registry.value)
                  _ _
                  λ t2 e3.
                    Ensures-bind
                      (pda_transfer spl t2 keys.escrow keys.checker_token
                        (at.sub_pda serial attempt) bond)
                      _ _
                      λ t3 e4.
                        Ensures-bind
                          (some_or
                            (checked_sub ctx.config.total_unspent_supply ctx.coin.registry.value) _)
                          _ _
                          λ supply e5.
                            Ensures-bind
                              (settle_allowance hash spl at ctx.coin.registry.value
                                ctx.coin.registry.recipient ctx keys.recipient_allowance)
                              _ _
                              λ allowances e6.
                                Ensures-ok
                                  (Settlement hash spl at serial attempt other_attempt keys ctx)
                                  (let o =
                                      settle_other-OtherClosed hash spl at law apart serial attempt
                                        other_attempt keys ctx two bond keys.other_submission c1
                                        e2 in
                                    let (enough, less) =
                                      checked_sub-eq-some _ _ (some_or-eq-ok _ _ e5) in
                                    let left : supply + ctx.coin.registry.value
                                        ≡ ctx.config.total_unspent_supply =
                                      omega arith in
                                    let written = winner_written sub holds is_active bond c1 o in
                                    let paid_out =
                                      settled_context-PaidOut sub holds is_active bond c1 o t2 t3
                                        supply allowances owned e3 e4 left in
                                    record {
                                      outcome = record {
                                        sub = sub;
                                        holds = holds;
                                        was_active = is_active;
                                        two = two;
                                        bond = bond;
                                        bonded = e1;
                                        payments = o.payments;
                                        other =
                                            ClosesOther-kept hash spl at law apart serial attempt
                                              other_attempt keys ctx two bond c1.coin
                                              (settled_coin sub holds is_active bond c1 o)
                                              o.payments (written.kept other_attempt two) o.other;
                                        stored = written.stored;
                                        same_head = head_kept sub holds is_active bond c1 o;
                                        paid_out = paid_out;
                                        allowances =
                                            settle_allowance-ReleasesOrKeeps hash spl at law apart
                                              serial attempt other_attempt keys ctx two
                                              keys.recipient_allowance allowances e6;
                                      };
                                      handled = record {
                                        bump = ctx.coin.head.bump;
                                        paid_to = λ live now. record {
                                          attempt = attempt;
                                          winner = record sub { status = won };
                                          stored = written.stored;
                                          is_won = refl;
                                          coin_vault = keys.coin_vault;
                                          winner_token = keys.winner_token;
                                          earlier = [];
                                          between = o.payments;
                                          later = _;
                                          paid_out = paid_out;
                                        };
                                        moved = settled_coin-moved sub holds is_active bond c1 o;
                                        amount = ctx.coin.registry.value;
                                        payment =
                                            pays_coin (λ e. absurd (omega (arith, is_active))) refl
                                              refl;
                                        loss =
                                            loses_middle spl at ctx.coin.registry.value ctx.tokens
                                              c1.tokens t2 t3 o.spared
                                              (pda_transfer-loses spl at law c1.tokens
                                                keys.coin_vault keys.winner_token at.vault_pda
                                                ctx.coin.registry.value t2 e3)
                                              (pda_transfer-spares spl at law t2 keys.escrow
                                                keys.checker_token _ bond (apart serial attempt) t3
                                                e4);
                                        supply = omega arith;
                                        same_mint = refl;
                                      };
                                    })

  pub settle-Settlement :
      (serial : Buffer) (attempt other_attempt : ℕ) (recipient : Buffer) (keys : SettleKeys)
      (ctx : Context Tokens)
      → Ensures
          (settle hash spl at serial attempt other_attempt recipient keys ctx)
          (Settlement hash spl at serial attempt other_attempt keys ctx)
  unfolding settle
  settle-Settlement serial attempt other_attempt recipient keys ctx =
      Ensures-guard (leb ctx.config.sig_scheme 1) _ _ _ λ e1.
        Ensures-guard (ctx.coin.registry.status == active) _ _ _ λ e2.
          Ensures-bind (some_or (submission_of ctx.coin attempt) _) _ _ λ sub e3.
            Ensures-guard (sub.status == pending) _ _ _ λ e4.
              Ensures-guard (equals serial sub.serial) _ _ _ λ e5.
                Ensures-guard (equals recipient ctx.coin.registry.recipient) _ _ _ λ e6.
                  Ensures-bind (sub_word 1 sub.attempt) _ _ λ expected e7.
                    Ensures-guard (other_attempt == expected) _ _ _ λ e8.
                      Ensures-guard ctx.coin.head.set _ _ _ λ e9.
                        Ensures-guard (sub.attempt == ctx.coin.head.head_attempt) _ _ _ λ e10.
                          Ensures-guard (sub.attempt == attempt) _ _ _ λ e11.
                            Ensures-guard
                              (leb
                                (saturating_add 64 ctx.coin.head.pending_since_slot
                                  ctx.config.challenge_window_slots)
                                ctx.slot)
                              _ _ _
                              λ e12.
                                Ensures-bind
                                  (check_settle_tokens hash spl at serial attempt keys sub ctx) _ _
                                  λ done e13 ctx' e14.
                                    let here = (==_iff sub.attempt attempt).0 e11 in
                                    let (small, flipped) = sub_word-eq-ok 1 sub.attempt e7 in
                                    let named = (==_iff other_attempt expected).0 e8 in
                                    let two : other_attempt ≢ attempt =
                                      λ same. absurd (omega arith) in
                                    settle_pay_out-Settlement serial attempt other_attempt keys ctx
                                      two sub
                                      (record {
                                        is_set = e9;
                                        at_attempt = sym ((==_iff _ _).0 e10) ∙ here;
                                        stored =
                                            some_or-eq-ok (submission_of ctx.coin attempt) _ e3;
                                        is_pending = (==_iff _ _).0 e4;
                                      })
                                      ((==_iff _ _).0 e2)
                                      (check_settle_tokens-owner_at hash spl at law apart serial
                                        attempt keys sub ctx done e13)
                                      ctx' e14

  pub settle-Handled :
      (serial : Buffer) (attempt other_attempt : ℕ) (recipient : Buffer) (keys : SettleKeys)
      (ctx : Context Tokens)
      → Ensures
          (settle hash spl at serial attempt other_attempt recipient keys ctx)
          (Handled hash spl at ctx)
  settle-Handled serial attempt other_attempt recipient keys ctx ctx' e =
      (settle-Settlement serial attempt other_attempt recipient keys ctx ctx' e).handled

-- Nothing is settled before the challenge window has passed since the slot that the head stores as
-- pending_since_slot, in which a submission came to hold it, as long as slots are below the largest
-- number of 64 bits. It is this slot that counts, not the one in which the first submission started.
pub settle-after_window :
    {Tokens : Type 0} (hash : Buffer → Buffer) (spl : TokenProgram Tokens) (at : Addresses)
    (serial : Buffer) (attempt other_attempt : ℕ) (recipient : Buffer) (keys : SettleKeys)
    (ctx ctx' : Context Tokens)
    → ctx.slot < 2 ^ 64 - 1
    → settle hash spl at serial attempt other_attempt recipient keys ctx ≡ ok ctx'
    → ctx.coin.head.pending_since_slot + ctx.config.challenge_window_slots ≤ ctx.slot
unfolding settle saturating_add
settle-after_window {Tokens} hash spl at serial attempt other_attempt recipient keys ctx ctx' small
      e =
    let P : Context Tokens → Type 0 =
      λ _. ctx.coin.head.pending_since_slot + ctx.config.challenge_window_slots ≤ ctx.slot in
    Ensures-guard (leb ctx.config.sig_scheme 1) _ _ P
      (λ _. Ensures-guard (ctx.coin.registry.status == active) _ _ P λ _.
        Ensures-bind (some_or (submission_of ctx.coin attempt) _) _ P λ sub _.
          Ensures-guard (sub.status == pending) _ _ P λ _.
            Ensures-guard (equals serial sub.serial) _ _ P λ _.
              Ensures-guard (equals recipient ctx.coin.registry.recipient) _ _ P λ _.
                Ensures-bind (sub_word 1 sub.attempt) _ P λ expected _.
                  Ensures-guard (other_attempt == expected) _ _ P λ _.
                    Ensures-guard ctx.coin.head.set _ _ P λ _.
                      Ensures-guard (sub.attempt == ctx.coin.head.head_attempt) _ _ P λ _.
                        Ensures-guard (sub.attempt == attempt) _ _ P λ _.
                          Ensures-guard
                            (leb
                              (saturating_add 64 ctx.coin.head.pending_since_slot
                                ctx.config.challenge_window_slots)
                              ctx.slot)
                            _ _ P λ e12 _ _. let passed = leb→le _ _ e12 in omega arith)
      ctx' e
