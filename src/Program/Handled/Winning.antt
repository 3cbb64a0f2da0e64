-- ===== src/Program/Handled/Winning.antt =====
-- The branch of `finalize_check_in` in programs/obp-core/src/instructions/checkin.rs in which a submission
-- takes over from the one that holds the head, and is paid.
use offline_bearer_protocol.Buffer.{Buffer, equals}
use offline_bearer_protocol.Prelude.{
  ◌+◌, ℕ, ◌≡◌, [], ◌∷◌, ok, ◌≢◌, refl, sym, ap, subst, ◌∙◌, true, some, arith, Ensures,
  Ensures-bind, Ensures-guard, Ensures-ok, some_or, some_or-eq-ok,
}
use offline_bearer_protocol.Program.Accounts.{Allowance, Submission, HeadRegistry}
use offline_bearer_protocol.Program.Append.Grows.{SameCoin}
use offline_bearer_protocol.Program.Backing.{
  LosesAtMost, loses_last, pda_transfer-loses, pda_transfer-spares,
}
use offline_bearer_protocol.Program.Checks.{
  bond_amount, pda_transfer, last_state, parse_allowance, tok_of,
}
use offline_bearer_protocol.Program.Context.{
  CoinAccounts, Context, submission_of, put_submission, put, required_account,
}
use offline_bearer_protocol.Program.Dispute.Moves.{
  Writes, CoinMove, overturns, submission_of-put_other,
}
use offline_bearer_protocol.Program.Finalize.{
  FinalizeKeys, head_of, pay_winner, release, fin_resolve_win,
}
use offline_bearer_protocol.Program.Handled.{
  pays_coin, closed-Writes, put_submission-rest, put_submission-SameCoin,
}
use offline_bearer_protocol.Program.Finalize.Wins.{Beats}
use offline_bearer_protocol.Program.Handled.Decision.{Decision}
use offline_bearer_protocol.Program.Outcome.{
  PaidOut, Pays, pays_none, pays_first, owner_at, HoldsHead, head_held_by, overturned,
}
use offline_bearer_protocol.Program.Outcome.Paid.{
  pda_transfer-eq-ok, pda_transfer-Pays, tok_of-owner_at, parse_allowance-eq-ok, release-eq-ok,
}
use offline_bearer_protocol.Program.Status.{spent, receiving, won, lost}
use offline_bearer_protocol.Program.Tokens.{TokenProgram, Addresses, IsTokenProgram}
use offline_bearer_protocol.Program.Words.{checked_sub, checked_sub-eq-some}

-- The payments of a winner.
record WinnerPaid {Tokens : Type 0} (spl : TokenProgram Tokens) (at : Addresses) (serial : Buffer)
    (attempt other_attempt : ℕ) (keys : FinalizeKeys) (sub : Submission) (ctx : Context Tokens)
    (tokens : Tokens) : Type 0 where
  bond : ℕ
  other_escrow : Buffer
  before : Tokens
  bonded : bond_amount ctx.coin.registry.value ctx.config.bond_multiplier_bps ≡ ok bond
  bonds :
      Pays spl ctx.tokens
        (record {
          source = keys.escrow;
          target = keys.checker_token;
          authority = at.sub_pda serial attempt;
          amount = bond;
        }
          ∷ record {
            source = other_escrow;
            target = keys.checker_token;
            authority = at.sub_pda serial other_attempt;
            amount = bond;
          }
          ∷ [])
        before
  owned : owner_at spl before keys.winner_token ≡ sub.final_owner
  transferred :
      spl.transfer before keys.coin_vault keys.winner_token at.vault_pda ctx.coin.registry.value
      ≡ some tokens
  loss : LosesAtMost spl at ctx.coin.registry.value ctx.tokens tokens

-- The head where it was set before.
head_moves :
    (head : HeadRegistry) (attempt : ℕ) (sub : Submission) (last : Buffer) (slot : ℕ)
    → head.set ≡ true
    → sub.attempt ≡ attempt
    → head_of head sub last slot ≡ head_held_by head attempt sub last slot
unfolding head_of
head_moves head attempt sub last slot set here =
    ap (λ b. record (head_held_by head sub.attempt sub last slot) { set = b }) set
    ∙ ap (λ a. head_held_by head a sub last slot) here

module _ (hash : Buffer → Buffer) {Tokens : Type 0} (spl : TokenProgram Tokens) (at : Addresses)
    (law : IsTokenProgram spl)
    (apart : (serial : Buffer) (attempt : ℕ) → at.sub_pda serial attempt ≢ at.vault_pda) where
  module _ (serial : Buffer) (attempt other_attempt : ℕ) (keys : FinalizeKeys) (sub : Submission)
      (ctx : Context Tokens) (stored : submission_of ctx.coin attempt ≡ some sub)
      (still : sub.status ≡ receiving) where
    -- The winner is paid from the vault, and both bonds come from the escrows.
    pay_winner-WinnerPaid :
        Ensures
          (pay_winner hash spl at serial attempt other_attempt keys sub ctx)
          (WinnerPaid spl at serial attempt other_attempt keys sub ctx)
    unfolding pay_winner
    pay_winner-WinnerPaid =
        Ensures-bind (bond_amount ctx.coin.registry.value ctx.config.bond_multiplier_bps) _ _
          λ bond e1.
            Ensures-bind
              (pda_transfer spl ctx.tokens keys.escrow keys.checker_token
                (at.sub_pda serial attempt) bond)
              _ _
              λ t1 e2. Ensures-bind (required_account keys.other_escrow) _ _ λ escrow e3.
                Ensures-guard (equals (spl.info t1 escrow).program spl.id) _ _ _ λ e4.
                  Ensures-bind (tok_of spl t1 escrow) _ _ λ tok e5.
                    Ensures-guard (equals tok.owner (at.sub_pda serial other_attempt)) _ _ _ λ e6.
                      Ensures-bind
                        (pda_transfer spl t1 escrow keys.checker_token
                          (at.sub_pda serial other_attempt) bond)
                        _ _
                        λ t2 e7. Ensures-bind (tok_of spl t2 keys.winner_token) _ _ λ winner e8.
                          Ensures-guard (equals winner.owner sub.final_owner) _ _ _ λ e9 t3 e10.
                            let own =
                              pda_transfer-spares spl at law ctx.tokens keys.escrow
                                keys.checker_token _ bond (apart serial attempt) t1 e2 in
                            let others =
                              pda_transfer-spares spl at law t1 escrow keys.checker_token _ bond
                                (apart serial other_attempt) t2 e7 in
                            let value =
                              pda_transfer-loses spl at law t2 keys.coin_vault keys.winner_token
                                at.vault_pda ctx.coin.registry.value t3 e10 in
                            record {
                              bond = bond;
                              other_escrow = escrow;
                              before = t2;
                              bonded = e1;
                              bonds =
                                  pays_first _ _ ctx.tokens t1 t2
                                    (pda_transfer-eq-ok spl ctx.tokens _ _ _ bond e2)
                                    (pda_transfer-Pays spl t1 _ _ _ bond e7);
                              owned =
                                  tok_of-owner_at spl t2 keys.winner_token sub.final_owner e8 e9;
                              transferred =
                                  pda_transfer-eq-ok spl t2 _ _ _ ctx.coin.registry.value e10;
                              loss =
                                  loses_last spl at ctx.coin.registry.value ctx.tokens t1 t2 t3 own
                                    others value;
                            }

    module _ (other : Submission) (holds : HoldsHead ctx.coin other_attempt other)
        (beats : Beats ctx.coin.head sub) (two : attempt ≢ other_attempt) where
      -- What `fin_resolve_win` leaves, by what it computed.
      abbrev won_coin : Buffer → CoinAccounts
      won_coin last =
          let mine =
            put_submission ctx.coin attempt
              (record sub { status = won; finalized_slot = ctx.slot }) in
          record (put_submission mine other_attempt (record other { status = lost })) {
            registry = record ctx.coin.registry { status = spent };
            head = head_of ctx.coin.head sub last ctx.slot;
          }

      abbrev won_context : Buffer → Tokens → ℕ → Allowance → Context Tokens
      won_context last tokens supply released = record {
        config = record ctx.config { total_unspent_supply = supply };
        coin = won_coin last;
        allowances = put ctx.coin.registry.recipient released ctx.allowances;
        tokens = tokens;
        slot = ctx.slot;
      }

      WinnerPaid-PaidOut :
          (last : Buffer) (tokens : Tokens) (supply : ℕ) (released : Allowance)
          (w : WinnerPaid spl at serial attempt other_attempt keys sub ctx tokens)
          → supply + ctx.coin.registry.value ≡ ctx.config.total_unspent_supply
          → PaidOut spl at ctx
              (won_context last tokens supply released)
              sub.final_owner
              keys.coin_vault
              keys.winner_token
              (record {
                source = keys.escrow;
                target = keys.checker_token;
                authority = at.sub_pda serial attempt;
                amount = w.bond;
              }
                ∷ record {
                  source = w.other_escrow;
                  target = keys.checker_token;
                  authority = at.sub_pda serial other_attempt;
                  amount = w.bond;
                }
                ∷ [])
              []
              []
      WinnerPaid-PaidOut last tokens supply released w left = record {
        checked = w.before;
        before = w.before;
        after = tokens;
        paid_earlier = w.bonds;
        owned = w.owned;
        paid_between = pays_none w.before;
        transferred = w.transferred;
        paid_later = pays_none tokens;
        has_registry = refl;
        supply = left;
        same_config = refl;
      }

      first_write :
          Writes hash ctx.coin
            (put_submission ctx.coin attempt
              (record sub { status = won; finalized_slot = ctx.slot }))
            attempt
            (record sub { status = won; finalized_slot = ctx.slot })
      first_write = closed-Writes hash ctx.coin _ attempt sub won ctx.slot stored refl refl (
          put_submission-SameCoin ctx.coin attempt
            (record sub { status = won; finalized_slot = ctx.slot }))

      second_write :
          (last : Buffer)
          → Writes hash
              (put_submission ctx.coin attempt
                (record sub { status = won; finalized_slot = ctx.slot }))
              (won_coin last)
              other_attempt
              (record other { status = lost })
      second_write last =
          let done = record sub { status = won; finalized_slot = ctx.slot } in
          let spends =
            subst (λ r. SameCoin r (won_coin last).registry)
              (sym (put_submission-rest ctx.coin attempt done).0)
              (record { same_serial = refl; same_value = refl; same_genesis = refl }) in
          closed-Writes hash (put_submission ctx.coin attempt done) (won_coin last) other_attempt
            other lost other.finalized_slot
            (submission_of-put_other ctx.coin attempt other_attempt done (λ e. two (sym e))
              ∙ holds.stored)
            refl refl spends

      winner_stored :
          (last : Buffer)
          → submission_of (won_coin last) attempt
            ≡ some (record sub { status = won; finalized_slot = ctx.slot })
      winner_stored last = (second_write last).kept attempt two ∙ first_write.stored

      won_coin-moved :
          (last : Buffer)
          → ctx.coin.registry.status ≢ spent
          → sub.attempt ≡ attempt
          → CoinMove hash ctx.coin (won_coin last)
      unfolding head_of
      won_coin-moved last live here =
          overturns attempt other_attempt (record sub { status = won; finalized_slot = ctx.slot })
            (record other { status = lost })
            (put_submission ctx.coin attempt
              (record sub { status = won; finalized_slot = ctx.slot }))
            two (sub, stored, still) beats (other, holds.stored, holds.is_pending) live
            (record { has_status = refl; is_set = holds.is_set; at_attempt = holds.at_attempt })
            first_write refl (second_write last) refl
            (record { has_status = refl; is_set = holds.is_set; at_attempt = here })

      pub fin_resolve_win-Decision :
          ctx.coin.registry.status ≢ spent
          → sub.attempt ≡ attempt
          → Ensures
              (fin_resolve_win hash spl at serial attempt other_attempt keys sub other ctx)
              (Decision hash spl at serial attempt other_attempt keys ctx)
      unfolding fin_resolve_win head_of
      fin_resolve_win-Decision live here =
          Ensures-bind (pay_winner hash spl at serial attempt other_attempt keys sub ctx) _ _
            λ tokens e1. Ensures-bind (last_state sub) _ _ λ last e2.
              Ensures-bind
                (some_or (checked_sub ctx.config.total_unspent_supply ctx.coin.registry.value) _) _
                _
                λ supply e3. Ensures-bind (required_account keys.recipient_allowance) _ _ λ key e4.
                  Ensures-bind (parse_allowance spl at ctx key ctx.coin.registry.recipient) _ _
                    λ allowance e5.
                      Ensures-bind (release hash spl at ctx.coin.registry.value allowance) _ _
                        λ released e6.
                          Ensures-ok (Decision hash spl at serial attempt other_attempt keys ctx) (
                            let (enough, less) = checked_sub-eq-some _ _ (some_or-eq-ok _ _ e3) in
                            let left : supply + ctx.coin.registry.value
                                ≡ ctx.config.total_unspent_supply =
                              omega arith in
                            let w = pay_winner-WinnerPaid tokens e1 in
                            let (covered, rest) =
                              release-eq-ok spl hash at ctx.coin.registry.value allowance released
                                e6 in
                            record {
                              sub = sub;
                              stored = stored;
                              was_receiving = still;
                              outcome =
                                  overturned other w.bond w.other_escrow last live two holds beats
                                    w.bonded e2 (winner_stored last) (second_write last).stored
                                    (head_moves ctx.coin.head attempt sub last ctx.slot holds.is_set
                                      here)
                                    (WinnerPaid-PaidOut last tokens supply released w left)
                                    (record {
                                      allowance = allowance;
                                      found =
                                          parse_allowance-eq-ok spl hash at ctx key
                                            ctx.coin.registry.recipient e5;
                                      enough = covered;
                                      left =
                                          ap (λ x. put ctx.coin.registry.recipient x ctx.allowances)
                                            rest;
                                    });
                              handled = record {
                                bump = ctx.coin.head.bump;
                                paid_to = λ live now. record {
                                  attempt = attempt;
                                  winner = record sub { status = won; finalized_slot = ctx.slot };
                                  stored = winner_stored last;
                                  is_won = refl;
                                  coin_vault = keys.coin_vault;
                                  winner_token = keys.winner_token;
                                  earlier = _;
                                  between = [];
                                  later = [];
                                  paid_out = WinnerPaid-PaidOut last tokens supply released w left;
                                };
                                moved = won_coin-moved last live here;
                                amount = ctx.coin.registry.value;
                                payment = pays_coin live refl refl;
                                loss = w.loss;
                                supply = omega arith;
                                same_mint = refl;
                              };
                            })
