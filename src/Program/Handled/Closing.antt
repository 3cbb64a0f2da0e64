-- ===== src/Program/Handled/Closing.antt =====
-- What `settle` of programs/obp-core/src/instructions/checkin.rs does beside the winner: its test of the
-- token accounts, the other submission and the allowance.
use offline_bearer_protocol.Buffer.{Buffer, equals}
use offline_bearer_protocol.Prelude.{
  ℕ, List, [], ok-injective, ◌≡◌, ◌≢◌, refl, sym, ap, ◌∙◌, Option, some, Ensures, Ensures-bind,
  Ensures-guard, Ensures-ok, Ensures-if, ◌==◌, ==_iff, ◌||◌,
}
use offline_bearer_protocol.Program.Accounts.{Submission, Allowance}
use offline_bearer_protocol.Program.Backing.{LosesAtMost, loses_nothing, pda_transfer-spares}
use offline_bearer_protocol.Program.Checks.{
  parse_allowance, check_tok, pda_transfer, parse_submission, tok_of,
}
use offline_bearer_protocol.Program.Context.{
  Context, Remaining, missing, program_id, account, CoinAccounts, put, submission_of,
  put_submission, required_account,
}
use offline_bearer_protocol.Program.Dispute.Moves.{
  RejectsOther, no_other, rejects, submission_of-put_other,
}
use offline_bearer_protocol.Program.Finalize.{release}
use offline_bearer_protocol.Program.Outcome.{
  Payment, Pays, pays_none, owner_at, ClosesOther, leaves_other, rejects_other, ReleasesOrKeeps,
  keeps, releases,
}
use offline_bearer_protocol.Program.Outcome.Paid.{
  pda_transfer-Pays, release-eq-ok, parse_allowance-eq-ok, check_tok-owner_at,
  required_account-eq-ok,
}
use offline_bearer_protocol.Program.Handled.{
  parse_submission-eq-ok, closed-Writes, put_submission-rest, put_submission-SameCoin,
}
use offline_bearer_protocol.Program.Settle.{
  SettleKeys, close_other, settle_other, settle_allowance, check_settle_tokens,
}
use offline_bearer_protocol.Program.Status.{receiving, rejected, lost}
use offline_bearer_protocol.Program.Tokens.{TokenProgram, Addresses, IsTokenProgram}

module _ (hash : Buffer → Buffer) {Tokens : Type 0} (spl : TokenProgram Tokens) (at : Addresses)
    (law : IsTokenProgram spl)
    (apart : (serial : Buffer) (attempt : ℕ) → at.sub_pda serial attempt ≢ at.vault_pda) where
  -- The account that is paid belongs to the final owner.
  pub check_settle_tokens-owner_at :
      (serial : Buffer) (attempt : ℕ) (keys : SettleKeys) (sub : Submission) (ctx : Context Tokens)
      → Ensures
          (check_settle_tokens hash spl at serial attempt keys sub ctx)
          (λ _. owner_at spl ctx.tokens keys.winner_token ≡ sub.final_owner)
  unfolding check_settle_tokens
  check_settle_tokens-owner_at serial attempt keys sub ctx =
      let P : Unit {0} → Type 0 =
        λ _. owner_at spl ctx.tokens keys.winner_token ≡ sub.final_owner in
      Ensures-bind
        (check_tok spl ctx.tokens keys.escrow ctx.config.vault_mint
          (some (at.sub_pda serial attempt)))
        _ P
        λ done e1.
          Ensures-bind
            (check_tok spl ctx.tokens keys.checker_token ctx.config.vault_mint (some sub.checker)) _
            P
            λ done e2.
              Ensures-bind
                (check_tok spl ctx.tokens keys.winner_token ctx.config.vault_mint
                  (some sub.final_owner))
                _ P
                λ done e3 _ _.
                  check_tok-owner_at spl ctx.tokens keys.winner_token ctx.config.vault_mint
                    sub.final_owner e3

  -- The other submission is closed, where there is one to close.
  pub record OtherClosed (serial : Buffer) (attempt other_attempt : ℕ) (keys : SettleKeys)
      (bond : ℕ) (ctx c1 : Context Tokens) : Type 0 where
    pub payments : List Payment
    pub other : ClosesOther at serial other_attempt keys bond ctx.coin c1.coin payments
    pub paid : Pays spl ctx.tokens payments c1.tokens
    pub closed : RejectsOther hash ctx.coin c1.coin attempt
    pub spared : LosesAtMost spl at 0 ctx.tokens c1.tokens
    pub same_registry : c1.coin.registry ≡ ctx.coin.registry
    pub same_head : c1.coin.head ≡ ctx.coin.head
    pub same_winner : submission_of c1.coin attempt ≡ submission_of ctx.coin attempt

  module _ (serial : Buffer) (attempt other_attempt : ℕ) (keys : SettleKeys) (ctx : Context Tokens)
      (two : other_attempt ≢ attempt) where
    left_alone : (bond : ℕ) → OtherClosed serial attempt other_attempt keys bond ctx ctx
    left_alone bond = record {
      payments = [];
      other = leaves_other refl;
      paid = pays_none ctx.tokens;
      closed = no_other refl;
      spared = loses_nothing spl at ctx.tokens;
      same_registry = refl;
      same_head = refl;
      same_winner = refl;
    }

    close_other-OtherClosed :
        (bond : ℕ) (other : Submission)
        → submission_of ctx.coin other_attempt ≡ some other
        → Ensures
            (close_other hash spl at serial other_attempt keys bond ctx other)
            (OtherClosed serial attempt other_attempt keys bond ctx)
    unfolding close_other
    close_other-OtherClosed bond other stored =
        Ensures-if (other.status == receiving) _ _ _
          (λ e. Ensures-bind (required_account keys.other_escrow) _ _ λ escrow e1.
            Ensures-bind (tok_of spl ctx.tokens escrow) _ _ λ tok e2.
              Ensures-guard (equals tok.owner (at.sub_pda serial other_attempt)) _ _ _ λ e3.
                Ensures-bind
                  (pda_transfer spl ctx.tokens escrow keys.fee_sink
                    (at.sub_pda serial other_attempt) bond)
                  _ _
                  λ tokens e4. Ensures-ok (OtherClosed serial attempt other_attempt keys bond ctx) (
                    let done = record other { status = rejected } in
                    let coin = put_submission ctx.coin other_attempt done in
                    let (registry, head) = put_submission-rest ctx.coin other_attempt done in
                    let written =
                      closed-Writes hash ctx.coin coin other_attempt other rejected
                        other.finalized_slot stored refl refl
                        (put_submission-SameCoin ctx.coin other_attempt done) in
                    let was = (==_iff _ _).0 e in
                    record {
                      payments = _;
                      other =
                          rejects_other other escrow stored was
                            (required_account-eq-ok keys.other_escrow e1) written.stored;
                      paid = pda_transfer-Pays spl ctx.tokens _ _ _ bond e4;
                      closed = rejects other_attempt done two (other, stored, was) written refl;
                      spared =
                          pda_transfer-spares spl at law ctx.tokens _ _ _ bond
                            (apart serial other_attempt) tokens e4;
                      same_registry = registry;
                      same_head = head;
                      same_winner =
                          submission_of-put_other ctx.coin other_attempt attempt done
                            (λ e. two (sym e));
                    }))
          (λ e. Ensures-guard (other.status == lost || other.status == rejected) _ _ _ λ f.
            Ensures-ok (OtherClosed serial attempt other_attempt keys bond ctx) (left_alone bond))

    pub settle_other-OtherClosed :
        (bond : ℕ) (key : Remaining)
        → Ensures
            (settle_other hash spl at serial other_attempt keys bond ctx key)
            (OtherClosed serial attempt other_attempt keys bond ctx)
    unfolding settle_other
    settle_other-OtherClosed bond missing c1 e = cc
    settle_other-OtherClosed bond program_id c1 e =
        Ensures-ok (OtherClosed serial attempt other_attempt keys bond ctx) (left_alone bond) c1 e
    settle_other-OtherClosed bond (account key) c1 e =
        Ensures-bind (parse_submission spl at ctx.coin key serial other_attempt) _
          (OtherClosed serial attempt other_attempt keys bond ctx)
          (λ other e1.
            close_other-OtherClosed bond other
              (parse_submission-eq-ok spl at ctx.coin key serial other_attempt e1))
          c1 e

    pub settle_allowance-ReleasesOrKeeps :
        (key : Remaining)
        → Ensures
            (settle_allowance hash spl at ctx.coin.registry.value ctx.coin.registry.recipient ctx
              key)
            (λ allowances. ReleasesOrKeeps key ctx.coin.registry ctx.allowances allowances)
    unfolding settle_allowance
    settle_allowance-ReleasesOrKeeps missing allowances e = cc
    settle_allowance-ReleasesOrKeeps program_id allowances e = keeps refl (sym (ok-injective e))
    settle_allowance-ReleasesOrKeeps (account key) allowances e =
        let P : (Buffer → Option Allowance) → Type 0 =
          λ after. ReleasesOrKeeps (account key) ctx.coin.registry ctx.allowances after in
        Ensures-bind (parse_allowance spl at ctx key ctx.coin.registry.recipient) _ P
          (λ allowance e1.
            Ensures-bind (release hash spl at ctx.coin.registry.value allowance) _ P λ released e2.
              let (covered, rest) =
                release-eq-ok spl hash at ctx.coin.registry.value allowance released e2 in
              Ensures-ok P (
                releases key refl (record {
                  allowance = allowance;
                  found = parse_allowance-eq-ok spl hash at ctx key ctx.coin.registry.recipient e1;
                  enough = covered;
                  left = ap (λ x. put ctx.coin.registry.recipient x ctx.allowances) rest;
                })))
          allowances e

    -- What closes the other submission still stands when the winner is written.
    pub ClosesOther-kept :
        (bond : ℕ) (c1 c' : CoinAccounts) (payments : List Payment)
        → submission_of c' other_attempt ≡ submission_of c1 other_attempt
        → ClosesOther at serial other_attempt keys bond ctx.coin c1 payments
        → ClosesOther at serial other_attempt keys bond ctx.coin c' payments
    ClosesOther-kept bond c1 c' _ kept (leaves_other same) = leaves_other (kept ∙ same)
    ClosesOther-kept bond c1 c' _ kept (rejects_other other escrow found was given done) =
        rejects_other other escrow found was given (kept ∙ done)
