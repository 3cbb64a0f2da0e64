-- ===== src/Program/Handled/Decision.antt =====
-- The branches of `finalize_check_in` in programs/obp-core/src/instructions/checkin.rs.
use offline_bearer_protocol.Buffer.{Buffer, equals}
use offline_bearer_protocol.Prelude.{
  ℕ, ◌≡◌, Option, ◌≢◌, refl, ap, ◌∙◌, true, false, some, arith, Ensures, Ensures-bind,
  Ensures-guard, Ensures-ok,
}
use offline_bearer_protocol.Program.Accounts.{MintRegistry, Submission}
use offline_bearer_protocol.Program.Backing.{loses_nothing, pda_transfer-spares}
use offline_bearer_protocol.Program.Checks.{
  bond_amount, pda_transfer, last_state, parse_submission, tok_of,
}
use offline_bearer_protocol.Program.Context.{
  Context, submission_of, put_submission, required_account,
}
use offline_bearer_protocol.Program.Dispute.Moves.{accepts, refuses, upholds}
use offline_bearer_protocol.Program.Finalize.{
  FinalizeKeys, head_of, fin_reject_spent, fin_set_head, fin_resolve_lose,
}
use offline_bearer_protocol.Program.Handled.{
  Handled, parse_submission-eq-ok, put_submission-IsPayment, closed-Writes, put_submission-rest,
  put_submission-SameCoin, unchanged_head, put_submission-spends_nothing,
}
use offline_bearer_protocol.Program.Finalize.Wins.{Beats}
use offline_bearer_protocol.Program.Outcome.{
  pays_none, HoldsHead, head_held_by, FinalizeOutcome, refused, accepted, upheld,
}
use offline_bearer_protocol.Program.Outcome.Paid.{pda_transfer-Pays, tok_of-owner_at}
use offline_bearer_protocol.Program.Status.{spent, receiving, pending, rejected, lost}
use offline_bearer_protocol.Program.Tokens.{TokenProgram, Addresses, IsTokenProgram}

-- What a finalized submission was, what becomes of it, and what it means for the coin.
pub record Decision {Tokens : Type 0} (hash : Buffer → Buffer) (spl : TokenProgram Tokens)
    (at : Addresses) (serial : Buffer) (attempt other_attempt : ℕ) (keys : FinalizeKeys)
    (ctx ctx' : Context Tokens) : Type 0 where
  pub sub : Submission
  pub stored : submission_of ctx.coin attempt ≡ some sub
  pub was_receiving : sub.status ≡ receiving
  pub outcome : FinalizeOutcome spl at serial attempt other_attempt keys sub ctx ctx'
  pub handled : Handled hash spl at ctx ctx'

same_some : {A : Type 0} {o : Option A} {a b : A} → o ≡ some a → o ≡ some b → a ≡ b
same_some e f = cc

module _ (hash : Buffer → Buffer) {Tokens : Type 0} (spl : TokenProgram Tokens) (at : Addresses)
    (law : IsTokenProgram spl)
    (apart : (serial : Buffer) (attempt : ℕ) → at.sub_pda serial attempt ≢ at.vault_pda) where
  module _ (serial : Buffer) (attempt other_attempt : ℕ) (keys : FinalizeKeys) (sub : Submission)
      (ctx : Context Tokens) (stored : submission_of ctx.coin attempt ≡ some sub)
      (still : sub.status ≡ receiving) where
    pub fin_reject_spent-Decision :
        ctx.coin.registry.status ≡ spent
        → Ensures
            (fin_reject_spent hash spl at serial attempt keys sub ctx)
            (Decision hash spl at serial attempt other_attempt keys ctx)
    unfolding fin_reject_spent
    fin_reject_spent-Decision is_spent =
        Ensures-bind (bond_amount ctx.coin.registry.value ctx.config.bond_multiplier_bps) _ _
          λ bond e1.
            Ensures-bind
              (pda_transfer spl ctx.tokens keys.escrow keys.fee_sink (at.sub_pda serial attempt)
                bond)
              _ _
              λ tokens e2. Ensures-ok (Decision hash spl at serial attempt other_attempt keys ctx) (
                let done = record sub { status = rejected; finalized_slot = ctx.slot } in
                let coin = put_submission ctx.coin attempt done in
                let written =
                  closed-Writes hash ctx.coin coin attempt sub rejected ctx.slot stored refl refl
                    (put_submission-SameCoin ctx.coin attempt done) in
                let (same_registry, same_head) = put_submission-rest ctx.coin attempt done in
                record {
                  sub = sub;
                  stored = stored;
                  was_receiving = still;
                  outcome =
                      refused bond is_spent e1
                        (record { stored = written.stored; kept = written.kept }) same_head
                        (record {
                          same_registry = same_registry;
                          same_config = refl;
                          same_allowances = refl;
                        })
                        (pda_transfer-Pays spl ctx.tokens _ _ _ bond e2);
                  handled = record {
                    bump = ctx.coin.head.bump;
                    paid_to = λ live now. absurd (live is_spent);
                    moved =
                        refuses attempt done (sub, stored, still) is_spent written refl
                          (unchanged_head ctx.coin attempt done);
                    amount = 0;
                    payment = put_submission-IsPayment ctx.coin attempt done;
                    loss =
                        pda_transfer-spares spl at law ctx.tokens _ _ _ bond (apart serial attempt)
                          tokens e2;
                    supply = omega arith;
                    same_mint = refl;
                  };
                })

    pub fin_set_head-Decision :
        ctx.coin.registry.status ≢ spent
        → ctx.coin.head.set ≡ false
        → sub.attempt ≡ attempt
        → Ensures
            (fin_set_head hash spl at attempt sub ctx)
            (Decision hash spl at serial attempt other_attempt keys ctx)
    unfolding fin_set_head head_of
    fin_set_head-Decision live unset here = Ensures-bind (last_state sub) _ _ λ last e1.
        Ensures-ok (Decision hash spl at serial attempt other_attempt keys ctx) (
          let done = record sub { status = pending; finalized_slot = ctx.slot } in
          let put = put_submission ctx.coin attempt done in
          let (same_registry, same_head) = put_submission-rest ctx.coin attempt done in
          let coin = record put {
            head = record (head_of ctx.coin.head sub last ctx.slot) { set = true };
          } in
          let written =
            closed-Writes hash ctx.coin coin attempt sub pending ctx.slot stored refl refl
              (put_submission-SameCoin ctx.coin attempt done) in
          record {
            sub = sub;
            stored = stored;
            was_receiving = still;
            outcome =
                accepted last live unset e1
                  (record { stored = written.stored; kept = written.kept })
                  (ap (λ a. head_held_by ctx.coin.head a sub last ctx.slot) here)
                  (record {
                    same_registry = same_registry;
                    same_config = refl;
                    same_allowances = refl;
                  })
                  (pays_none ctx.tokens);
            handled = record {
              bump = ctx.coin.head.bump;
              paid_to =
                  λ live now. absurd (put_submission-spends_nothing ctx.coin attempt done live now);
              moved =
                  accepts attempt done (sub, stored, still) live unset written refl
                    (record {
                      has_status = ap (λ (r : MintRegistry). r.status) same_registry;
                      is_set = refl;
                      at_attempt = here;
                    });
              amount = 0;
              payment = put_submission-IsPayment ctx.coin attempt done;
              loss = loses_nothing spl at ctx.tokens;
              supply = omega arith;
              same_mint = refl;
            };
          })

    pub fin_resolve_lose-Decision :
        (other : Submission)
        → ctx.coin.registry.status ≢ spent
        → HoldsHead ctx.coin other_attempt other
        → ¬ (Beats ctx.coin.head sub)
        → Ensures
            (fin_resolve_lose hash spl at serial attempt other_attempt keys sub ctx)
            (Decision hash spl at serial attempt other_attempt keys ctx)
    unfolding fin_resolve_lose
    fin_resolve_lose-Decision held_by live holds beaten =
        Ensures-bind (required_account keys.other_submission) _ _ λ other_key e1.
          Ensures-bind (parse_submission spl at ctx.coin other_key serial other_attempt) _ _
            λ other e2. Ensures-bind (required_account keys.other_checker_token) _ _ λ token e3.
              Ensures-bind (tok_of spl ctx.tokens token) _ _ λ tok e4.
                Ensures-guard (equals tok.owner other.checker) _ _ _ λ e5.
                  Ensures-bind (bond_amount ctx.coin.registry.value ctx.config.bond_multiplier_bps)
                    _ _
                    λ bond e6.
                      Ensures-bind
                        (pda_transfer spl ctx.tokens keys.escrow token (at.sub_pda serial attempt)
                          bond)
                        _ _
                        λ tokens e7.
                          Ensures-ok (Decision hash spl at serial attempt other_attempt keys ctx) (
                            let done = record sub { status = lost; finalized_slot = ctx.slot } in
                            let coin = put_submission ctx.coin attempt done in
                            let written =
                              closed-Writes hash ctx.coin coin attempt sub lost ctx.slot stored refl
                                refl (put_submission-SameCoin ctx.coin attempt done) in
                            let (same_registry, same_head) =
                              put_submission-rest ctx.coin attempt done in
                            let same =
                              same_some
                                (parse_submission-eq-ok spl at ctx.coin other_key serial
                                  other_attempt e2)
                                holds.stored in
                            record {
                              sub = sub;
                              stored = stored;
                              was_receiving = still;
                              outcome =
                                  upheld held_by bond token live holds beaten e6
                                    (tok_of-owner_at spl ctx.tokens token other.checker e4 e5
                                      ∙ ap (λ (x : Submission). x.checker) same)
                                    (record { stored = written.stored; kept = written.kept })
                                    same_head
                                    (record {
                                      same_registry = same_registry;
                                      same_config = refl;
                                      same_allowances = refl;
                                    })
                                    (pda_transfer-Pays spl ctx.tokens _ _ _ bond e7);
                              handled = record {
                                bump = ctx.coin.head.bump;
                                paid_to = λ live now.
                                    absurd (
                                      put_submission-spends_nothing ctx.coin attempt done live now);
                                moved =
                                    upholds attempt done (sub, stored, still) live holds.is_set
                                      written refl (unchanged_head ctx.coin attempt done);
                                amount = 0;
                                payment = put_submission-IsPayment ctx.coin attempt done;
                                loss =
                                    pda_transfer-spares spl at law ctx.tokens _ _ _ bond
                                      (apart serial attempt) tokens e7;
                                supply = omega arith;
                                same_mint = refl;
                              };
                            })
