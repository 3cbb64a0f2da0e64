-- ===== src/Program/Handled/Decided.antt =====
-- `finalize_check_in` of programs/obp-core/src/instructions/checkin.rs decides on a submission.
use offline_bearer_protocol.Buffer.{Buffer, equals}
use offline_bearer_protocol.Prelude.{
  ℕ, ◌≡◌, ◌≢◌, sym, ◌∙◌, Bool, true, false, some, arith, Ensures, Ensures-bind, Ensures-guard,
  Ensures-if, some_or, some_or-eq-ok, leb, ◌==◌, ==_iff,
}
use offline_bearer_protocol.Program.Accounts.{Submission}
use offline_bearer_protocol.Program.Checks.{verify_full_chain, parse_submission}
use offline_bearer_protocol.Program.Context.{Context, submission_of, required_account}
use offline_bearer_protocol.Program.Dispute.{IsStored}
use offline_bearer_protocol.Program.Finalize.{
  FinalizeKeys, i_win, fin_resolve, check_finalize_tokens, decide, finalize_check_in,
}
use offline_bearer_protocol.Program.Handled.{Handled, rebump, parse_submission-eq-ok}
use offline_bearer_protocol.Program.Finalize.Wins.{i_win-Beats_iff}
use offline_bearer_protocol.Program.Handled.Decision.{
  Decision, fin_reject_spent-Decision, fin_set_head-Decision, fin_resolve_lose-Decision,
}
use offline_bearer_protocol.Program.Handled.Winning.{fin_resolve_win-Decision}
use offline_bearer_protocol.Program.Outcome.{HoldsHead}
use offline_bearer_protocol.Program.Status.{spent, receiving, pending}
use offline_bearer_protocol.Program.Tokens.{TokenProgram, Addresses, IsTokenProgram}
use offline_bearer_protocol.Program.Words.{sub_word, sub_word-eq-ok}

true≢false : {b : Bool} → b ≡ true → b ≡ false → ⊥
true≢false e f = cc

module _ (hash : Buffer → Buffer) {Tokens : Type 0} (spl : TokenProgram Tokens) (at : Addresses)
    (law : IsTokenProgram spl)
    (apart : (serial : Buffer) (attempt : ℕ) → at.sub_pda serial attempt ≢ at.vault_pda) where
  module _ (serial : Buffer) (attempt other_attempt : ℕ) (keys : FinalizeKeys) (sub : Submission)
      (ctx : Context Tokens) (stored : submission_of ctx.coin attempt ≡ some sub)
      (still : sub.status ≡ receiving) where
    module _ (two : attempt ≢ other_attempt) (h : IsStored hash ctx.coin) where
      fin_resolve-Decision :
          ctx.coin.registry.status ≢ spent
          → ctx.coin.head.set ≡ true
          → sub.attempt ≡ attempt
          → Ensures
              (fin_resolve hash spl at serial attempt other_attempt keys sub ctx)
              (Decision hash spl at serial attempt other_attempt keys ctx)
      unfolding fin_resolve
      fin_resolve-Decision live set here =
          Ensures-bind (required_account keys.other_submission) _ _ λ other_key e1.
            Ensures-bind (parse_submission spl at ctx.coin other_key serial other_attempt) _ _
              λ other e2. Ensures-guard (other.attempt == ctx.coin.head.head_attempt) _ _ _ λ e3.
                Ensures-guard (other.status == pending) _ _ _ λ e4.
                  let at_other =
                    parse_submission-eq-ok spl at ctx.coin other_key serial other_attempt e2 in
                  let head = sym ((==_iff _ _).0 e3) ∙ h.attempts other_attempt other at_other in
                  let holds : HoldsHead ctx.coin other_attempt other = record {
                    is_set = set;
                    at_attempt = head;
                    stored = at_other;
                    is_pending = (==_iff _ _).0 e4;
                  } in
                  Ensures-if (i_win ctx.coin.head sub) _ _ _
                    (λ wins.
                      fin_resolve_win-Decision hash spl at law apart serial attempt other_attempt
                        keys sub ctx stored still other holds
                        ((i_win-Beats_iff ctx.coin.head sub).0 wins) two live here)
                    (λ loses.
                      fin_resolve_lose-Decision hash spl at law apart serial attempt other_attempt
                        keys sub ctx stored still other live holds
                        (λ beats. true≢false ((i_win-Beats_iff ctx.coin.head sub).1 beats) loses))

      decide-Decision :
          sub.attempt ≡ attempt
          → Ensures
              (decide hash spl at serial attempt other_attempt keys sub ctx)
              (Decision hash spl at serial attempt other_attempt keys ctx)
      unfolding decide
      decide-Decision here =
          Ensures-if (ctx.coin.registry.status == spent) _ _ _
            (λ e.
              fin_reject_spent-Decision hash spl at law apart serial attempt other_attempt keys sub
                ctx stored still ((==_iff _ _).0 e))
            (λ e.
              let live : ctx.coin.registry.status ≢ spent = λ f. true≢false ((==_iff _ _).1 f) e in
              Ensures-if ctx.coin.head.set _ _ _ (λ set. fin_resolve-Decision live set here)
                (λ unset.
                  fin_set_head-Decision hash spl at law apart serial attempt other_attempt keys sub
                    ctx stored still live unset here))

  pub finalize_check_in-Decision :
      (serial : Buffer) (attempt other_attempt : ℕ) (recipient : Buffer) (keys : FinalizeKeys)
      (ctx : Context Tokens)
      → IsStored hash ctx.coin
      → Ensures (finalize_check_in hash spl at serial attempt other_attempt recipient keys ctx) (
          Decision hash spl at serial attempt other_attempt keys
            (record ctx { coin = rebump ctx.coin (at.head_bump serial) }))
  unfolding finalize_check_in submission_of
  finalize_check_in-Decision serial attempt other_attempt recipient keys ctx h =
      Ensures-guard (leb ctx.config.sig_scheme 1) _ _ _ λ e1.
        Ensures-bind (some_or (submission_of ctx.coin attempt) _) _ _ λ sub e2.
          Ensures-guard (sub.status == receiving) _ _ _ λ e3.
            Ensures-guard (equals serial sub.serial) _ _ _ λ e4.
              Ensures-guard (equals recipient ctx.coin.registry.recipient) _ _ _ λ e5.
                Ensures-bind (sub_word 1 sub.attempt) _ _ λ expected e6.
                  Ensures-guard (other_attempt == expected) _ _ _ λ e7.
                    Ensures-guard (sub.attempt == attempt) _ _ _ λ e8.
                      Ensures-bind (check_finalize_tokens hash spl at serial attempt keys sub ctx) _
                        _
                        λ done e9.
                          Ensures-bind (verify_full_chain hash sub ctx.coin.registry) _ _
                            λ done e10 ctx' e11.
                              let bumped : Context Tokens = record ctx {
                                coin = rebump ctx.coin (at.head_bump serial);
                              } in
                              let stored : submission_of bumped.coin attempt ≡ some sub =
                                some_or-eq-ok (submission_of ctx.coin attempt) _ e2 in
                              let here = (==_iff _ _).0 e8 in
                              let (small, flipped) = sub_word-eq-ok 1 sub.attempt e6 in
                              let named = (==_iff other_attempt expected).0 e7 in
                              let two : attempt ≢ other_attempt = λ same. absurd (omega arith) in
                              let h' : IsStored hash bumped.coin = record {
                                attempts = h.attempts;
                                genuine = h.genuine;
                              } in
                              decide-Decision serial attempt other_attempt keys sub bumped stored
                                ((==_iff _ _).0 e3) two h' here ctx' e11

  pub finalize_check_in-Handled :
      (serial : Buffer) (attempt other_attempt : ℕ) (recipient : Buffer) (keys : FinalizeKeys)
      (ctx : Context Tokens)
      → IsStored hash ctx.coin
      → Ensures
          (finalize_check_in hash spl at serial attempt other_attempt recipient keys ctx)
          (Handled hash spl at ctx)
  finalize_check_in-Handled serial attempt other_attempt recipient keys ctx h ctx' e =
      let d =
        (finalize_check_in-Decision serial attempt other_attempt recipient keys ctx h ctx'
          e).handled in
      record {
        bump = d.bump;
        moved = d.moved;
        amount = d.amount;
        payment = d.payment;
        loss = d.loss;
        paid_to = λ live now.
            let p = d.paid_to live now in
            record {
              attempt = p.attempt;
              winner = p.winner;
              stored = p.stored;
              is_won = p.is_won;
              coin_vault = p.coin_vault;
              winner_token = p.winner_token;
              earlier = p.earlier;
              between = p.between;
              later = p.later;
              paid_out = record {
                checked = p.paid_out.checked;
                before = p.paid_out.before;
                after = p.paid_out.after;
                paid_earlier = p.paid_out.paid_earlier;
                owned = p.paid_out.owned;
                paid_between = p.paid_out.paid_between;
                transferred = p.paid_out.transferred;
                paid_later = p.paid_out.paid_later;
                has_registry = p.paid_out.has_registry;
                supply = p.paid_out.supply;
                same_config = p.paid_out.same_config;
              };
            };
        same_mint = d.same_mint;
        supply = d.supply;
      }
