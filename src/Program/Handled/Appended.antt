-- ===== src/Program/Handled/Appended.antt =====
-- `append_links` of programs/obp-core/src/instructions/checkin.rs extends a submission.
use offline_bearer_protocol.Buffer.{Buffer}
use offline_bearer_protocol.Instructions.Append.{Link}
use offline_bearer_protocol.Prelude.{
  List, ℕ, refl, sym, subst, ◌∙◌, arith, Ensures, Ensures-bind, Ensures-guard, Ensures-ok, some_or,
  some_or-eq-ok, leb, ◌==◌, ==_iff,
}
use offline_bearer_protocol.Program.Accounts.{MintRegistry}
use offline_bearer_protocol.Program.Append.{extend, append_links}
use offline_bearer_protocol.Program.Append.Grows.{IsGenuine, extend-Grown}
use offline_bearer_protocol.Program.Backing.{loses_nothing}
use offline_bearer_protocol.Program.Context.{Context, submission_of, put_submission}
use offline_bearer_protocol.Program.Dispute.Moves.{grows, submission_of-le}
use offline_bearer_protocol.Program.Handled.{
  Handled, put_submission-IsPayment, put_submission-spends_nothing, put_submission-Writes,
  put_submission-rest, put_submission-SameCoin, unchanged_head,
}
use offline_bearer_protocol.Program.Status.{receiving}
use offline_bearer_protocol.Program.Tokens.{TokenProgram, Addresses}

module _ (hash : Buffer → Buffer) {Tokens : Type 0} (spl : TokenProgram Tokens)
    (at : Addresses) where
  -- Links that are appended extend the genuine chain of one submission that receives links, and
  -- change nothing else.
  pub append_links-Handled :
      (serial : Buffer) (attempt : ℕ) (head_owner : Buffer) (links : List Link) (last_hash : Buffer)
      (ctx : Context Tokens)
      → Ensures
          (append_links hash serial attempt head_owner links last_hash ctx)
          (Handled hash spl at ctx)
  unfolding append_links
  append_links-Handled serial attempt head_owner links last_hash ctx =
      Ensures-guard (leb ctx.config.sig_scheme 1) _ _ _ λ e1.
        Ensures-bind (some_or (submission_of ctx.coin attempt) _) _ _ λ sub e2.
          Ensures-guard (sub.status == receiving) _ _ _ λ e3.
            Ensures-bind
              (extend hash ctx.config.sig_scheme ctx.config.max_links_per_tx ctx.coin.registry
                serial head_owner links last_hash sub)
              _ _
              λ longer e4. Ensures-ok (Handled hash spl at ctx) (
                let stored = some_or-eq-ok (submission_of ctx.coin attempt) _ e2 in
                let open_before = (==_iff _ _).0 e3 in
                let grown =
                  extend-Grown hash ctx.coin.registry ctx.config.sig_scheme
                    ctx.config.max_links_per_tx serial head_owner links last_hash sub longer e4 in
                let coin = put_submission ctx.coin attempt longer in
                let (same_registry, same_head) = put_submission-rest ctx.coin attempt longer in
                record {
                  bump = ctx.coin.head.bump;
                  moved =
                      grows attempt longer (sub, stored, open_before)
                        (put_submission-Writes hash ctx.coin coin attempt longer
                          (submission_of-le ctx.coin attempt sub stored) refl refl
                          (put_submission-SameCoin ctx.coin attempt longer)
                          (λ h. grown.same_attempt ∙ h.attempts attempt sub stored)
                          (λ h.
                            subst (λ (r : MintRegistry). IsGenuine hash r longer)
                              (sym same_registry) (grown.genuine (h.genuine attempt sub stored))))
                        (grown.same_status ∙ open_before) (unchanged_head ctx.coin attempt longer);
                  amount = 0;
                  payment = put_submission-IsPayment ctx.coin attempt longer;
                  loss = loses_nothing spl at ctx.tokens;
                  supply = omega arith;
                  same_mint = refl;
                  paid_to = λ live now.
                      absurd (put_submission-spends_nothing ctx.coin attempt longer live now);
                })
