-- ===== src/Program/Handled/Started.antt =====
-- `start_check_in` of programs/obp-core/src/instructions/checkin.rs begins a submission.
use offline_bearer_protocol.Buffer.{Buffer, equals}
use offline_bearer_protocol.Buffer.Cuts.{equals_iff}
use offline_bearer_protocol.Prelude.{
  ℕ, ◌≤◌, ◌≡◌, ◌≢◌, refl, sym, ap, Option, none, some, arith, Ensures, Ensures-bind, Ensures-guard,
  Ensures-ok, guard-eq-ok, guard-eq_tt, leb, ltb, ◌==◌, leb→le, ==_iff, ok,
}
use offline_bearer_protocol.Program.Accounts.{MintRegistry}
use offline_bearer_protocol.Program.Append.Grows.{IsGenuine, SameCoin, IsGenuine-same}
use offline_bearer_protocol.Program.Backing.{pda_transfer-spares}
use offline_bearer_protocol.Program.Checks.{bond_amount, pda_transfer}
use offline_bearer_protocol.Program.Context.{Context, CoinAccounts, submission_of, put_submission}
use offline_bearer_protocol.Program.Dispute.Moves.{begins}
use offline_bearer_protocol.Program.Handled.{
  Handled, no_payment, put_submission-Writes, put_submission-rest,
}
use offline_bearer_protocol.Program.History
use offline_bearer_protocol.Program.Start.{
  absent, check_start, check_start_tokens, new_submission, start_check_in,
}
use offline_bearer_protocol.Program.State.{state_hash, parse_serial, parse_value}
use offline_bearer_protocol.Program.Status.{active, receiving}
use offline_bearer_protocol.Program.Tokens.{TokenProgram, Addresses, IsTokenProgram}
use offline_bearer_protocol.Program.Words.{add_word}

absent-eq-ok : {A : Type 0} (o : Option A) {done : Unit {0}} → absent o ≡ ok done → o ≡ none
unfolding absent
absent-eq-ok none e = refl
absent-eq-ok (some a) e = cc

module _ (hash : Buffer → Buffer) {Tokens : Type 0} (spl : TokenProgram Tokens)
    (at : Addresses) where
  check_start-anchored :
      (registry : MintRegistry) (serial : Buffer) (attempt : ℕ) (state_0 : Buffer) {done : Unit {0}}
      → check_start hash spl at registry serial attempt state_0 ≡ ok done
      → (attempt ≤ 1) × (state_hash hash state_0 ≡ registry.genesis_state_hash)
  unfolding check_start
  check_start-anchored registry serial attempt state_0 e =
      let (e1, f1) = guard-eq-ok (leb attempt 1) _ _ e in
      let (e2, f2) = guard-eq-ok (ltb registry.submissions_count 2) _ _ f1 in
      let (e3, f3) = guard-eq-ok (equals (parse_serial state_0) serial) _ _ f2 in
      let (e4, f4) = guard-eq-ok (parse_value state_0 == registry.value) _ _ f3 in
      (
        leb→le _ _ e1,
        (equals_iff _ _).0
            (guard-eq_tt (equals (state_hash hash state_0) registry.genesis_state_hash) _ f4),
      )

  -- A new submission holds the genesis state.
  new_submission-IsGenuine :
      (registry : MintRegistry) (serial : Buffer) (attempt : ℕ) (checker : Buffer) (slot : ℕ)
      (state_0 : Buffer) (bump : ℕ)
      → registry.serial ≡ serial
      → state_hash hash state_0 ≡ registry.genesis_state_hash
      → IsGenuine hash registry (new_submission serial attempt checker slot state_0 bump)
  unfolding new_submission
  new_submission-IsGenuine registry serial attempt checker slot state_0 bump here anchored =
      record {
        slots = refl;
        fits = omega arith;
        last = state_0;
        history = History.genesis state_0 anchored;
        owner = refl;
        counted = omega arith;
        serial = sym here;
      }

  new_submission-fields :
      (serial : Buffer) (attempt : ℕ) (checker : Buffer) (slot : ℕ) (state_0 : Buffer) (bump : ℕ)
      → ((new_submission serial attempt checker slot state_0 bump).attempt ≡ attempt)
        × ((new_submission serial attempt checker slot state_0 bump).status ≡ receiving)
  unfolding new_submission
  new_submission-fields serial attempt checker slot state_0 bump = (refl, refl)

  -- Where the registry is the one of its serial and the checker is not the vault, a check-in that
  -- starts writes one new submission, which holds the anchored genesis state, on a coin that is
  -- active and had none of that attempt, and takes nothing from the vault.
  pub start_check_in-Handled :
      IsTokenProgram spl
      → (serial : Buffer) (attempt : ℕ) (state_0 checker checker_token escrow : Buffer)
        (ctx : Context Tokens)
      → ctx.coin.registry.serial ≡ serial
      → checker ≢ at.vault_pda
      → Ensures
          (start_check_in hash spl at serial attempt state_0 checker checker_token escrow ctx)
          (Handled hash spl at ctx)
  unfolding start_check_in
  start_check_in-Handled law serial attempt state_0 checker checker_token escrow ctx here apart =
      Ensures-guard (leb ctx.config.sig_scheme 1) _ _ _ λ e1.
        Ensures-guard (ctx.coin.registry.status == active) _ _ _ λ e2.
          Ensures-bind (absent (submission_of ctx.coin attempt)) _ _ λ done e3.
            Ensures-bind
              (check_start_tokens hash spl at ctx serial attempt checker checker_token escrow) _ _
              λ done e4.
                Ensures-bind (check_start hash spl at ctx.coin.registry serial attempt state_0) _ _
                  λ done e5.
                    Ensures-bind (add_word 8 ctx.coin.registry.submissions_count 1) _ _ λ count e6.
                      Ensures-bind
                        (bond_amount ctx.coin.registry.value ctx.config.bond_multiplier_bps) _ _
                        λ bond e7.
                          Ensures-bind
                            (pda_transfer spl ctx.tokens checker_token escrow checker bond) _ _
                            λ tokens e8. Ensures-ok (Handled hash spl at ctx) (
                              let (le, anchored) =
                                check_start-anchored ctx.coin.registry serial attempt state_0 e5 in
                              let s =
                                new_submission serial attempt checker ctx.slot state_0
                                  (at.submission_bump serial attempt) in
                              let new =
                                new_submission-fields serial attempt checker ctx.slot state_0
                                  (at.submission_bump serial attempt) in
                              let put = put_submission ctx.coin attempt s in
                              let rest = put_submission-rest ctx.coin attempt s in
                              let coin : CoinAccounts = record put {
                                registry = record ctx.coin.registry { submissions_count = count };
                              } in
                              let same : SameCoin ctx.coin.registry coin.registry = record {
                                same_serial = refl;
                                same_value = refl;
                                same_genesis = refl;
                              } in
                              record {
                                bump = ctx.coin.head.bump;
                                moved =
                                    begins attempt s (absent-eq-ok _ e3) ((==_iff _ _).0 e2)
                                      (put_submission-Writes hash ctx.coin coin attempt s le refl
                                        refl same (λ h. new.0)
                                        (λ h.
                                          IsGenuine-same hash ctx.coin.registry coin.registry same s
                                            (new_submission-IsGenuine ctx.coin.registry serial
                                              attempt checker ctx.slot state_0 _ here anchored)))
                                      new.1
                                      (record {
                                        same_status = refl;
                                        same_set = ap (λ h. h.set) rest.1;
                                        same_attempt = ap (λ h. h.head_attempt) rest.1;
                                      });
                                amount = 0;
                                payment = no_payment refl refl;
                                loss =
                                    pda_transfer-spares spl at law ctx.tokens checker_token escrow
                                      checker bond apart tokens e8;
                                supply = omega arith;
                                same_mint = refl;
                                paid_to = λ live now. absurd (live now);
                              })
