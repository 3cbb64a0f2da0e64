-- ===== src/Program/Vault/Closed.antt =====
-- Which withdrawals programs/obp-core/src/instructions/vault.rs lets through.
use offline_bearer_protocol.Buffer.{Buffer, equals}
use offline_bearer_protocol.Buffer.Cuts.{equals_iff}
use offline_bearer_protocol.Prelude.{
  ℕ, ◌≡◌, ◌≢◌, sym, ap, ◌∙◌, Option, none, some, ◌&&◌, ok, leb, Ensures-bind, Ensures-guard,
  some_or, some_or-eq-ok, guard-eq-ok, >>=-eq-ok, &&-true, inl, inr, ok-injective,
}
use offline_bearer_protocol.Program.Checks.{pda_transfer}
use offline_bearer_protocol.Program.Errors.{Failure}
use offline_bearer_protocol.Program.Mint.{World}
use offline_bearer_protocol.Program.Tokens.{TokenProgram, TokenAccount, Addresses}
use offline_bearer_protocol.Program.Vault.{owned_account, withdraw_vault}
use offline_bearer_protocol.Program.Words.{add_word}
use offline_bearer_protocol.Program.World.Always.{IsSetting}

module _ {Tokens : Type 0} (spl : TokenProgram Tokens) (at : Addresses)
    (setting : IsSetting spl at) where
  owned_account-eq-ok :
      (w : World Tokens) (key owner : Buffer) {a : TokenAccount}
      → owned_account spl at w key owner ≡ ok a
      → (spl.account w.tokens key ≡ some a) × (a.owner ≡ owner)
  unfolding owned_account
  owned_account-eq-ok w key owner e =
      let (b, e1, f1) = >>=-eq-ok (some_or (spl.account w.tokens key) _) _ e in
      let (e2, f2) =
        guard-eq-ok (equals b.mint w.config.vault_mint && equals b.owner owner) _ _ f1 in
      let same = ok-injective {E = Failure} f2 in
      (
        some_or-eq-ok _ _ e1 ∙ ap some same,
        ap (λ (x : TokenAccount). x.owner) (sym same) ∙ (equals_iff _ _).0 (&&-true _ _ e2).1,
      )

  -- Where the token program keeps its laws and the vault approves no delegate, no withdrawal from the
  -- vault that someone else signs succeeds: the transfer is signed by the mint authority, who is not
  -- the owner of the vault's account, which has no delegate.
  pub withdraw_vault-always_fails :
      (signer source vault : Buffer) (amount : ℕ) (w w' : World Tokens)
      → signer ≢ at.vault_pda
      → withdraw_vault spl at signer source vault amount w ≢ ok w'
  unfolding withdraw_vault pda_transfer
  withdraw_vault-always_fails signer source vault amount w w' away e =
      Ensures-guard (equals signer w.config.mint_authority) _ _ (λ _. ⊥)
        (λ _.
          Ensures-bind (owned_account spl at w source at.vault_pda) _ (λ _. ⊥)
            λ from e2.
              Ensures-bind (owned_account spl at w vault signer) _ (λ _. ⊥)
                λ target _.
                  Ensures-bind (add_word 64 w.config.total_unspent_supply amount) _ (λ _. ⊥)
                    λ kept _.
                      Ensures-guard (leb kept from.amount) _ _ (λ _. ⊥)
                        λ _.
                          Ensures-bind (pda_transfer spl w.tokens source vault signer amount) _
                            (λ _. ⊥)
                            λ tokens e6 _ _.
                              let (at_source, owned) =
                                owned_account-eq-ok w source at.vault_pda e2 in
                              let (a, at_source', enough, allowed) =
                                setting.law.authorized w.tokens tokens source vault signer amount
                                  (some_or-eq-ok _ _ e6) in
                              let same = same_some at_source at_source' in
                              elim allowed [
                                | inl owner ↦ away (
                                    sym owner
                                    ∙ ap (λ (x : TokenAccount). x.owner) (sym same)
                                    ∙ owned)
                                | inr delegate ↦ no_delegate (
                                    sym (setting.undelegated w.tokens source from at_source owned)
                                    ∙ ap (λ (x : TokenAccount). x.delegate) same
                                    ∙ delegate)
                              ])
        w' e
    where
      same_some : {o : Option TokenAccount} {a b : TokenAccount} → o ≡ some a → o ≡ some b → a ≡ b
      same_some h k = cc

      no_delegate : {b : Buffer} → none ≡ some b → ⊥
      no_delegate h = cc
