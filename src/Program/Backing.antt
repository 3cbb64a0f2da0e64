-- ===== src/Program/Backing.antt =====
-- What the transfers of programs/obp-core take from the token accounts of its vault.
use offline_bearer_protocol.Buffer.{Buffer}
use offline_bearer_protocol.Prelude.{
  ℕ, ◌+◌, ◌≤◌, ◌≡◌, ◌≢◌, refl, sym, ap, subst, ◌∙◌, inl, inr, none, some, some_or-eq-ok, Ensures,
  arith,
}
use offline_bearer_protocol.Program.Checks.{pda_transfer}
use offline_bearer_protocol.Program.Tokens.{TokenProgram, TokenAccount, Addresses, IsTokenProgram}

-- An account that only the vault's own address can spend from.
pub record IsVault (at : Addresses) (a : TokenAccount) : Type 0 where
  pub owned : a.owner ≡ at.vault_pda
  pub undelegated : a.delegate ≡ none

module _ {Tokens : Type 0} (spl : TokenProgram Tokens) (at : Addresses) where
  -- No account of the vault loses more than `n`.
  abbrev pub LosesAtMost : ℕ → Tokens → Tokens → Type 0
  LosesAtMost n t t' =
      (key : Buffer) (a : TokenAccount)
      → spl.account t key ≡ some a
      → IsVault at a
      → (b : TokenAccount) × (spl.account t' key ≡ some b)
        × IsVault at b
        × (b.mint ≡ a.mint)
        × (a.amount ≤ b.amount + n)

  pub loses_nothing : (t : Tokens) → LosesAtMost 0 t t
  loses_nothing t key a e v = (a, e, v, refl, omega arith)

  pub loses_trans :
      (m n : ℕ) (t1 t2 t3 : Tokens)
      → LosesAtMost m t1 t2
      → LosesAtMost n t2 t3
      → LosesAtMost (m + n) t1 t3
  loses_trans m n t1 t2 t3 h k key a e v =
      let (b, f, w, s, le) = h key a e v in
      let (c, g, x, s', le') = k key b f w in (c, g, x, s' ∙ s, omega arith)

  -- Of three changes only one takes something.
  pub loses_last :
      (n : ℕ) (t1 t2 t3 t4 : Tokens)
      → LosesAtMost 0 t1 t2
      → LosesAtMost 0 t2 t3
      → LosesAtMost n t3 t4
      → LosesAtMost n t1 t4
  loses_last n t1 t2 t3 t4 f g h =
      let sum : 0 + 0 + n ≡ n = omega arith in
      subst (λ k. LosesAtMost k t1 t4) sum
        (loses_trans (0 + 0) n t1 t3 t4 (loses_trans 0 0 t1 t2 t3 f g) h)

  pub loses_middle :
      (n : ℕ) (t1 t2 t3 t4 : Tokens)
      → LosesAtMost 0 t1 t2
      → LosesAtMost n t2 t3
      → LosesAtMost 0 t3 t4
      → LosesAtMost n t1 t4
  loses_middle n t1 t2 t3 t4 f g h =
      let sum : 0 + n + 0 ≡ n = omega arith in
      subst (λ k. LosesAtMost k t1 t4) sum
        (loses_trans (0 + n) 0 t1 t3 t4 (loses_trans 0 n t1 t2 t3 f g) h)

  module _ (law : IsTokenProgram spl) (t : Tokens) (source target authority : Buffer)
      (amount : ℕ) where
    pub pda_transfer-loses :
        Ensures (pda_transfer spl t source target authority amount) (LosesAtMost amount t)
    unfolding pda_transfer
    pda_transfer-loses t' e key a f v =
        let (b, g, m) =
          law.moves t t' source target authority amount key a (some_or-eq-ok _ _ e) f in
        (
          b,
          g,
          record { owned = m.same_owner ∙ v.owned; undelegated = m.no_delegate v.undelegated },
          m.same_mint,
          m.takes_at_most,
        )

    -- Only the vault's own address takes from its accounts.
    pub pda_transfer-spares :
        authority ≢ at.vault_pda
        → Ensures (pda_transfer spl t source target authority amount) (LosesAtMost 0 t)
    unfolding pda_transfer
    pda_transfer-spares other t' e key a f v =
        let h = some_or-eq-ok _ _ e in
        let (b, g, m) = law.moves t t' source target authority amount key a h f in
        let (s, at_source, enough, allowed) =
          law.authorized t t' source target authority amount h in
        let apart : key ≢ source = λ same.
          let same_account : a ≡ s = account_at same f at_source in
          elim allowed [
            | inl owner ↦
                other (sym owner ∙ ap (λ (x : TokenAccount). x.owner) (sym same_account) ∙ v.owned)
            | inr delegate ↦
                no_delegate (
                  sym v.undelegated ∙ ap (λ (x : TokenAccount). x.delegate) same_account ∙ delegate)
          ] in
        let le = m.takes_from_source apart in
        (
          b,
          g,
          record { owned = m.same_owner ∙ v.owned; undelegated = m.no_delegate v.undelegated },
          m.same_mint,
          omega arith,
        )
      where
        account_at :
            {k l : Buffer} {x y : TokenAccount}
            → k ≡ l
            → spl.account t k ≡ some x
            → spl.account t l ≡ some y
            → x ≡ y
        account_at h e f = cc

        no_delegate : {b : Buffer} → none ≡ some b → ⊥
        no_delegate h = cc
