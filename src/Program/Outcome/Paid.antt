-- ===== src/Program/Outcome/Paid.antt =====
-- What the transfers, the tests of token accounts and `release` of
-- programs/obp-core/src/instructions/checkin.rs say where they succeed.
use offline_bearer_protocol.Buffer.{Buffer, equals}
use offline_bearer_protocol.Buffer.Cuts.{equals_iff}
use offline_bearer_protocol.Prelude.{
  ℕ, ◌-◌, ◌≤◌, ◌≡◌, refl, ap, ◌∙◌, [], ◌∷◌, some, ok, true, guard-eq-ok, guard-eq_tt, some_or,
  some_or-eq-ok, Ensures, Ensures-bind, Ensures-guard, Ensures-ok, leb, length,
}
use offline_bearer_protocol.Program.Accounts.{Allowance}
use offline_bearer_protocol.Program.Checks.{
  Tok, pda_transfer, tok_of, check_tok, check_owner, parse_allowance,
}
use offline_bearer_protocol.Program.Context.{
  Context, Remaining, missing, program_id, account, required_account,
}
use offline_bearer_protocol.Program.Finalize.{release}
use offline_bearer_protocol.Program.Outcome.{Pays, pays_none, pays_first, owner_at}
use offline_bearer_protocol.Program.Tokens.{TokenProgram, Addresses}
use offline_bearer_protocol.Program.Words.{checked_sub, checked_sub-eq-some}

pub required_account-eq-ok :
    (r : Remaining) {key : Buffer} → required_account r ≡ ok key → r ≡ account key
unfolding required_account
required_account-eq-ok missing e = cc
required_account-eq-ok program_id e = cc
required_account-eq-ok (account k) e = cc

module _ {Tokens : Type 0} (spl : TokenProgram Tokens) where
  pub pda_transfer-eq-ok :
      (t : Tokens) (source target authority : Buffer) (amount : ℕ) {t' : Tokens}
      → pda_transfer spl t source target authority amount ≡ ok t'
      → spl.transfer t source target authority amount ≡ some t'
  unfolding pda_transfer
  pda_transfer-eq-ok t source target authority amount e = some_or-eq-ok _ _ e

  pub pda_transfer-Pays :
      (t : Tokens) (source target authority : Buffer) (amount : ℕ) {t' : Tokens}
      → pda_transfer spl t source target authority amount ≡ ok t'
      → Pays spl t
          (record { source = source; target = target; authority = authority; amount = amount } ∷ [])
          t'
  pda_transfer-Pays t source target authority amount {t'} e =
      pays_first _ [] t t' t' (pda_transfer-eq-ok t source target authority amount e) (pays_none t')

  tok_of-owner :
      (t : Tokens) (key : Buffer)
      → Ensures (tok_of spl t key) (λ (x : Tok). owner_at spl t key ≡ x.owner)
  unfolding tok_of
  tok_of-owner t key =
      Ensures-guard (leb 165 (length (spl.info t key).content)) _ _ _
        λ e. Ensures-ok (λ (x : Tok). owner_at spl t key ≡ x.owner) refl

  pub tok_of-owner_at :
      (t : Tokens) (key owner : Buffer) {tok : Tok}
      → tok_of spl t key ≡ ok tok
      → equals tok.owner owner ≡ true
      → owner_at spl t key ≡ owner
  tok_of-owner_at t key owner {tok} e f =
      tok_of-owner t key tok e ∙ (equals_iff tok.owner owner).0 f

  pub check_tok-owner_at :
      (t : Tokens) (key mint owner : Buffer)
      → check_tok spl t key mint (some owner) ≡ ok tt
      → owner_at spl t key ≡ owner
  unfolding check_tok check_owner
  check_tok-owner_at t key mint owner =
      Ensures-guard (equals (spl.info t key).program spl.id) _ _ (λ _. owner_at spl t key ≡ owner)
        (λ e1.
          Ensures-bind (tok_of spl t key) _ (λ _. owner_at spl t key ≡ owner)
            λ tok e2.
              Ensures-guard (equals tok.mint mint) _ _ (λ _. owner_at spl t key ≡ owner)
                λ e3 done e4.
                  tok_of-owner_at t key owner e2 (guard-eq_tt (equals tok.owner owner) _ e4))
        tt

  module _ (hash : Buffer → Buffer) (at : Addresses) where
    pub parse_allowance-eq-ok :
        (ctx : Context Tokens) (key recipient : Buffer) {a : Allowance}
        → parse_allowance spl at ctx key recipient ≡ ok a
        → ctx.allowances recipient ≡ some a
    unfolding parse_allowance
    parse_allowance-eq-ok ctx key recipient e =
        some_or-eq-ok _ _ (guard-eq-ok (equals key (at.allowance_pda recipient)) _ _ e).1

    pub release-eq-ok :
        (value : ℕ) (a : Allowance)
        → Ensures (release hash spl at value a) (λ released.
          (value ≤ a.committed) × (released ≡ record a { committed = a.committed - value }))
    unfolding release
    release-eq-ok value a =
        Ensures-bind (some_or (checked_sub a.committed value) _) _
          (λ released.
            (value ≤ a.committed) × (released ≡ record a { committed = a.committed - value }))
          λ committed e.
            (let (enough, less) = checked_sub-eq-some a.committed value (some_or-eq-ok _ _ e) in
              Ensures-ok
                (λ released.
                  (value ≤ a.committed) × (released ≡ record a { committed = a.committed - value }))
                (enough, ap (λ n. record a { committed = n }) less))
