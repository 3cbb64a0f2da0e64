-- ===== src/Tests/Ledger.antt =====
-- Test data for the program: a token program over a table of accounts, without delegates.
use offline_bearer_protocol.Buffer.{Buffer, equals, le_bytes}
use offline_bearer_protocol.Buffer.Cuts.{equals_iff}
use offline_bearer_protocol.Prelude.{
  ℕ, suc, ◌+◌, ◌-◌, ◌≤◌, ◌≡◌, ◌≢◌, refl, sym, ap, subst, ◌∙◌, ◌∷◌, ◌++◌, inl, inr, Option, none,
  some, Bool, true, false, Bool-cases, ◌&&◌, &&-true, leb, leb→le, if◌then◌else◌, if-eq-some,
  replicate, arith,
}
use offline_bearer_protocol.Program.Checks.{Tok}
use offline_bearer_protocol.Program.Tokens.{
  TokenProgram, TokenAccount, Addresses, IsTokenProgram, Moves,
}
use offline_bearer_protocol.Program.World.Always.{IsSetting}

abbrev pub Table : Type 0
Table = Buffer → Option Tok

abbrev shown : Option Tok → Option TokenAccount
shown none = none
shown (some x) =
    some (record { mint = x.mint; owner = x.owner; amount = x.amount; delegate = none })

abbrev content_of : Option Tok → Buffer
content_of none = replicate 0 0
content_of (some x) = x.mint ++ (x.owner ++ (le_bytes 8 x.amount ++ replicate 93 0))

-- What an account has after `n` tokens went from one key to another.
abbrev moved : Bool → Bool → ℕ → Option Tok → Option Tok
moved from to n none = none
moved from to n (some x) =
    some (record x { amount = (if from then x.amount - n else x.amount) + (if to then n else 0) })

abbrev pay : Table → Buffer → Buffer → Buffer → ℕ → Option Tok → Option Table
pay t source target authority n none = none
pay t source target authority n (some x) =
    if equals x.owner authority && leb n x.amount
    then some (λ k. moved (equals k source) (equals k target) n (t k))
    else none

abbrev pub ledger : TokenProgram Table
ledger = record {
  id = replicate 32 13;
  info = λ t k. record { program = replicate 32 13; content = content_of (t k) };
  account = λ t k. shown (t k);
  transfer = λ t source target authority n. pay t source target authority n (t source);
}

pay-eq-some :
    (t t' : Table) (source target authority : Buffer) (n : ℕ) (o : Option Tok)
    → pay t source target authority n o ≡ some t'
    → (x : Tok) × (o ≡ some x)
      × (x.owner ≡ authority)
      × (n ≤ x.amount)
      × ((λ k. moved (equals k source) (equals k target) n (t k)) ≡ t')
pay-eq-some t t' source target authority n none e = cc
pay-eq-some t t' source target authority n (some x) e =
    let (h, same) = if-eq-some (equals x.owner authority && leb n x.amount) _ e in
    let (owner, enough) = &&-true _ _ h in
    (x, refl, (equals_iff _ _).0 owner, leb→le _ _ enough, same)

moved-le :
    (from to : Bool) (n x : ℕ)
    → (x ≤ (if from then x - n else x) + (if to then n else 0) + n)
      × (from ≡ false → x ≤ (if from then x - n else x) + (if to then n else 0))
moved-le true to n x = ((ground arith), λ e. cc)
moved-le false to n x = ((ground arith), λ _. ground arith)

moved-Moves :
    (from to : Bool) (address source : Buffer) (n : ℕ) (o : Option Tok) {a : TokenAccount}
    → (address ≢ source → from ≡ false)
    → shown o ≡ some a
    → (b : TokenAccount) × (shown (moved from to n o) ≡ some b) × Moves address source n a b
moved-Moves from to address source n none h e = cc
moved-Moves from to address source n (some x) {a} h e =
    let same : ◌≡◌ {A = TokenAccount}
        (record { mint = x.mint; owner = x.owner; amount = x.amount; delegate = none }) a =
      cc in
    let amount = ap (λ (y : TokenAccount). y.amount) same in
    let most = moved-le from to n x.amount in
    (
      _,
      refl,
      record {
        same_mint = ap (λ (y : TokenAccount). y.mint) same;
        same_owner = ap (λ (y : TokenAccount). y.owner) same;
        no_delegate = λ _. refl;
        takes_at_most =
            subst (λ k. k ≤ (if from then x.amount - n else x.amount) + (if to then n else 0) + n)
              amount most.0;
        takes_from_source = λ apart.
            subst (λ k. k ≤ (if from then x.amount - n else x.amount) + (if to then n else 0))
              amount (most.1 (h apart));
      },
    )

ledger-IsTokenProgram : IsTokenProgram ledger
ledger-IsTokenProgram = record {
  authorized = λ t t' source target authority n e.
      let (x, at_source, owner, enough, same) =
        pay-eq-some t t' source target authority n (t source) e in
      (
        record { mint = x.mint; owner = x.owner; amount = x.amount; delegate = none },
        ap shown at_source,
        enough,
        inl owner,
      );
  moves = λ t t' source target authority n address a e f.
      let (x, at_source, owner, enough, same) =
        pay-eq-some t t' source target authority n (t source) e in
      let (b, shows, m) =
        moved-Moves (equals address source) (equals address target) address source n (t address)
          (λ apart. elsewhere address source apart) f in
      (b, ap (λ (g : Table). shown (g address)) (sym same) ∙ shows, m);
}
  where
    elsewhere : (address source : Buffer) → address ≢ source → equals address source ≡ false
    elsewhere address source apart = elim (Bool-cases (equals address source)) [
      | inl t ↦ absurd (apart ((equals_iff _ _).0 t))
      | inr f ↦ f
    ]

-- The vault's address is zero, and a submission's is not.
abbrev pub toy_addresses : Addresses
toy_addresses = record {
  sub_pda = λ serial attempt. suc attempt ∷ replicate 31 0;
  vault_pda = replicate 32 0;
  fee_pda = replicate 32 9;
  allowance_pda = λ recipient. 1 ∷ recipient;
  submission_bump = λ serial attempt. 254;
  registry_bump = λ serial. 253;
  head_bump = λ serial. 252;
  allowance_bump = λ recipient. 251;
}

pub toy-IsSetting : IsSetting ledger toy_addresses
toy-IsSetting = record {
  law = ledger-IsTokenProgram;
  apart = λ serial attempt e. head_apart e;
  undelegated = λ t key a e owner. none_shown (t key) e;
}
  where
    head_apart : {k : ℕ} {xs ys : Buffer} → ◌≡◌ {A = Buffer} (suc k ∷ xs) (0 ∷ ys) → ⊥
    head_apart e = cc

    none_shown : (o : Option Tok) {a : TokenAccount} → shown o ≡ some a → a.delegate ≡ none
    none_shown none e = cc
    none_shown (some x) e = cc
