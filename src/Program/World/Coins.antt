-- ===== src/Program/World/Coins.antt =====
-- A coin among all coins of programs/obp-core, and the sum of what they are worth.
use offline_bearer_protocol.Buffer.{Buffer, equals}
use offline_bearer_protocol.Buffer.Cuts.{equals_iff}
use offline_bearer_protocol.Prelude.{
  ℕ, ◌+◌, ◌≡◌, refl, sym, ap, subst, ◌∙◌, List, [], ◌∷◌, Option, some, Bool, true, false,
  if◌then◌else◌, ◌==◌, All, ◌⊎◌, inl, inr, arith,
}
use offline_bearer_protocol.Program.Accounts.{MintRegistry}
use offline_bearer_protocol.Program.Context.{CoinAccounts}
use offline_bearer_protocol.Program.Mint.{find_coin}
use offline_bearer_protocol.Program.Status.{spent}
use offline_bearer_protocol.Program.World.{replace_coin}

-- What a coin adds to the supply: its value, until it is spent.
unfoldable pub worth : MintRegistry → ℕ
worth r = if r.status == spent then 0 else r.value

abbrev pub outstanding : List CoinAccounts → ℕ
outstanding [] = 0
outstanding (c ∷ coins) = worth c.registry + outstanding coins

-- The first of a test or the rest.
if-some-cases :
    {A : Type 0} (t : Bool) (a : A) (rest : Option A) {b : A}
    → (if t then some a else rest) ≡ some b
    → ((t ≡ true) × (a ≡ b)) ⊎ ((t ≡ false) × (rest ≡ some b))
if-some-cases true a rest e = inl (refl, cc)
if-some-cases false a rest e = inr (refl, e)

if-All :
    {A : Type 0} (P : A → Type 0) (t : Bool) (xs ys : List A)
    → All P xs
    → All P ys
    → All P (if t then xs else ys)
if-All P true xs ys h k = h
if-All P false xs ys h k = k

module _ (serial : Buffer) where
  pub find_coin-serial :
      (coins : List CoinAccounts) {c : CoinAccounts}
      → find_coin serial coins ≡ some c
      → c.registry.serial ≡ serial
  unfolding find_coin
  find_coin-serial [] e = cc
  find_coin-serial (d ∷ coins) e =
      elim (if-some-cases (equals d.registry.serial serial) d (find_coin serial coins) e) [
        | inl (t, same) ↦
            ap (λ (x : CoinAccounts). x.registry.serial) (sym same) ∙ (equals_iff _ _).0 t
        | inr (f, later) ↦ find_coin-serial coins later
      ]

  pub replace_coin-outstanding :
      (coins : List CoinAccounts) (c c' : CoinAccounts)
      → find_coin serial coins ≡ some c
      → outstanding (replace_coin serial c' coins) + worth c.registry
        ≡ outstanding coins + worth c'.registry
  unfolding find_coin replace_coin
  replace_coin-outstanding [] c c' e = cc
  replace_coin-outstanding (d ∷ coins) c c' e =
      elim (if-some-cases (equals d.registry.serial serial) d (find_coin serial coins) e) [
        | inl (t, same) ↦
            let w = ap (λ (x : CoinAccounts). worth x.registry) same in
            let sum : worth c'.registry + outstanding coins + worth c.registry
                ≡ worth d.registry + outstanding coins + worth c'.registry =
              omega arith in
            rw (t, sum)
        | inr (f, later) ↦
            let rest = replace_coin-outstanding coins c c' later in
            let sum : worth d.registry
                  + outstanding (replace_coin serial c' coins)
                  + worth c.registry
                ≡ worth d.registry + outstanding coins + worth c'.registry =
              omega arith in
            rw (f, sum)
      ]

  module _ (P : CoinAccounts → Type 0) where
    pub find_coin-All :
        (coins : List CoinAccounts) {c : CoinAccounts}
        → All P coins
        → find_coin serial coins ≡ some c
        → P c
    unfolding find_coin
    find_coin-All [] h e = cc
    find_coin-All (d ∷ coins) (p, ps) e =
        elim (if-some-cases (equals d.registry.serial serial) d (find_coin serial coins) e) [
          | inl (t, same) ↦ subst P same p
          | inr (f, later) ↦ find_coin-All coins ps later
        ]

    pub replace_coin-All :
        (coins : List CoinAccounts) (c' : CoinAccounts)
        → All P coins
        → P c'
        → All P (replace_coin serial c' coins)
    unfolding replace_coin
    replace_coin-All [] c' h p' = tt
    replace_coin-All (d ∷ coins) c' (p, ps) p' =
        if-All P (equals d.registry.serial serial) (c' ∷ coins) _ (p', ps)
          (p, replace_coin-All coins c' ps p')
