-- ===== src/Chain/Valid.antt =====
-- When a coin's chain is valid, said without reference to the loops of sdk/src/chain.ts.
use offline_bearer_protocol.Buffer.{Buffer}
use offline_bearer_protocol.Coin.{Curve}
use offline_bearer_protocol.Coinfile.{CoinCore}
use offline_bearer_protocol.Layout.Encoding.{state_of}
use offline_bearer_protocol.Prelude.{ℕ, List, [], ◌∷◌, ◌≡◌, All, length, some, true}

-- A state of the coin: 104 bytes with the coin's serial and value.
pub record IsStateOf (serial : Buffer) (value : ℕ) (s : Buffer) : Type 0 where
  pub size_104 : length s ≡ 104
  pub same_serial : (state_of s).serial ≡ serial
  pub same_value : (state_of s).value ≡ value

module _ (sha256 : Buffer → Buffer) (curve : Curve) where
  -- Each state holds the hash of the one before, whose owner has signed the state's own hash.
  abbrev pub Linked : Buffer → List Buffer → List Buffer → Type 0
  Linked prev [] sigs = Unit
  Linked prev (s ∷ states) [] = ⊥
  Linked prev (s ∷ states) (g ∷ sigs) =
      ((state_of s).prev_hash ≡ sha256 prev)
      × (curve.verify g (sha256 s) (state_of prev).owner ≡ some true)
      × Linked s states sigs

  -- From a first state with a zero prevHash on.
  abbrev pub Starting : List Buffer → List Buffer → Type 0
  Starting [] sigs = ⊥
  Starting (s ∷ states) sigs = All (λ b. b ≡ 0) (state_of s).prev_hash × Linked s states sigs

  pub record IsChain (c : CoinCore) : Type 0 where
    pub fields : All (IsStateOf c.serial c.value) c.states
    pub links : Starting c.states c.sigs
