-- ===== src/Coin.antt =====
-- sdk/src/coin.ts and sdk/src/chain-internal.ts: making a coin and handing it on offline.
-- `await` on a value that is no promise is the value, so an asynchronous signer is the same here:
-- a call that returns a signature or fails. `curve` is the ed25519 of a package.

use offline_bearer_protocol.Buffer.{Buffer, subarray}
use offline_bearer_protocol.Coinfile.{CoinCore}
use offline_bearer_protocol.Constants.SigScheme.{ed25519}
use offline_bearer_protocol.Errors.{Error, type_error, seed_size}
use offline_bearer_protocol.Layout.{genesis_state, next_state, state_hash, owner_of}
use offline_bearer_protocol.Prelude.{
  ℕ, List, [], ◌∷◌, ◌++◌, length, get_elem?, Option, none, some, Result, ok, err, guard, Bool,
  ◌>>=◌, ◌>>◌, ◌==◌, if◌then◌else◌,
}

pub record Signer : Type 0 where
  pub sign : Buffer → Result Error Buffer

-- The two functions of the package @noble/curves that the SDK calls; `none` is a throw.
pub record Curve : Type 0 where
  pub sign : Buffer → Buffer → Buffer
  pub verify : Buffer → Buffer → Buffer → Option Bool

-- `items[i]`, where an index past the end gives `undefined`, which no caller can use
unfoldable pub item : List Buffer → ℕ → Result Error Buffer
item items i = elim (get_elem? items i) [ none ↦ err type_error | some b ↦ ok b ]

-- `states[states.length - 1]`; the index is -1 on an empty array
unfoldable pub last_state : List Buffer → Result Error Buffer
last_state [] = err type_error
last_state (s ∷ []) = ok s
last_state (s ∷ t ∷ states) = last_state (t ∷ states)

unfoldable pub ed25519_signer : Curve → Buffer → Result Error Signer
ed25519_signer curve seed = do
  let priv = if length seed == 64 then subarray seed 0 32 else seed
  guard (length priv == 32) seed_size
  ok (record { sign = λ msg. ok (curve.sign msg priv) })

unfoldable pub new_coin : Buffer → ℕ → Buffer → Result Error CoinCore
new_coin serial value recipient_owner = do
  s0 ← genesis_state serial value recipient_owner
  ok (record { serial = serial; value = value; states = s0 ∷ []; sigs = []; sig_scheme = ed25519 })

-- `currentOwnerOf`
unfoldable pub current_owner : CoinCore → Result Error Buffer
current_owner coin = do last ← last_state coin.states; owner_of last

module _ (sha256 : Buffer → Buffer) where
  unfoldable pub append_link : CoinCore → Signer → Buffer → Result Error CoinCore
  append_link coin current_owner_signer new_owner = do
    last ← last_state coin.states
    next ← next_state sha256 last new_owner
    h ← state_hash sha256 next
    sig ← current_owner_signer.sign h
    ok (record coin { states = coin.states ++ next ∷ []; sigs = coin.sigs ++ sig ∷ [] })

  unfoldable pub append_link_async : CoinCore → Signer → Buffer → Result Error CoinCore
  append_link_async coin current_owner_signer new_owner = do
    last ← last_state coin.states
    next ← next_state sha256 last new_owner
    h ← state_hash sha256 next
    sig ← current_owner_signer.sign h
    ok (record coin { states = coin.states ++ next ∷ []; sigs = coin.sigs ++ sig ∷ [] })
