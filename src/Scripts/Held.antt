-- ===== src/Scripts/Held.antt =====
-- What `buildChain` of sdk/scripts/e2e-matrix.ts builds.
use offline_bearer_protocol.Buffer.{Buffer, IsByte}
use offline_bearer_protocol.Chain.Transfer.{IsDigest, IsHeld, new_coin-IsHeld, append_link-IsHeld}
use offline_bearer_protocol.Coin.{Curve, new_coin, append_link}
use offline_bearer_protocol.Coinfile.{CoinCore}
use offline_bearer_protocol.Prelude.{
  ℕ, ◌<◌, ◌^◌, ◌≡◌, List, [], ◌∷◌, All, length, ok, some, true, refl, bind_ok,
}
use offline_bearer_protocol.Scripts.{Owner, hand_on, build_chain}

-- An owner with a key of 32 bytes who signs for it.
pub record IsOwner (curve : Curve) (o : Owner) : Type 0 where
  pub size : length o.public_key ≡ 32
  pub bytes : All IsByte o.public_key
  pub signs :
      (h : Buffer)
      → (g : Buffer) × (o.signer.sign h ≡ ok g) × (curve.verify g h o.public_key ≡ some true)

abbrev pub last_owner : Owner → List Owner → Owner
last_owner owner [] = owner
last_owner owner (next ∷ owners) = last_owner next owners

module _ (sha256 : Buffer → Buffer) (curve : Curve) (digest : IsDigest sha256) where
  hand_on-IsHeld :
      (coin : CoinCore) (owner : Owner) (owners : List Owner)
      → IsHeld sha256 curve coin owner.public_key
      → IsOwner curve owner
      → All (IsOwner curve) owners
      → (c : CoinCore) × (hand_on sha256 coin owner owners ≡ ok c)
        × IsHeld sha256 curve c (last_owner owner owners).public_key
  unfolding hand_on
  hand_on-IsHeld coin owner [] held is_owner rest = (coin, refl, held)
  hand_on-IsHeld coin owner (next ∷ owners) held is_owner (is_next, rest) =
      let (longer, e, held', more) =
        append_link-IsHeld sha256 curve digest coin owner.public_key next.public_key owner.signer
          held is_next.size is_next.bytes is_owner.signs in
      let (c, f, held_at_end) = hand_on-IsHeld longer next owners held' is_next rest in
      (c, bind_ok (append_link sha256 coin owner.signer next.public_key) _ e f, held_at_end)

  -- Where the digests have 32 bytes, and the serial too, the value fits 64 bits, and every owner has
  -- a key of 32 bytes and signs for it, `buildChain` returns a coin that the last owner holds, and
  -- whose chain is valid.
  pub build_chain-IsHeld :
      (serial : Buffer) (value : ℕ) (first : Owner) (owners : List Owner)
      → length serial ≡ 32
      → value < 256 ^ 8
      → All IsByte serial
      → IsOwner curve first
      → All (IsOwner curve) owners
      → (c : CoinCore) × (build_chain sha256 serial value first owners ≡ ok c)
        × IsHeld sha256 curve c (last_owner first owners).public_key
  unfolding build_chain
  build_chain-IsHeld serial value first owners size small bytes is_first rest =
      let (coin, e, held) =
        new_coin-IsHeld sha256 curve digest serial first.public_key value size is_first.size small
          bytes is_first.bytes in
      let (c, f, held_at_end) = hand_on-IsHeld coin first owners held is_first rest in
      (c, bind_ok (new_coin serial value first.public_key) _ e f, held_at_end)
