-- ===== src/Tests/Chain.antt =====
-- Tests of a coin's chain.
use offline_bearer_protocol.Buffer.{copy, write_uint, le_bytes}
use offline_bearer_protocol.Buffer.Cuts.{equals_refl}
use offline_bearer_protocol.Chain.Accepts.{Accepted, verify_coin-IsChain_iff}
use offline_bearer_protocol.Chain.Transfer.{
  IsDigest, IsHeld, SignsFor, new_coin-IsHeld, append_link-IsHeld,
}
use offline_bearer_protocol.Chain.Valid.{IsChain}
use offline_bearer_protocol.Chain.Verified.{Anchored}
use offline_bearer_protocol.Coin.{new_coin, append_link, item}
use offline_bearer_protocol.Coinfile.{CoinCore}
use offline_bearer_protocol.Errors.{Error}
use offline_bearer_protocol.Layout.{genesis_state, encode_state}
use offline_bearer_protocol.Prelude.{
  ◌+◌, ◌++◌, ◌≡◌, ◌↔◌, refl, sym, ap, ◌∙◌, subst, length, some, ok, ok-injective, arith,
}
use offline_bearer_protocol.Prelude.{ℕ, [], ◌∷◌, ap, replicate, length-replicate}
use offline_bearer_protocol.Buffer.{IsByte}
use offline_bearer_protocol.Scripts.{Owner, build_chain}
use offline_bearer_protocol.Scripts.Held.{IsOwner, build_chain-IsHeld}
use offline_bearer_protocol.Tests.{
  toy_hash, length-toy_hash, toy_hash-IsByte, toy_curve, toy_signer, serial_7, alice, bob, bytes_of,
  toy_state, toy_coin,
}

toy_digest : IsDigest toy_hash
toy_digest b = (length-toy_hash b, toy_hash-IsByte b)

new_coin-IsHeld_example :
    (c : CoinCore) × (new_coin serial_7 5 alice ≡ ok c) × IsHeld toy_hash toy_curve c alice
new_coin-IsHeld_example =
    new_coin-IsHeld toy_hash toy_curve toy_digest serial_7 alice 5 refl refl (omega arith)
      (bytes_of 32 7 (omega arith)) (bytes_of 32 1 (omega arith))

new_coin-toy_coin : new_coin serial_7 5 alice ≡ ok toy_coin
unfolding new_coin genesis_state encode_state write_uint copy le_bytes
new_coin-toy_coin = refl

toy_coin-IsHeld : IsHeld toy_hash toy_curve toy_coin alice
toy_coin-IsHeld =
    let (c, e, held) =
      new_coin-IsHeld toy_hash toy_curve toy_digest serial_7 alice 5 refl refl (omega arith)
        (bytes_of 32 7 (omega arith)) (bytes_of 32 1 (omega arith)) in
    subst (λ x. IsHeld toy_hash toy_curve x alice)
      (ok-injective {E = Error} (sym e ∙ new_coin-toy_coin)) held

alice-SignsFor : SignsFor toy_hash toy_curve toy_digest toy_coin alice bob (toy_signer alice)
alice-SignsFor h = (h ++ alice, refl, ap some (equals_refl (h ++ alice)))

append_link-IsHeld_example :
    (c : CoinCore) × (append_link toy_hash toy_coin (toy_signer alice) bob ≡ ok c)
    × IsHeld toy_hash toy_curve c bob
    × (length c.states ≡ 1 + 1)
append_link-IsHeld_example =
    append_link-IsHeld toy_hash toy_curve toy_digest toy_coin alice bob (toy_signer alice)
      toy_coin-IsHeld refl (bytes_of 32 2 (omega arith)) alice-SignsFor

verify_coin-IsChain_iff_example :
    Accepted toy_hash toy_curve toy_coin refl (some (toy_hash toy_state))
    ↔ (IsChain toy_hash toy_curve toy_coin × Anchored toy_hash (some (toy_hash toy_state)) toy_coin)
verify_coin-IsChain_iff_example =
    verify_coin-IsChain_iff toy_hash toy_curve toy_coin refl (some (toy_hash toy_state))

-- The new coin is accepted, its genesis hash being its first state's.
toy_coin-accepted : Accepted toy_hash toy_curve toy_coin refl (some (toy_hash toy_state))
unfolding item
toy_coin-accepted =
    (verify_coin-IsChain_iff toy_hash toy_curve toy_coin refl (some (toy_hash toy_state))).1
      (toy_coin-IsHeld.chain, (toy_state, refl, refl))

abbrev toy_owner : ℕ → Owner
toy_owner k = record { public_key = replicate 32 k; signer = toy_signer (replicate 32 k) }

toy_owner-IsOwner : (k : ℕ) → IsByte k → IsOwner toy_curve (toy_owner k)
toy_owner-IsOwner k byte = record {
  size = length-replicate 32 k;
  bytes = bytes_of 32 k byte;
  signs = λ h. (h ++ replicate 32 k, refl, ap some (equals_refl (h ++ replicate 32 k)));
}

build_chain-IsHeld_example :
    (c : CoinCore) × (build_chain toy_hash serial_7 5 (toy_owner 1) (toy_owner 2 ∷ []) ≡ ok c)
    × IsHeld toy_hash toy_curve c (replicate 32 2)
build_chain-IsHeld_example =
    build_chain-IsHeld toy_hash toy_curve toy_digest serial_7 5 (toy_owner 1) (toy_owner 2 ∷ [])
      refl (omega arith) (bytes_of 32 7 (omega arith)) (toy_owner-IsOwner 1 (omega arith))
      (toy_owner-IsOwner 2 (omega arith), tt)
