-- ===== src/Tests/Checkin.antt =====
-- Tests of the check-in.
use offline_bearer_protocol.Buffer.{Buffer, equals, copy, write_uint, le_bytes, read_uint, of_le}
use offline_bearer_protocol.Buffer.Cuts.{equals_refl}
use offline_bearer_protocol.Chain.{
  verify_coin_chain, verify_structure, check_fields, check_first, check_hashes, check_genesis,
  check_all_sigs, conclude, some_nonzero,
}
use offline_bearer_protocol.Chain.Transfer.{IsDigest, IsHeld, new_coin-IsHeld, append_link-IsHeld}
use offline_bearer_protocol.Checkin.{Prepared, prepare, present, bond_of, plan_for}
use offline_bearer_protocol.Checkin.Batch.{Passes, plan_for-Passes}
use offline_bearer_protocol.Checkin.Window.{Waited, wait_for, wait_from, wait_for-Waited}
use offline_bearer_protocol.Checkin.Checked.{IsReady, prepare-IsReady}
use offline_bearer_protocol.Coin.{new_coin, append_link, last_state, item, current_owner}
use offline_bearer_protocol.Coinfile.{CoinCore}
use offline_bearer_protocol.Errors.{Error}
use offline_bearer_protocol.Instructions.Append.{AppendPlan}
use offline_bearer_protocol.Instructions.Append.Selected.{checks}
use offline_bearer_protocol.Layout.{
  genesis_state, encode_state, decode_state, next_state, state_hash, owner_of,
}
use offline_bearer_protocol.Prelude.{
  ℕ, ◌+◌, ◌*◌, ◌≤◌, [], ◌∷◌, ◌++◌, ◌≡◌, ◌≢◌, refl, sym, ap, ◌∙◌, subst, length, replicate, some, ok,
  ok-injective, All, arith,
}
use offline_bearer_protocol.Readers.{OnChainConfig, OnChainRegistry, OnChainSubmission}
use offline_bearer_protocol.Tests.{
  toy_hash, length-toy_hash, toy_hash-IsByte, toy_curve, toy_signer, serial_7, alice, bob, bytes_of,
  toy_state, toy_coin,
}

abbrev toy_chain_config : OnChainConfig
toy_chain_config = record {
  mint_authority = alice;
  vault_mint = bob;
  bond_multiplier_bps = 20000;
  challenge_window_slots = 150;
  max_links_per_tx = 3;
  default_allowance = 1000;
  total_unspent_supply = 5;
  sig_scheme = 0;
  bump = 254;
}

abbrev toy_chain_registry : OnChainRegistry
toy_chain_registry = record {
  serial = serial_7;
  value = 5;
  genesis_state_hash = toy_hash toy_state;
  mint_slot = 77;
  mint_tx = replicate 64 8;
  recipient = alice;
  status = 0;
  submissions_count = 0;
  bump = 253;
}

abbrev toy_prepared : Prepared
toy_prepared = record { final_owner = alice; bond = 10 }

toy_coin-prepared :
    prepare toy_hash toy_curve toy_coin alice (some toy_chain_config) (some toy_chain_registry)
    ≡ ok toy_prepared
unfolding prepare present bond_of verify_coin_chain verify_structure check_fields check_first
    check_hashes check_genesis check_all_sigs conclude some_nonzero decode_state state_hash owner_of
    current_owner last_state item equals read_uint of_le le_bytes
toy_coin-prepared = refl

prepare-IsReady_example :
    IsReady toy_hash toy_curve toy_coin alice toy_chain_config toy_chain_registry toy_prepared
prepare-IsReady_example =
    prepare-IsReady toy_hash toy_curve toy_coin alice toy_chain_config toy_chain_registry
      toy_prepared toy_coin-prepared

-- The coin after Alice has handed it to Bob.
abbrev bob_state : Buffer
bob_state = serial_7 ++ ((5 ∷ replicate 7 0) ++ (bob ++ toy_hash toy_state))

abbrev bob_coin : CoinCore
bob_coin = record toy_coin {
  states = toy_state ∷ bob_state ∷ [];
  sigs = (toy_hash bob_state ++ alice) ∷ [];
}

bob_coin-made : append_link toy_hash toy_coin (toy_signer alice) bob ≡ ok bob_coin
unfolding append_link last_state next_state decode_state encode_state state_hash write_uint
    read_uint copy of_le le_bytes
bob_coin-made = refl

toy_digest : IsDigest toy_hash
toy_digest b = (length-toy_hash b, toy_hash-IsByte b)

toy_coin-IsHeld : IsHeld toy_hash toy_curve toy_coin alice
toy_coin-IsHeld =
    let (c, e, held) =
      new_coin-IsHeld toy_hash toy_curve toy_digest serial_7 alice 5 refl refl (omega arith)
        (bytes_of 32 7 (omega arith)) (bytes_of 32 1 (omega arith)) in
    subst (λ x. IsHeld toy_hash toy_curve x alice) (ok-injective {E = Error} (sym e ∙ made)) held
  where
    made : new_coin serial_7 5 alice ≡ ok toy_coin
    made = unfold new_coin genesis_state encode_state write_uint copy le_bytes in refl

bob_coin-IsHeld : IsHeld toy_hash toy_curve bob_coin bob
bob_coin-IsHeld =
    let (c, e, held, longer) =
      append_link-IsHeld toy_hash toy_curve toy_digest toy_coin alice bob (toy_signer alice)
        toy_coin-IsHeld refl (bytes_of 32 2 (omega arith))
        (λ h. (h ++ alice, refl, ap some (equals_refl (h ++ alice)))) in
    subst (λ x. IsHeld toy_hash toy_curve x bob) (ok-injective {E = Error} (sym e ∙ bob_coin-made))
      held

-- A submission that has received the first state.
abbrev started : OnChainSubmission
started = record {
  serial = serial_7;
  attempt = 0;
  checker = bob;
  final_owner = alice;
  links_count = 0;
  started_slot = 80;
  finalized_slot = 0;
  status = 0;
  states_len = 1;
  states = toy_state ∷ [];
  sig_commits = [];
  bump = 252;
}

receiving≢pending : ◌≢◌ {A = ℕ} 0 2
receiving≢pending e = omega (arith, e)

plan_for-Passes_example :
    (plan : AppendPlan) × (plan_for toy_hash bob_coin 3 started ≡ ok plan)
    × All (Passes toy_hash toy_curve) (checks plan.head_owner plan.links plan.last_hash)
    × (length plan.links + 1 ≡ 2)
plan_for-Passes_example =
    plan_for-Passes toy_hash toy_curve bob_coin 3 started bob_coin-IsHeld.chain receiving≢pending
      (omega arith) (omega arith) refl (omega arith)

three_seconds : (j : ℕ) → j * 3000 ≤ j * 3000
three_seconds j = omega arith

wait_for-Waited_example :
    Waited
      (λ k. 100 + k)
      (λ k. k * 3000)
      105
      60000
      (wait_for (λ k. 100 + k) (λ k. k * 3000) 105 60000)
wait_for-Waited_example = wait_for-Waited (λ k. 100 + k) (λ k. k * 3000) 105 60000 three_seconds

window_passes : wait_for (λ k. 100 + k) (λ k. k * 3000) 105 60000 ≡ some (ok 5)
unfolding wait_for wait_from
window_passes = refl
