-- ===== src/Tests/Program.antt =====
-- Tests of the theorems on the program.
use offline_bearer_protocol.Buffer.{Buffer, equals, le_bytes, of_le, copy}
use offline_bearer_protocol.Prelude.{
  ℕ, suc, ◌≤◌, arith, ◌+◌, List, [], ◌∷◌, ◌≡◌, refl, Result, ok, err,
}
use offline_bearer_protocol.Program.Append.{extend, add_links, check_sig_format}
use offline_bearer_protocol.Program.Checks.{
  verify_full_chain, bond_amount, pda_transfer, last_state, state_at, check_link, sig_commit_hash,
}
use offline_bearer_protocol.Program.Context.{Context, put}
use offline_bearer_protocol.Program.Errors.{Failure}
use offline_bearer_protocol.Program.Mint.{find_coin, mint_coin, commit, new_registry}
use offline_bearer_protocol.Program.Start.{absent, new_submission}
use offline_bearer_protocol.Program.State.{
  genesis_state, state_hash, parse_serial, parse_value, parse_owner, parse_prev_hash,
}
use offline_bearer_protocol.Program.Words.{add_word}
use offline_bearer_protocol.Tests.{toy_hash, serial_7, alice, toy_state}
use offline_bearer_protocol.Tests.Ledger.{Table, ledger, toy_addresses, toy-IsSetting}
use offline_bearer_protocol.Program.Append.Grows.{IsGenuine, extend-IsGenuine}
use offline_bearer_protocol.Program.Append.Unsigned.{resign, extend-resign}
use offline_bearer_protocol.Program.Checks.Bond.{bond_amount-bond_of_iff}
use offline_bearer_protocol.Program.Finalize.Wins.{Beats, i_win-Beats_iff}
use offline_bearer_protocol.Program.Finalize.{i_win}
use offline_bearer_protocol.Program.Handled.Decision.{Decision}
use offline_bearer_protocol.Program.Handled.Settled.{settle-after_window}
use offline_bearer_protocol.Program.History.{IsHistory, verify_full_chain-IsHistory_iff}
use offline_bearer_protocol.Program.Vault.{withdraw_vault}
use offline_bearer_protocol.Program.Vault.Closed.{withdraw_vault-always_fails}
use offline_bearer_protocol.Program.Accounts.{Submission, HeadRegistry}
use offline_bearer_protocol.Checkin.{bond_of}
use offline_bearer_protocol.Prelude.{◌↔◌, ◌≢◌, ◌*◌, ◌^◌, ◌<◌, ◌-◌, true, take}
use offline_bearer_protocol.Program.History
use offline_bearer_protocol.Tests.Run.{
  carol, toy_table, world_0, value_or, coin_1, bob_state, toy_links, toy_settle_keys, ctx_4, ctx_5,
  ctx_6, settle-toy, world_5,
}

small_slot : ctx_5.slot < 2 ^ 64 - 1
small_slot = omega arith

settle-after_window_example :
    ctx_5.coin.head.pending_since_slot + ctx_5.config.challenge_window_slots ≤ ctx_5.slot
settle-after_window_example =
    settle-after_window toy_hash ledger toy_addresses serial_7 0 1 alice toy_settle_keys ctx_5 ctx_6
      small_slot settle-toy

alice≢vault : {k : ℕ} {xs ys : Buffer} → ◌≡◌ {A = Buffer} (suc k ∷ xs) (0 ∷ ys) → ⊥
alice≢vault e = cc

withdraw_vault-always_fails_example :
    withdraw_vault ledger toy_addresses alice (10 ∷ []) (11 ∷ []) 3 world_0 ≢ ok world_0
withdraw_vault-always_fails_example =
    withdraw_vault-always_fails ledger toy_addresses toy-IsSetting alice (10 ∷ []) (11 ∷ []) 3
      world_0 world_0 (λ e. alice≢vault e)

bond_amount-bond_of_iff_example :
    (bond_amount 5 20000 ≡ ok 10)
    ↔ ((10000 ≤ 20000) × (5 * 20000 < 2 ^ 64) × (10 ≡ bond_of 5 20000) × (5 ≤ 10))
bond_amount-bond_of_iff_example = bond_amount-bond_of_iff 5 20000 10

-- The submission as it starts, and with the link to Bob.
abbrev first_submission : Submission
first_submission = new_submission serial_7 0 carol 7 toy_state 254

first-IsGenuine : IsGenuine toy_hash coin_1.registry first_submission
unfolding mint_coin absent find_coin genesis_state state_hash add_word commit put new_registry
    equals le_bytes of_le copy new_submission
first-IsGenuine = record {
  slots = refl;
  fits = omega arith;
  last = toy_state;
  history = History.genesis toy_state refl;
  owner = refl;
  counted = omega arith;
  serial = refl;
}

abbrev or_submission : Submission → Result Failure Submission → Submission
or_submission d (ok s) = s
or_submission d (err e) = d

abbrev second_submission : Submission
second_submission = or_submission first_submission (
    extend toy_hash 0 3 coin_1.registry serial_7 alice toy_links (toy_hash bob_state)
      first_submission)

extend-toy :
    extend toy_hash 0 3 coin_1.registry serial_7 alice toy_links
      (toy_hash bob_state)
      first_submission
    ≡ ok second_submission
unfolding mint_coin absent find_coin genesis_state state_hash add_word commit put new_registry
    equals le_bytes of_le copy new_submission parse_serial parse_value parse_owner extend add_links
    last_state state_at check_link check_sig_format sig_commit_hash parse_prev_hash
extend-toy = refl

extend-IsGenuine_example : IsGenuine toy_hash coin_1.registry second_submission
extend-IsGenuine_example =
    extend-IsGenuine toy_hash coin_1.registry 0 3 serial_7 alice toy_links (toy_hash bob_state)
      first_submission first-IsGenuine second_submission extend-toy

extend-resign_example :
    (c : List Buffer) × (extend toy_hash 0 3 coin_1.registry serial_7 alice
        (resign (λ sig. []) toy_links)
        (toy_hash bob_state)
        first_submission
      ≡ ok (record second_submission { sig_commits = c }))
extend-resign_example =
    extend-resign toy_hash (λ sig. []) 3 coin_1.registry serial_7 alice toy_links
      (toy_hash bob_state) first_submission second_submission extend-toy

verify_full_chain-IsHistory_iff_example :
    (verify_full_chain toy_hash first_submission coin_1.registry ≡ ok tt) ↔ (
      (last : Buffer) × IsHistory toy_hash coin_1.registry
        (take first_submission.states_len first_submission.states)
        last)
verify_full_chain-IsHistory_iff_example =
    verify_full_chain-IsHistory_iff toy_hash coin_1.registry first_submission

abbrev toy_head : HeadRegistry
toy_head = record {
  set = true;
  head_state = toy_state;
  head_attempt = 1;
  head_states_len = 1;
  pending_since_slot = 7;
  bump = 252;
}

i_win-Beats_iff_example :
    (i_win toy_head second_submission ≡ true) ↔ Beats toy_head second_submission
i_win-Beats_iff_example = i_win-Beats_iff toy_head second_submission

abbrev last_submission : Submission
last_submission = record second_submission { status = 2; finalized_slot = 7 }

-- The tables after the two payments of the settlement.
abbrev paid_5 : Table
paid_5 = value_or toy_table (
    pda_transfer ledger world_5.tokens (10 ∷ []) (13 ∷ []) toy_addresses.vault_pda
      ctx_4.coin.registry.value)

abbrev returned_5 : Table
returned_5 =
    value_or toy_table
      (pda_transfer ledger paid_5 (12 ∷ []) (11 ∷ []) (toy_addresses.sub_pda serial_7 0) 10)
