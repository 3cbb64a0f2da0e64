-- ===== src/Tests/Run.antt =====
-- A run of the program as test data: a coin that is minted, checked in, and paid after the window.
use offline_bearer_protocol.Buffer.{Buffer, equals, le_bytes, of_le, copy}
use offline_bearer_protocol.Instructions.Append.{Link}
use offline_bearer_protocol.Prelude.{
  ℕ, suc, sym, subst, ◌≤◌, arith, List, [], ◌∷◌, ◌++◌, ◌≡◌, refl, replicate, Option, none, some,
  Result, ok, err, if◌then◌else◌,
}
use offline_bearer_protocol.Program.Accounts.{Config}
use offline_bearer_protocol.Program.Append.{append_links, extend, add_links, check_sig_format}
use offline_bearer_protocol.Program.Checks.{
  Tok, check_tok, tok_of, check_owner, verify_full_chain, check_genesis, check_chain, bond_amount,
  pda_transfer, last_state, state_at, check_link, sig_commit_hash,
}
use offline_bearer_protocol.Program.Context.{
  Context, CoinAccounts, program_id, put, submission_of, put_submission,
}
use offline_bearer_protocol.Program.Errors.{Failure}
use offline_bearer_protocol.Program.Finalize.{
  FinalizeKeys, finalize_check_in, check_finalize_tokens, decide, fin_set_head, head_of,
}
use offline_bearer_protocol.Program.Init.{InitArgs, init}
use offline_bearer_protocol.Program.Mint.{
  World, find_coin, mint_coin, commit, new_registry, no_head,
}
use offline_bearer_protocol.Program.Settle.{
  SettleKeys, settle, settle_pay_out, settle_other, settle_allowance, check_settle_tokens,
}
use offline_bearer_protocol.Program.Start.{
  start_check_in, absent, new_submission, check_start, check_start_tokens,
}
use offline_bearer_protocol.Program.State.{
  genesis_state, state_hash, parse_serial, parse_value, parse_owner, parse_prev_hash,
}
use offline_bearer_protocol.Program.Words.{
  add_word, sub_word, checked_mul, checked_sub, saturating_add,
}
use offline_bearer_protocol.Program.World.{
  context_of, world_after, replace_coin, Acts, starts, appends, finalizes, on_coin, mints, passes,
  initialised, later, Reached,
}
use offline_bearer_protocol.Tests.{toy_hash, serial_7, alice, bob, toy_state}
use offline_bearer_protocol.Tests.Ledger.{Table, ledger, toy_addresses}

abbrev pub carol : Buffer
carol = replicate 32 3

abbrev pub toy_args : InitArgs
toy_args = record {
  vault_mint = bob;
  bond_multiplier_bps = 20000;
  challenge_window_slots = 150;
  max_links_per_tx = 3;
  default_allowance = 1000;
  sig_scheme = 0;
}

abbrev pub toy_config : Config
toy_config = record {
  mint_authority = alice;
  vault_mint = bob;
  bond_multiplier_bps = 20000;
  challenge_window_slots = 150;
  max_links_per_tx = 3;
  default_allowance = 1000;
  total_unspent_supply = 0;
  sig_scheme = 0;
  bump = 254;
}

pub init-toy : init alice 254 toy_args ≡ ok toy_config
unfolding init
init-toy = refl

abbrev pub toy_account : Buffer → ℕ → Option Tok
toy_account owner amount = some (record { mint = bob; owner = owner; amount = amount })

-- The vault, the checker's account, the escrow of attempt 0, the winner's account and the fees.
abbrev pub toy_table : Table
toy_table key =
    if equals key (10 ∷ [])
    then toy_account (replicate 32 0) 100
    else if equals key (11 ∷ [])
    then toy_account carol 50
    else if equals key (12 ∷ [])
    then toy_account (1 ∷ replicate 31 0) 0
    else if equals key (13 ∷ [])
    then toy_account bob 0
    else if equals key (14 ∷ [])
    then toy_account (replicate 32 9) 0
    else none

abbrev pub world_0 : World Table
world_0 = record {
  config = toy_config;
  coins = [];
  allowances = λ _. none;
  tokens = toy_table;
  slot = 7;
}

abbrev pub value_or : {A : Type 0} → A → Result Failure A → A
value_or d (ok a) = a
value_or d (err e) = d

abbrev pub world_1 : World Table
world_1 = value_or world_0 (
    mint_coin toy_hash ledger toy_addresses alice serial_7 5 alice (toy_hash toy_state)
      (replicate 64 8) (10 ∷ []) world_0)

pub mint_coin-toy :
    mint_coin toy_hash ledger toy_addresses alice serial_7 5 alice
      (toy_hash toy_state)
      (replicate 64 8)
      (10 ∷ [])
      world_0
    ≡ ok world_1
unfolding mint_coin absent find_coin genesis_state state_hash add_word commit put new_registry
    equals le_bytes of_le copy
mint_coin-toy = refl

abbrev no_coin : CoinAccounts
no_coin = record {
  registry = new_registry [] 0 [] [] [] 0 0;
  head = no_head;
  first = none;
  second = none;
}

abbrev or_coin : Option CoinAccounts → CoinAccounts
or_coin none = no_coin
or_coin (some c) = c

abbrev pub coin_1 : CoinAccounts
coin_1 = or_coin (find_coin serial_7 world_1.coins)

abbrev pub ctx_1 : Context Table
ctx_1 = context_of world_1 coin_1

abbrev pub ctx_2 : Context Table
ctx_2 = value_or ctx_1 (
    start_check_in toy_hash ledger toy_addresses serial_7 0 toy_state carol (11 ∷ []) (12 ∷ [])
      ctx_1)

pub start_check_in-toy :
    start_check_in toy_hash ledger toy_addresses serial_7 0 toy_state carol
      (11 ∷ [])
      (12 ∷ [])
      ctx_1
    ≡ ok ctx_2
unfolding start_check_in mint_coin absent find_coin genesis_state state_hash add_word commit put
    new_registry equals le_bytes of_le copy submission_of put_submission new_submission check_start
    check_start_tokens bond_amount pda_transfer parse_serial parse_value parse_owner checked_mul
start_check_in-toy = refl

abbrev pub bob_state : Buffer
bob_state = serial_7 ++ ((5 ∷ replicate 7 0) ++ (bob ++ toy_hash toy_state))

abbrev pub toy_links : List Link
toy_links = record { state = bob_state; sig = replicate 64 4 } ∷ []

abbrev pub ctx_3 : Context Table
ctx_3 = value_or ctx_2 (append_links toy_hash serial_7 0 alice toy_links (toy_hash bob_state) ctx_2)

pub append_links-toy :
    append_links toy_hash serial_7 0 alice toy_links (toy_hash bob_state) ctx_2 ≡ ok ctx_3
unfolding append_links start_check_in mint_coin absent find_coin genesis_state state_hash add_word
    commit put new_registry equals le_bytes of_le copy submission_of put_submission new_submission
    check_start check_start_tokens bond_amount pda_transfer parse_serial parse_value parse_owner
    checked_mul extend add_links last_state state_at check_link check_sig_format sig_commit_hash
    parse_prev_hash
append_links-toy = refl

abbrev pub toy_finalize_keys : FinalizeKeys
toy_finalize_keys = record {
  escrow = 12 ∷ [];
  checker_token = 11 ∷ [];
  winner_token = 13 ∷ [];
  coin_vault = 10 ∷ [];
  fee_sink = 14 ∷ [];
  other_submission = program_id;
  other_escrow = program_id;
  other_checker_token = program_id;
  recipient_allowance = program_id;
}

abbrev pub toy_settle_keys : SettleKeys
toy_settle_keys = record {
  escrow = 12 ∷ [];
  checker_token = 11 ∷ [];
  winner_token = 13 ∷ [];
  coin_vault = 10 ∷ [];
  fee_sink = 14 ∷ [];
  other_submission = program_id;
  other_escrow = program_id;
  recipient_allowance = program_id;
}

abbrev pub ctx_4 : Context Table
ctx_4 =
    value_or ctx_3
      (finalize_check_in toy_hash ledger toy_addresses serial_7 0 1 alice toy_finalize_keys ctx_3)

pub finalize_check_in-toy :
    finalize_check_in toy_hash ledger toy_addresses serial_7 0 1 alice toy_finalize_keys ctx_3
    ≡ ok ctx_4
unfolding append_links start_check_in mint_coin absent find_coin genesis_state state_hash add_word
    commit put new_registry equals le_bytes of_le copy submission_of put_submission new_submission
    check_start check_start_tokens bond_amount pda_transfer parse_serial parse_value parse_owner
    checked_mul extend add_links last_state state_at check_link check_sig_format sig_commit_hash
    parse_prev_hash finalize_check_in sub_word check_finalize_tokens check_tok tok_of check_owner
    verify_full_chain check_genesis check_chain decide fin_set_head head_of
finalize_check_in-toy = refl

-- 150 slots later
abbrev pub ctx_5 : Context Table
ctx_5 = record ctx_4 { slot = 157 }

abbrev pub ctx_6 : Context Table
ctx_6 =
    value_or ctx_5 (settle toy_hash ledger toy_addresses serial_7 0 1 alice toy_settle_keys ctx_5)

pub settle-toy :
    settle toy_hash ledger toy_addresses serial_7 0 1 alice toy_settle_keys ctx_5 ≡ ok ctx_6
unfolding append_links start_check_in mint_coin absent find_coin genesis_state state_hash add_word
    commit put new_registry equals le_bytes of_le copy submission_of put_submission new_submission
    check_start check_start_tokens bond_amount pda_transfer parse_serial parse_value parse_owner
    checked_mul extend add_links last_state state_at check_link check_sig_format sig_commit_hash
    parse_prev_hash finalize_check_in sub_word check_finalize_tokens check_tok tok_of check_owner
    verify_full_chain check_genesis check_chain decide fin_set_head head_of settle settle_pay_out
    settle_other settle_allowance check_settle_tokens saturating_add checked_sub
settle-toy = refl

abbrev pub world_2 : World Table
world_2 = world_after world_1 serial_7 ctx_2

abbrev pub world_3 : World Table
world_3 = world_after world_2 serial_7 ctx_3

abbrev pub world_4 : World Table
world_4 = world_after world_3 serial_7 ctx_4

abbrev pub world_5 : World Table
world_5 = record world_4 { slot = 157 }

no_signer : {k : ℕ} {xs ys : Buffer} → ◌≡◌ {A = Buffer} (suc k ∷ xs) (0 ∷ ys) → ⊥
no_signer e = cc

pub world_1-Reached : Reached toy_hash ledger toy_addresses world_1
world_1-Reached =
    later world_0 world_1
      (initialised alice 254 toy_args toy_config (λ _. none) toy_table 7 init-toy)
      (mints world_0 world_1 alice serial_7 5 alice (toy_hash toy_state) (replicate 64 8) (10 ∷ [])
        mint_coin-toy)

find_coin-toy_1 : find_coin serial_7 world_1.coins ≡ some coin_1
unfolding append_links start_check_in mint_coin absent find_coin genesis_state state_hash add_word
    commit put new_registry equals le_bytes of_le copy submission_of put_submission new_submission
    check_start check_start_tokens bond_amount pda_transfer parse_serial parse_value parse_owner
    checked_mul extend add_links last_state state_at check_link check_sig_format sig_commit_hash
    parse_prev_hash finalize_check_in sub_word check_finalize_tokens check_tok tok_of check_owner
    verify_full_chain check_genesis check_chain decide fin_set_head head_of replace_coin
find_coin-toy_1 = refl

find_coin-toy_2 : find_coin serial_7 world_2.coins ≡ some ctx_2.coin
unfolding append_links start_check_in mint_coin absent find_coin genesis_state state_hash add_word
    commit put new_registry equals le_bytes of_le copy submission_of put_submission new_submission
    check_start check_start_tokens bond_amount pda_transfer parse_serial parse_value parse_owner
    checked_mul extend add_links last_state state_at check_link check_sig_format sig_commit_hash
    parse_prev_hash finalize_check_in sub_word check_finalize_tokens check_tok tok_of check_owner
    verify_full_chain check_genesis check_chain decide fin_set_head head_of replace_coin
find_coin-toy_2 = refl

find_coin-toy_3 : find_coin serial_7 world_3.coins ≡ some ctx_3.coin
unfolding append_links start_check_in mint_coin absent find_coin genesis_state state_hash add_word
    commit put new_registry equals le_bytes of_le copy submission_of put_submission new_submission
    check_start check_start_tokens bond_amount pda_transfer parse_serial parse_value parse_owner
    checked_mul extend add_links last_state state_at check_link check_sig_format sig_commit_hash
    parse_prev_hash finalize_check_in sub_word check_finalize_tokens check_tok tok_of check_owner
    verify_full_chain check_genesis check_chain decide fin_set_head head_of replace_coin
find_coin-toy_3 = refl

pub find_coin-toy : find_coin serial_7 world_5.coins ≡ some ctx_4.coin
unfolding append_links start_check_in mint_coin absent find_coin genesis_state state_hash add_word
    commit put new_registry equals le_bytes of_le copy submission_of put_submission new_submission
    check_start check_start_tokens bond_amount pda_transfer parse_serial parse_value parse_owner
    checked_mul extend add_links last_state state_at check_link check_sig_format sig_commit_hash
    parse_prev_hash finalize_check_in sub_word check_finalize_tokens check_tok tok_of check_owner
    verify_full_chain check_genesis check_chain decide fin_set_head head_of replace_coin
find_coin-toy = refl

pub starts-toy : Acts toy_hash ledger toy_addresses serial_7 ctx_1 ctx_2
starts-toy = starts 0 toy_state carol (11 ∷ []) (12 ∷ []) (λ e. no_signer e) start_check_in-toy

same_ctx_2 : context_of world_2 ctx_2.coin ≡ ctx_2
unfolding append_links start_check_in mint_coin absent find_coin genesis_state state_hash add_word
    commit put new_registry equals le_bytes of_le copy submission_of put_submission new_submission
    check_start check_start_tokens bond_amount pda_transfer parse_serial parse_value parse_owner
    checked_mul extend add_links last_state state_at check_link check_sig_format sig_commit_hash
    parse_prev_hash finalize_check_in sub_word check_finalize_tokens check_tok tok_of check_owner
    verify_full_chain check_genesis check_chain decide fin_set_head head_of replace_coin
same_ctx_2 = refl

same_ctx_3 : context_of world_3 ctx_3.coin ≡ ctx_3
unfolding append_links start_check_in mint_coin absent find_coin genesis_state state_hash add_word
    commit put new_registry equals le_bytes of_le copy submission_of put_submission new_submission
    check_start check_start_tokens bond_amount pda_transfer parse_serial parse_value parse_owner
    checked_mul extend add_links last_state state_at check_link check_sig_format sig_commit_hash
    parse_prev_hash finalize_check_in sub_word check_finalize_tokens check_tok tok_of check_owner
    verify_full_chain check_genesis check_chain decide fin_set_head head_of replace_coin
same_ctx_3 = refl

pub same_ctx_5 : context_of world_5 ctx_4.coin ≡ ctx_5
unfolding append_links start_check_in mint_coin absent find_coin genesis_state state_hash add_word
    commit put new_registry equals le_bytes of_le copy submission_of put_submission new_submission
    check_start check_start_tokens bond_amount pda_transfer parse_serial parse_value parse_owner
    checked_mul extend add_links last_state state_at check_link check_sig_format sig_commit_hash
    parse_prev_hash finalize_check_in sub_word check_finalize_tokens check_tok tok_of check_owner
    verify_full_chain check_genesis check_chain decide fin_set_head head_of replace_coin
same_ctx_5 = refl

pub world_3-Reached : Reached toy_hash ledger toy_addresses world_3
world_3-Reached =
    let second =
      later world_1 world_2 world_1-Reached
        (on_coin world_1 serial_7 coin_1 ctx_2 find_coin-toy_1 starts-toy) in
    later world_2 world_3 second (
      on_coin world_2 serial_7 ctx_2.coin ctx_3 find_coin-toy_2 (
        subst (λ c. Acts toy_hash ledger toy_addresses serial_7 c ctx_3) (sym same_ctx_2)
          (appends 0 alice toy_links (toy_hash bob_state) append_links-toy)))

later_slot : world_4.slot ≤ 157
unfolding append_links start_check_in mint_coin absent find_coin genesis_state state_hash add_word
    commit put new_registry equals le_bytes of_le copy submission_of put_submission new_submission
    check_start check_start_tokens bond_amount pda_transfer parse_serial parse_value parse_owner
    checked_mul extend add_links last_state state_at check_link check_sig_format sig_commit_hash
    parse_prev_hash finalize_check_in sub_word check_finalize_tokens check_tok tok_of check_owner
    verify_full_chain check_genesis check_chain decide fin_set_head head_of replace_coin
later_slot = omega arith

pub world_5-Reached : Reached toy_hash ledger toy_addresses world_5
world_5-Reached =
    let fourth = later world_3 world_4 world_3-Reached (
      on_coin world_3 serial_7 ctx_3.coin ctx_4 find_coin-toy_3 (
        subst (λ c. Acts toy_hash ledger toy_addresses serial_7 c ctx_4) (sym same_ctx_3)
          (finalizes 0 1 alice toy_finalize_keys finalize_check_in-toy))) in
    later world_4 world_5 fourth (passes world_4 157 later_slot)
