-- ===== src/Tests/Accounts.antt =====
-- Tests of the readers of the program's accounts.
use offline_bearer_protocol.Buffer.{subarray}
use offline_bearer_protocol.Readers.Head.{
  on_chain_head, parse_head-written, on_chain_allowance, parse_allowance-written,
}
use offline_bearer_protocol.Program.Accounts.{
  HeadRegistry, head_registry_parts, Allowance, allowance_parts,
}
use offline_bearer_protocol.Readers.{parse_head, parse_allowance}
use offline_bearer_protocol.Prelude.{true}
use offline_bearer_protocol.Prelude.{[], ◌∷◌, ◌≡◌, refl, flatten, replicate, ok, arith}
use offline_bearer_protocol.Program.Accounts.{
  Config, config_parts, MintRegistry, registry_parts, Submission, submission_parts,
}
use offline_bearer_protocol.Readers.{
  OnChainSubmission, parse_config, parse_registry, parse_submission,
}
use offline_bearer_protocol.Readers.Agree.{
  on_chain_config, parse_config-written, on_chain_registry, parse_registry-written,
}
use offline_bearer_protocol.Readers.Submission.{
  on_chain_submission, parse_submission-written, parse_submission-old,
}
use offline_bearer_protocol.Tests.{serial_7, alice, bob, toy_state}

abbrev toy_config : Config
toy_config = record {
  mint_authority = alice;
  vault_mint = bob;
  bond_multiplier_bps = 10000;
  challenge_window_slots = 150;
  max_links_per_tx = 3;
  default_allowance = 1000;
  total_unspent_supply = 5;
  sig_scheme = 0;
  bump = 254;
}

parse_config-written_example :
    parse_config (flatten (config_parts (replicate 8 9) toy_config))
    ≡ ok (on_chain_config toy_config)
parse_config-written_example = parse_config-written (replicate 8 9) toy_config (record {
  disc_size = refl;
  mint_authority = refl;
  vault_mint = refl;
  bond_multiplier_bps = omega arith;
  challenge_window_slots = omega arith;
  max_links_per_tx = omega arith;
  default_allowance = omega arith;
  total_unspent_supply = omega arith;
  sig_scheme = omega arith;
  bump = omega arith;
})

abbrev toy_registry : MintRegistry
toy_registry = record {
  serial = serial_7;
  value = 5;
  genesis_state_hash = replicate 32 6;
  mint_slot = 77;
  mint_tx = replicate 64 8;
  recipient = alice;
  status = 0;
  submissions_count = 1;
  bump = 253;
}

parse_registry-written_example :
    parse_registry (flatten (registry_parts (replicate 8 9) toy_registry))
    ≡ ok (on_chain_registry toy_registry)
parse_registry-written_example = parse_registry-written (replicate 8 9) toy_registry (record {
  disc_size = refl;
  serial = refl;
  value = omega arith;
  genesis_state_hash = refl;
  mint_slot = omega arith;
  mint_tx = refl;
  recipient = refl;
  status = omega arith;
  submissions_count = omega arith;
  bump = omega arith;
})

-- Two of the four states are in use.
abbrev toy_submission : Submission
toy_submission = record {
  serial = serial_7;
  attempt = 1;
  checker = alice;
  final_owner = bob;
  links_count = 1;
  started_slot = 80;
  finalized_slot = 0;
  status = 0;
  states_len = 2;
  states = toy_state ∷ toy_state ∷ replicate 104 0 ∷ replicate 104 0 ∷ [];
  sig_commits = replicate 32 0 ∷ replicate 32 5 ∷ replicate 32 0 ∷ replicate 32 0 ∷ [];
  bump = 252;
}

parse_submission-written_example :
    parse_submission (flatten (submission_parts (replicate 8 9) toy_submission))
    ≡ ok (on_chain_submission toy_submission)
parse_submission-written_example = parse_submission-written (replicate 8 9) toy_submission (record {
  disc_size = refl;
  serial = refl;
  attempt = omega arith;
  checker = refl;
  final_owner = refl;
  links_count = omega arith;
  started_slot = omega arith;
  finalized_slot = omega arith;
  status = omega arith;
  states_len = omega arith;
  states_count = refl;
  states_sized = (refl, (refl, (refl, (refl, tt))));
  sig_commits_count = refl;
  sig_commits_sized = (refl, (refl, (refl, (refl, tt))));
  bump = omega arith;
})

parse_submission-old_example :
    (s : OnChainSubmission) × (parse_submission (replicate 543 1) ≡ ok s)
    × (s.sig_commits
        ≡ subarray (replicate 543 1) 414 446
          ∷ subarray (replicate 543 1) 446 478
          ∷ subarray (replicate 543 1) 478 510
          ∷ [])
parse_submission-old_example = parse_submission-old (replicate 543 1) refl

abbrev toy_head : HeadRegistry
toy_head = record {
  set = true;
  head_state = toy_state;
  head_attempt = 1;
  head_states_len = 2;
  pending_since_slot = 90;
  bump = 251;
}

parse_head-written_example :
    parse_head (flatten (head_registry_parts (replicate 8 9) toy_head))
    ≡ ok (on_chain_head toy_head)
parse_head-written_example = parse_head-written (replicate 8 9) toy_head (record {
  disc_size = refl;
  head_state = refl;
  head_attempt = omega arith;
  head_states_len = omega arith;
  pending_since_slot = omega arith;
  bump = omega arith;
})

abbrev toy_allowance : Allowance
toy_allowance = record { cap = 1000; committed = 5; initialized = true; bump = 250 }

parse_allowance-written_example :
    parse_allowance (flatten (allowance_parts (replicate 8 9) toy_allowance))
    ≡ ok (on_chain_allowance toy_allowance)
parse_allowance-written_example =
    parse_allowance-written (replicate 8 9) toy_allowance
      (record { disc_size = refl; cap = omega arith; committed = omega arith; bump = omega arith })
