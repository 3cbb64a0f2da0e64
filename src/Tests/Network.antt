-- ===== src/Tests/Network.antt =====
-- Tests of the instructions, of the client and of the reads from the endpoint.
use offline_bearer_protocol.Buffer.{Buffer, le_bytes}
use offline_bearer_protocol.Client.{Connection, try_send, send}
use offline_bearer_protocol.Client.Retries.{Ends, send-Ends}
use offline_bearer_protocol.Instructions.Append.{AppendPlan, append_links_ix_pair}
use offline_bearer_protocol.Instructions.Append.Pair.{Verifies, append_links_ix_pair-Verifies}
use offline_bearer_protocol.Precompile.{OffsetRecord, ed25519_verify_ix}
use offline_bearer_protocol.Precompile.RoundTrip.{record_bytes, ed25519_verify_ix-eq}
use offline_bearer_protocol.Prelude.Text.{utf8}
use offline_bearer_protocol.Prelude.{
  ℕ, [], ◌∷◌, ◌++◌, ◌≡◌, refl, flatten, map, replicate, none, some, true, ok, err, ltb, arith,
  if◌then◌else◌,
}
use offline_bearer_protocol.Readers.Fetch.{Reply, fetch_data, Answers, fetch_data-Answers}
use offline_bearer_protocol.Solana.{TransactionInstruction}
use offline_bearer_protocol.Tests.{toy_hash, length-toy_hash, serial_7, alice, toy_state, toy_net}

abbrev toy_plan : AppendPlan
toy_plan = record {
  head_owner = alice;
  links =
      record { state = toy_state; sig = replicate 64 9 }
      ∷ record { state = toy_state; sig = replicate 64 8 }
      ∷ [];
  last_hash = toy_hash toy_state;
}

append_links_ix_pair-Verifies_example :
    (pair : TransactionInstruction × TransactionInstruction) × (append_links_ix_pair toy_hash
        toy_net serial_7 0 toy_plan
      ≡ ok pair)
    × Verifies toy_net toy_plan pair
append_links_ix_pair-Verifies_example =
    append_links_ix_pair-Verifies toy_hash toy_net serial_7 0 toy_plan (record {
      some_links = omega arith;
      few_links = omega arith;
      links_sized = (
        record { state_size = refl; sig_size = refl },
        (record { state_size = refl; sig_size = refl }, tt),
      );
      serial_size = refl;
      owner_size = refl;
      hash_size = length-toy_hash toy_state;
      digests = length-toy_hash;
    })

abbrev toy_record : OffsetRecord
toy_record = record {
  sig_off = 180;
  sig_ix = 1;
  pub_off = 40;
  pub_ix = 1;
  msg_off = 244;
  msg_size = 32;
  msg_ix = 1;
}

ed25519_verify_ix-eq_example :
    ed25519_verify_ix toy_net (toy_record ∷ [])
    ≡ ok (record {
      program = replicate 32 12;
      keys = [];
      content = le_bytes 2 1 ++ flatten (map record_bytes (toy_record ∷ []));
    })
ed25519_verify_ix-eq_example =
    ed25519_verify_ix-eq toy_net (toy_record ∷ []) (omega arith) (omega arith) (
      record {
        sig_off_u16 = omega arith;
        sig_ix_u16 = omega arith;
        pub_off_u16 = omega arith;
        pub_ix_u16 = omega arith;
        msg_off_u16 = omega arith;
        msg_size_u16 = omega arith;
        msg_ix_u16 = omega arith;
      },
      tt,
    )

-- An endpoint whose first two attempts fail for the rate.
abbrev toy_conn : Connection
toy_conn = record {
  get_latest_blockhash =
      λ k. if ltb k 2 then err (utf8 "Error: 429 Too Many Requests") else ok (replicate 32 3);
  serialize = λ ix blockhash. ok blockhash;
  simulate_transaction = λ k raw. ok (record { error = none; units_consumed = some 700 });
  send_raw_transaction = λ k raw. ok (utf8 "signature");
  confirm_transaction = λ k signature blockhash. ok true;
}

send-Ends_example :
    (k : ℕ) × Ends toy_conn (utf8 "ping") [] 10 0 k
    × (send toy_conn (utf8 "ping") [] 10 10 ≡ some (try_send toy_conn (utf8 "ping") [] k))
send-Ends_example = send-Ends toy_conn (utf8 "ping") [] 10 10 (omega arith)

abbrev toy_info : Buffer → ℕ → Reply
toy_info address k = if ltb k 3 then err (utf8 "Error: Rate Limit reached") else ok none

fetch_data-Answers_example :
    (k : ℕ) × Answers (toy_info alice) 0 k
    × (fetch_data toy_net toy_info alice ≡ some (toy_info alice k))
fetch_data-Answers_example = fetch_data-Answers toy_net toy_info alice
