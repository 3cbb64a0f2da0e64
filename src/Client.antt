-- ===== src/Client.antt =====
-- sdk/src/client.ts: `ObpClient.send`, which simulates, sends and confirms a transaction, and tries
-- again when the endpoint limits the rate. The endpoint is a parameter: what each call answers at
-- the attempt with a number, or the text of what it throws. The waits between attempts and the log
-- are left out.
pub mod Retries
use offline_bearer_protocol.Buffer.{Buffer}
use offline_bearer_protocol.Prelude.Text.{utf8, to_lower, includes}
use offline_bearer_protocol.Prelude.{
  ℕ, zero, suc, ◌+◌, List, ◌++◌, Option, none, some, Bool, not, ◌||◌, leb, Result, ok, err, guard,
  ◌>>=◌, ◌>>◌, if◌then◌else◌,
}
use offline_bearer_protocol.Solana.{TransactionInstruction}

abbrev pub Text : Type 0
Text = List ℕ

pub record Simulation : Type 0 where
  pub error : Option Text
  pub units_consumed : Option ℕ

pub record SendResult : Type 0 where
  pub signature : Text
  pub units_consumed : Option ℕ

-- The calls of @solana/web3.js. `serialize` is the signing and the serialisation of the
-- transaction with a blockhash; its signers are fixed.
pub record Connection : Type 0 where
  pub get_latest_blockhash : ℕ → Result Text Buffer
  pub serialize : List TransactionInstruction → Buffer → Result Text Buffer
  pub simulate_transaction : ℕ → Buffer → Result Text Simulation
  pub send_raw_transaction : ℕ → Buffer → Result Text Text
  pub confirm_transaction : ℕ → Text → Buffer → Result Text Bool

unfoldable pub no_error : Text → Option Text → Result Text Bool
no_error label none = ok Bool.true
no_error label (some e) = err (utf8 "Error: " ++ label ++ utf8 ": simulate-fout: " ++ e)

unfoldable pub retryable : Text → Bool
retryable msg = includes msg (utf8 "429") || includes (to_lower msg) (utf8 "blockhashnotfound")

-- Out of the loop with the result or the error, or on with the next attempt: the `return` and the
-- `catch`, where `attempts` counts the failed ones.
unfoldable pub after_attempt :
    ℕ
    → ℕ
    → Option (Result Text SendResult)
    → Result Text SendResult
    → Option (Result Text SendResult)
unfolding retryable
after_attempt max_retries attempts next (ok r) = some (ok r)
after_attempt max_retries attempts next (err msg) =
    if leb max_retries attempts || not (retryable msg) then some (err msg) else next

module _ (conn : Connection) (label : Text) (ix : List TransactionInstruction) where
  -- The body of the `try`, at the attempt with this number.
  unfoldable pub try_send : ℕ → Result Text SendResult
  unfolding no_error
  try_send k = do
    blockhash ← conn.get_latest_blockhash k
    raw ← conn.serialize ix blockhash
    sim ← conn.simulate_transaction k raw
    _ ← no_error label sim.error
    signature ← conn.send_raw_transaction k raw
    _ ← conn.confirm_transaction k signature blockhash
    ok (record { signature = signature; units_consumed = sim.units_consumed })

  -- The loop; `none` is for fuel that runs out.
  unfoldable pub send_from : ℕ → ℕ → ℕ → Option (Result Text SendResult)
  unfolding try_send after_attempt
  send_from max_retries zero attempts = none
  send_from max_retries (suc fuel) attempts =
      after_attempt max_retries (attempts + 1) (send_from max_retries fuel (attempts + 1))
        (try_send attempts)

  unfoldable pub send : ℕ → ℕ → Option (Result Text SendResult)
  unfolding send_from
  send max_retries fuel = send_from max_retries fuel 0

-- `opts.max429Retries ?? 10`
unfoldable max_retries_of : Option ℕ → ℕ
max_retries_of none = 10
max_retries_of (some n) = n
