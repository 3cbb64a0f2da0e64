-- ===== src/Layout.antt =====
-- sdk/src/layout.ts: a state of a coin's chain, 104 bytes. `asBuf` only changes the type of its
-- argument; `sha256` is the hash function of a package.
pub mod Encoding
pub mod RoundTrip
use offline_bearer_protocol.Buffer.{Buffer, alloc, copy, subarray, write_uint, read_uint}
use offline_bearer_protocol.Constants.{state_length, serial_length}
use offline_bearer_protocol.Errors.{Error, state_size, serial_size, owner_size, prev_hash_size}
use offline_bearer_protocol.Prelude.{ℕ, length, Result, ok, guard, ◌>>=◌, ◌>>◌, ◌==◌}

pub record CoinState : Type 0 where
  pub serial : Buffer
  pub value : ℕ
  pub owner : Buffer
  pub prev_hash : Buffer

unfoldable pub encode_state : Buffer → ℕ → Buffer → Buffer → Result Error Buffer
encode_state serial value owner prev_hash = do
  guard (length serial == serial_length) serial_size
  guard (length owner == 32) owner_size
  guard (length prev_hash == 32) prev_hash_size
  let s = copy serial (alloc state_length) 0
  s' ← write_uint 8 value 32 s
  ok (copy prev_hash (copy owner s' 40) 72)

unfoldable pub decode_state : Buffer → Result Error CoinState
decode_state s = do
  guard (length s == state_length) state_size
  value ← read_uint 8 32 s
  ok (record {
    serial = subarray s 0 32;
    value = value;
    owner = subarray s 40 72;
    prev_hash = subarray s 72 104;
  })

unfoldable pub genesis_state : Buffer → ℕ → Buffer → Result Error Buffer
genesis_state serial value owner = encode_state serial value owner (alloc 32)

unfoldable pub owner_of : Buffer → Result Error Buffer
owner_of state = do s ← decode_state state; ok s.owner

unfoldable serial_of : Buffer → Result Error Buffer
serial_of state = do s ← decode_state state; ok s.serial

unfoldable value_of : Buffer → Result Error ℕ
value_of state = do s ← decode_state state; ok s.value

module _ (sha256 : Buffer → Buffer) where
  unfoldable pub state_hash : Buffer → Result Error Buffer
  state_hash state = do guard (length state == state_length) state_size; ok (sha256 state)

  unfoldable pub next_state : Buffer → Buffer → Result Error Buffer
  next_state prev new_owner = do
    p ← decode_state prev
    h ← state_hash prev
    encode_state p.serial p.value new_owner h
