-- ===== src/Program/State.antt =====
-- The module `state_ops` of programs/obp-core/src/state.rs: a state is an array of 104 bytes.
-- `hash` stands for sha256 of the package solana_sha256_hasher.
pub mod Agree
use offline_bearer_protocol.Buffer.{Buffer, alloc, copy, subarray, le_bytes, of_le}
use offline_bearer_protocol.Prelude.{ℕ}

-- `s[at..at + source.len()].copy_from_slice(source)`
abbrev write_slice : Buffer → ℕ → Buffer → Buffer
write_slice s at source = copy source s at

unfoldable pub genesis_state : Buffer → ℕ → Buffer → Buffer
genesis_state serial value owner =
    let s0 = write_slice (alloc 104) 0 serial in
    let s1 = write_slice s0 32 (le_bytes 8 value) in write_slice s1 40 owner

unfoldable pub parse_owner : Buffer → Buffer
parse_owner state = subarray state 40 72

unfoldable pub parse_value : Buffer → ℕ
parse_value state = of_le (subarray state 32 40)

unfoldable pub parse_serial : Buffer → Buffer
parse_serial state = subarray state 0 32

unfoldable pub parse_prev_hash : Buffer → Buffer
parse_prev_hash state = subarray state 72 104

module _ (hash : Buffer → Buffer) where
  unfoldable pub state_hash : Buffer → Buffer
  state_hash state = hash state

  unfoldable pub next_state : Buffer → Buffer → Buffer
  unfolding state_hash
  next_state prev new_owner =
      let s = write_slice prev 40 new_owner in write_slice s 72 (state_hash prev)
