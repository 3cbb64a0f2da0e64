-- ===== src/Layout/RoundTrip.antt =====
-- A state of sdk/src/layout.ts is its 104 bytes, both ways, and what a transfer keeps and changes.
use offline_bearer_protocol.Buffer.{Buffer, IsByte, write_uint}
use offline_bearer_protocol.Layout.{CoinState, encode_state, decode_state, next_state, state_hash}
use offline_bearer_protocol.Layout.Encoding.{
  IsState, state_bytes, state_of, encode_state-eq, decode_state-bytes, decode_state-eq,
  state_of-IsState, state_bytes-state_of,
}
use offline_bearer_protocol.Prelude.{◌≡◌, ap, ◌∙◌, length, ok, ◌>>=◌, arith, All, ◌↔◌}

-- `encodeState` returns a buffer exactly when serial, owner and prevHash have 32 bytes and the
-- value fits 64 bits.
pub encode_state_iff :
    (c : CoinState)
    → ((b : Buffer) × (encode_state c.serial c.value c.owner c.prev_hash ≡ ok b)) ↔ IsState c
encode_state_iff c = (λ e. sizes e.1, λ v. (state_bytes c, encode_state-eq c v))
  where
    sizes : {b : Buffer} → encode_state c.serial c.value c.owner c.prev_hash ≡ ok b → IsState c
    sizes e = unfold encode_state write_uint in ground arith

-- Of a state whose serial, owner and prevHash have 32 bytes and whose value fits 64 bits,
-- `decodeState` returns the fields that `encodeState` was given.
pub decode-encode :
    (c : CoinState)
    → IsState c
    → (encode_state c.serial c.value c.owner c.prev_hash >>= decode_state) ≡ ok c
decode-encode c v = rw (encode_state-eq c v) (decode_state-bytes c v)

-- Any 104 bytes are a state: what `decodeState` reads from them, `encodeState` writes back.
pub encode-decode :
    (s : Buffer)
    → length s ≡ 104
    → All IsByte s
    → (decode_state s >>= λ c. encode_state c.serial c.value c.owner c.prev_hash) ≡ ok s
encode-decode s h bytes = rw (decode_state-eq s h) (
    encode_state-eq (state_of s) (state_of-IsState s h bytes)
    ∙ ap ok (state_bytes-state_of s h bytes))

module _ (sha256 : Buffer → Buffer) (digest_32 : (b : Buffer) → length (sha256 b) ≡ 32) where
  -- The state that a transfer makes.
  unfoldable pub handed_on : Buffer → Buffer → CoinState
  handed_on prev new_owner = record (state_of prev) { owner = new_owner; prev_hash = sha256 prev }

  module _ (prev new_owner : Buffer) (h : length prev ≡ 104) (bytes : All IsByte prev)
      (h32 : length new_owner ≡ 32) where
    pub handed_on-IsState : IsState (handed_on prev new_owner)
    unfolding handed_on
    handed_on-IsState =
        let v = state_of-IsState prev h bytes in
        record {
          serial_32 = v.serial_32;
          value_u64 = v.value_u64;
          owner_32 = h32;
          prev_hash_32 = digest_32 prev;
        }

    pub next_state-eq :
        next_state sha256 prev new_owner ≡ ok (state_bytes (handed_on prev new_owner))
    unfolding next_state state_hash handed_on
    next_state-eq =
        rw (decode_state-eq prev h, h)
          (encode_state-eq (handed_on prev new_owner) handed_on-IsState)

    -- With a hash function of 32 bytes, a transfer of a state of 104 bytes to a new owner of 32
    -- bytes keeps the serial and the value, sets the owner, and chains the hash of the state
    -- before.
    pub decode-next_state :
        (next_state sha256 prev new_owner >>= decode_state)
        ≡ (decode_state prev >>= λ p. ok (record p { owner = new_owner; prev_hash = sha256 prev }))
    unfolding handed_on
    decode-next_state =
        rw (next_state-eq, decode_state-eq prev h)
          (decode_state-bytes (handed_on prev new_owner) handed_on-IsState)
