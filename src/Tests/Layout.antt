-- ===== src/Tests/Layout.antt =====
-- Tests of the state layout, in the SDK and in the program.
use offline_bearer_protocol.Buffer.{Buffer, alloc}
use offline_bearer_protocol.Layout
use offline_bearer_protocol.Layout.{CoinState}
use offline_bearer_protocol.Layout.Encoding.{IsState}
use offline_bearer_protocol.Layout.RoundTrip.{
  decode-encode, encode_state_iff, encode-decode, decode-next_state,
}
use offline_bearer_protocol.Prelude.{◌≡◌, ◌↔◌, refl, ok, ◌>>=◌, arith}
use offline_bearer_protocol.Program.State
use offline_bearer_protocol.Program.State.Agree.{
  parse-decode_state, genesis_state-agrees, next_state-agrees,
}
use offline_bearer_protocol.Tests.{
  toy_hash, length-toy_hash, serial_7, alice, bob, toy_state, toy_state-IsByte, toy_fields,
}

toy_fields-IsState : IsState toy_fields
toy_fields-IsState = record {
  serial_32 = refl;
  value_u64 = omega arith;
  owner_32 = refl;
  prev_hash_32 = refl;
}

decode-encode_example :
    (Layout.encode_state serial_7 5 alice (alloc 32) >>= Layout.decode_state) ≡ ok toy_fields
decode-encode_example = decode-encode toy_fields toy_fields-IsState

encode_state_iff_example :
    ((b : Buffer) × (Layout.encode_state serial_7 5 alice (alloc 32) ≡ ok b)) ↔ IsState toy_fields
encode_state_iff_example = encode_state_iff toy_fields

encode-decode_example :
    (Layout.decode_state toy_state >>= λ c.
    Layout.encode_state c.serial c.value c.owner c.prev_hash)
    ≡ ok toy_state
encode-decode_example = encode-decode toy_state refl toy_state-IsByte

decode-next_state_example : (Layout.next_state toy_hash toy_state bob >>= Layout.decode_state) ≡ (
    Layout.decode_state toy_state >>= λ p.
    ok (record p { owner = bob; prev_hash = toy_hash toy_state }))
decode-next_state_example =
    decode-next_state toy_hash length-toy_hash toy_state bob refl toy_state-IsByte refl

parse-decode_state_example :
    Layout.decode_state toy_state
    ≡ ok (record {
      serial = State.parse_serial toy_state;
      value = State.parse_value toy_state;
      owner = State.parse_owner toy_state;
      prev_hash = State.parse_prev_hash toy_state;
    })
parse-decode_state_example = parse-decode_state toy_state refl

genesis_state-agrees_example :
    Layout.genesis_state serial_7 5 alice ≡ ok (State.genesis_state serial_7 5 alice)
genesis_state-agrees_example = genesis_state-agrees serial_7 alice 5 refl refl (omega arith)

next_state-agrees_example :
    Layout.next_state toy_hash toy_state bob ≡ ok (State.next_state toy_hash toy_state bob)
next_state-agrees_example =
    next_state-agrees toy_hash length-toy_hash toy_state bob refl toy_state-IsByte refl
