-- ===== src/Program/State/Agree.antt =====
-- The SDK's layout.ts and the program's state.rs build and read the same bytes.
use offline_bearer_protocol.Buffer.{Buffer, IsByte, alloc, copy, subarray, le_bytes, of_le}
use offline_bearer_protocol.Buffer.Fill.{Starts-alloc, Starts-take, Starts-put, Starts-full}
use offline_bearer_protocol.Layout
use offline_bearer_protocol.Layout.{CoinState}
use offline_bearer_protocol.Layout.Encoding.{
  state_bytes, state_of, decode_state-eq, encode_state-eq, word-state_of,
}
use offline_bearer_protocol.Layout.RoundTrip.{handed_on, next_state-eq}
use offline_bearer_protocol.Buffer.Words.{length-le_bytes}
use offline_bearer_protocol.Buffer.Cuts.{length-copy, copy-append_le}
use offline_bearer_protocol.Program.State.{
  genesis_state, parse_owner, parse_value, parse_serial, parse_prev_hash, next_state,
}
use offline_bearer_protocol.Prelude.{
  ℕ, ◌^◌, ◌<◌, ◌≡◌, refl, sym, ap, ◌∙◌, length, ok, arith, All, length-append, length-take,
  append_assoc, append-nil, take, ◌++◌, [], take-add,
}

-- On 104 bytes the SDK's `decodeState` returns what the program's four parsers return.
pub parse-decode_state :
    (s : Buffer)
    → length s ≡ 104
    → Layout.decode_state s
      ≡ ok (record {
        serial = parse_serial s;
        value = parse_value s;
        owner = parse_owner s;
        prev_hash = parse_prev_hash s;
      })
unfolding parse_serial parse_value parse_owner parse_prev_hash state_of
parse-decode_state s h = decode_state-eq s h

-- On a serial and an owner of 32 bytes and a value of 64 bits, the sizes of the program's types, both build the same genesis state.
pub genesis_state-agrees :
    (serial owner : Buffer) (value : ℕ)
    → length serial ≡ 32
    → length owner ≡ 32
    → value < 256 ^ 8
    → Layout.genesis_state serial value owner ≡ ok (genesis_state serial value owner)
unfolding Layout.genesis_state genesis_state state_bytes
genesis_state-agrees serial owner value hs ho hv =
    let c : CoinState = record {
      serial = serial;
      value = value;
      owner = owner;
      prev_hash = alloc 32;
    } in
    encode_state-eq c
      (record { serial_32 = hs; value_u64 = hv; owner_32 = ho; prev_hash_32 = refl })
    ∙ ap ok (sym built)
  where
    le : Buffer
    le = le_bytes 8 value

    le_8 : length le ≡ 8
    le_8 = length-le_bytes 8 value

    -- the first 72 bytes, which the three writes fill
    fields : copy owner (copy le (copy serial (alloc 72) 0) 32) 40 ≡ (serial ++ le) ++ owner
    fields =
        let s0 = Starts-put (Starts-alloc 72) 40 0 serial refl (omega (arith, hs)) in
        let s1 = Starts-put s0 32 32 le (sym hs) (omega (arith, le_8)) in
        Starts-full (
          Starts-put s1 0 40 owner (omega (arith, hs, le_8, length-append serial le))
            (omega (arith, ho)))

    built :
        copy owner (copy le (copy serial (alloc 104) 0) 32) 40
        ≡ serial ++ (le ++ (owner ++ (alloc 32 ++ [])))
    built =
        let size1 : length (copy serial (alloc 72) 0) ≡ 72 =
          length-copy serial (alloc 72) 0 (omega arith) in
        let size2 : length (copy le (copy serial (alloc 72) 0) 32) ≡ 72 =
          length-copy le (copy serial (alloc 72) 0) 32 (omega (arith, size1)) ∙ size1 in
        ap (λ b. copy owner (copy le b 32) 40)
          (copy-append_le serial (alloc 72) (alloc 32) 0 (omega (arith, hs)))
        ∙ ap (λ b. copy owner b 40)
            (copy-append_le le (copy serial (alloc 72) 0) (alloc 32) 32
              (omega (arith, size1, le_8)))
        ∙ copy-append_le owner (copy le (copy serial (alloc 72) 0) 32) (alloc 32) 40
            (omega (arith, size2, ho))
        ∙ ap (λ b. b ++ alloc 32) fields
        ∙ simp (append_assoc, append-nil)

module _ (hash : Buffer → Buffer) (digest_32 : (b : Buffer) → length (hash b) ≡ 32) where
  -- With the same hash function of 32 bytes, both hand a state of 104 bytes on to a new owner of 32
  -- bytes as the same next state.
  pub next_state-agrees :
      (prev new_owner : Buffer)
      → length prev ≡ 104
      → All IsByte prev
      → length new_owner ≡ 32
      → Layout.next_state hash prev new_owner ≡ ok (next_state hash prev new_owner)
  unfolding next_state state_bytes handed_on state_of
  next_state-agrees prev new_owner h bytes h32 =
      next_state-eq hash digest_32 prev new_owner h bytes h32 ∙ ap ok (sym built)
    where
      built :
          copy (hash prev) (copy new_owner prev 40) 72
          ≡ subarray prev 0 32
            ++ (le_bytes 8 (of_le (subarray prev 32 40)) ++ (new_owner ++ (hash prev ++ [])))
      built =
          let s0 = Starts-take 40 64 prev h in
          let s1 =
            Starts-put s0 32 40 new_owner (omega (arith, h, length-take 40 prev))
              (omega (arith, h32)) in
          let at_hash : 72 ≡ length (take 40 prev ++ new_owner) =
            omega (arith, h, h32, length-take 40 prev, length-append (take 40 prev) new_owner) in
          Starts-full (Starts-put s1 0 72 (hash prev) at_hash (omega (arith, digest_32 prev)))
          ∙ rw (word-state_of prev h bytes, take-add 32 8 prev) (simp (append_assoc, append-nil))
