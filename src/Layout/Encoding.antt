-- ===== src/Layout/Encoding.antt =====
-- What the functions of sdk/src/layout.ts write and read, as the parts of a state.
use offline_bearer_protocol.Buffer.{
  Buffer, IsByte, alloc, copy, subarray, le_bytes, of_le, read_uint,
}
use offline_bearer_protocol.Buffer.Fill.{
  Starts, Starts-alloc, Starts-put, write_uint-Starts, Starts-write, Starts-full, subarray-part,
  read_uint-part, length-flatten,
}
use offline_bearer_protocol.Buffer.Words.{
  length-le_bytes, read_uint-ok, of_le-lt, le_bytes-of_le, of_le-le_bytes,
}
use offline_bearer_protocol.Layout.{CoinState, encode_state, decode_state}
use offline_bearer_protocol.Prelude.{
  ◌^◌, ◌<◌, ◌≡◌, refl, sym, ap, ◌∙◌, List, [], ◌∷◌, ◌++◌, length, take, drop, flatten, ok, arith,
  append_assoc, append-nil, take_all, take-append-drop, drop-add, length-take, length-drop,
  All-take, All-drop, All, length-append,
}

-- The sizes that `encodeState` asks for.
pub record IsState (c : CoinState) : Type 0 where
  pub serial_32 : length c.serial ≡ 32
  pub value_u64 : c.value < 256 ^ 8
  pub owner_32 : length c.owner ≡ 32
  pub prev_hash_32 : length c.prev_hash ≡ 32

abbrev pub state_parts : CoinState → List Buffer
state_parts c = c.serial ∷ le_bytes 8 c.value ∷ c.owner ∷ c.prev_hash ∷ []

unfoldable pub state_bytes : CoinState → Buffer
state_bytes c = flatten (state_parts c)

module _ (c : CoinState) (v : IsState c) where
  pub length-state_bytes : length (state_bytes c) ≡ 104
  unfolding state_bytes
  length-state_bytes =
      length-flatten (state_parts c)
      ∙ omega (arith, length-le_bytes 8 c.value, v.serial_32, v.owner_32, v.prev_hash_32)

  serial_put : Starts c.serial 72 (copy c.serial (alloc 104) 0)
  serial_put = Starts-put (Starts-alloc 104) 72 0 c.serial refl (omega (arith, v.serial_32))

  value_put :
      Starts
        (c.serial ++ le_bytes 8 c.value)
        64
        (copy (le_bytes 8 c.value) (copy c.serial (alloc 104) 0) 32)
  value_put = Starts-write serial_put 8 c.value 64 32 (sym v.serial_32) (omega arith)

  all_put :
      copy c.prev_hash
        (copy c.owner (copy (le_bytes 8 c.value) (copy c.serial (alloc 104) 0) 32) 40)
        72
      ≡ state_bytes c
  unfolding state_bytes
  all_put =
      let le = le_bytes 8 c.value in
      let at_owner : 40 ≡ length (c.serial ++ le) =
        omega (arith, v.serial_32, length-le_bytes 8 c.value, length-append c.serial le) in
      let owner_put = Starts-put value_put 32 40 c.owner at_owner (omega (arith, v.owner_32)) in
      let at_prev : 72 ≡ length ((c.serial ++ le) ++ c.owner) =
        omega (arith, v.owner_32, at_owner, length-append (c.serial ++ le) c.owner) in
      Starts-full (Starts-put owner_put 0 72 c.prev_hash at_prev (omega (arith, v.prev_hash_32)))
      ∙ simp (append_assoc, append-nil)

  -- On fields of the right size `encodeState` writes the four parts, one behind the other.
  pub encode_state-eq : encode_state c.serial c.value c.owner c.prev_hash ≡ ok (state_bytes c)
  unfolding encode_state
  encode_state-eq =
      rw (v.serial_32, v.owner_32, v.prev_hash_32)
        (rw
          (write_uint-Starts serial_put 8 c.value 64 32 (sym v.serial_32) (omega arith) v.value_u64)
          (ap ok all_put))

  -- `decodeState` reads them back.
  pub decode_state-bytes : decode_state (state_bytes c) ≡ ok c
  unfolding decode_state state_bytes
  decode_state-bytes =
      let ps = state_parts c in
      let le_8 = length-le_bytes 8 c.value in
      let value : read_uint 8 32 (flatten ps) ≡ ok c.value =
        read_uint-part ps 1 8 32 refl (omega (arith, v.serial_32)) (sym le_8)
        ∙ ap ok (of_le-le_bytes 8 c.value v.value_u64) in
      let serial : subarray (flatten ps) 0 32 ≡ c.serial =
        subarray-part ps 0 0 32 refl refl (omega (arith, v.serial_32)) in
      let owner : subarray (flatten ps) 40 72 ≡ c.owner =
        subarray-part ps 2 40 72 refl (omega (arith, le_8, v.serial_32))
          (omega (arith, v.owner_32)) in
      let prev_hash : subarray (flatten ps) 72 104 ≡ c.prev_hash =
        subarray-part ps 3 72 104 refl (omega (arith, le_8, v.serial_32, v.owner_32))
          (omega (arith, v.prev_hash_32)) in
      rw (length-state_bytes, value, serial, owner, prev_hash)

-- The state that 104 bytes hold.
unfoldable pub state_of : Buffer → CoinState
state_of s = record {
  serial = subarray s 0 32;
  value = of_le (subarray s 32 40);
  owner = subarray s 40 72;
  prev_hash = subarray s 72 104;
}

module _ (s : Buffer) (h : length s ≡ 104) where
  pub decode_state-eq : decode_state s ≡ ok (state_of s)
  unfolding decode_state state_of
  decode_state-eq = rw (h, read_uint-ok 8 32 s (omega (arith, h)))

  -- Four cuts, one behind the other, are the whole.
  parts :
      subarray s 0 32 ++ (subarray s 32 40 ++ (subarray s 40 72 ++ (subarray s 72 104 ++ []))) ≡ s
  parts =
      let last : take 32 (drop 72 s) ≡ drop 72 s =
        take_all 32 (drop 72 s) (omega (arith, h, length-drop 72 s)) in
      rw (append-nil, last, drop-add 40 32 s, take-append-drop, drop-add 32 8 s, take-append-drop)
        (take-append-drop 32 s)

  word_8 : length (subarray s 32 40) ≡ 8
  word_8 = omega (arith, h, length-take 8 (drop 32 s), length-drop 32 s)

  module _ (bytes : All IsByte s) where
    word_bytes : All IsByte (subarray s 32 40)
    word_bytes = All-take IsByte 8 (drop 32 s) (All-drop IsByte 32 s bytes)

    pub state_of-IsState : IsState (state_of s)
    unfolding state_of
    state_of-IsState = record {
      serial_32 = omega (arith, h, length-take 32 s);
      value_u64 = rw word_8 at (of_le-lt (subarray s 32 40) word_bytes);
      owner_32 = omega (arith, h, length-take 32 (drop 40 s), length-drop 40 s);
      prev_hash_32 = omega (arith, h, length-take 32 (drop 72 s), length-drop 72 s);
    }

    pub word-state_of : le_bytes 8 (state_of s).value ≡ subarray s 32 40
    unfolding state_of
    word-state_of = rw word_8 at (le_bytes-of_le (subarray s 32 40) word_bytes)

    pub state_bytes-state_of : state_bytes (state_of s) ≡ s
    unfolding state_of state_bytes
    state_bytes-state_of = rw (rw word_8 at (le_bytes-of_le (subarray s 32 40) word_bytes)) parts
