-- ===== src/Readers/Head.antt =====
-- The readers of the head registry and of an allowance of sdk/src/readers.ts, on the accounts that
-- the program writes (programs/obp-core/src/state.rs).
use offline_bearer_protocol.Buffer.{Buffer, subarray, read_uint}
use offline_bearer_protocol.Buffer.Fill.{subarray-part}
use offline_bearer_protocol.Buffer.Words.{length-le_bytes}
use offline_bearer_protocol.Prelude.{
  ◌^◌, ◌<◌, Bool, true, false, ◌≡◌, refl, length, flatten, ok, arith, ◌==◌, if◌then◌else◌,
}
use offline_bearer_protocol.Program.Accounts.{
  HeadRegistry, head_registry_parts, Allowance, allowance_parts,
}
use offline_bearer_protocol.Readers.{OnChainHead, parse_head, OnChainAllowance, parse_allowance}
use offline_bearer_protocol.Readers.Agree.{read-number}

bit_lt : (b : Bool) → (if b then 1 else 0) < 256 ^ 1
bit_lt true = omega arith
bit_lt false = omega arith

bit_eq : (b : Bool) → ((if b then 1 else 0) == 1) ≡ b
bit_eq true = refl
bit_eq false = refl

-- The sizes of the fields of a stored head registry.
pub record IsHead (disc : Buffer) (r : HeadRegistry) : Type 0 where
  pub disc_size : length disc ≡ 8
  pub head_state : length r.head_state ≡ 104
  pub head_attempt : r.head_attempt < 256 ^ 1
  pub head_states_len : r.head_states_len < 256 ^ 2
  pub pending_since_slot : r.pending_since_slot < 256 ^ 8
  pub bump : r.bump < 256 ^ 1

-- What the reader makes of a stored head registry.
pub on_chain_head : HeadRegistry → OnChainHead
on_chain_head r = record {
  set = r.set;
  head_state = r.head_state;
  head_attempt = r.head_attempt;
  head_states_len = r.head_states_len;
  pending_since_slot = r.pending_since_slot;
  bump = r.bump;
}

parse_head-eq :
    (d : Buffer) (r : OnChainHead)
    → read_uint 1 8 d ≡ ok (if r.set then 1 else 0)
    → subarray d 9 113 ≡ r.head_state
    → read_uint 1 113 d ≡ ok r.head_attempt
    → read_uint 2 114 d ≡ ok r.head_states_len
    → read_uint 8 116 d ≡ ok r.pending_since_slot
    → read_uint 1 124 d ≡ ok r.bump
    → parse_head d ≡ ok r
unfolding parse_head
parse_head-eq d r e1 e2 e3 e4 e5 e6 = rw (e1, e3, e4, e5, e6, e2, bit_eq r.set)

-- A head registry that the program stores, of a state of 104 bytes and numbers that fit their
-- widths behind a discriminator of eight bytes, is what `parseHead` reads back, field by field.
pub parse_head-written :
    (disc : Buffer) (r : HeadRegistry)
    → IsHead disc r
    → parse_head (flatten (head_registry_parts disc r)) ≡ ok (on_chain_head r)
unfolding on_chain_head
parse_head-written disc r h =
    let ps = head_registry_parts disc r in
    let l1 = length-le_bytes 1 (if r.set then 1 else 0) in
    let l3 = length-le_bytes 1 r.head_attempt in
    let l4 = length-le_bytes 2 r.head_states_len in
    let l5 = length-le_bytes 8 r.pending_since_slot in
    parse_head-eq (flatten ps) (on_chain_head r)
      (read-number ps 1 1 (if r.set then 1 else 0) 8 refl (omega arith) (bit_lt r.set))
      (subarray-part ps 2 9 113 refl (omega arith) (omega arith))
      (read-number ps 3 1 r.head_attempt 113 refl (omega arith) h.head_attempt)
      (read-number ps 4 2 r.head_states_len 114 refl (omega arith) h.head_states_len)
      (read-number ps 5 8 r.pending_since_slot 116 refl (omega arith) h.pending_since_slot)
      (read-number ps 6 1 r.bump 124 refl (omega arith) h.bump)

-- The sizes of the fields of a stored allowance.
pub record IsAllowance (disc : Buffer) (a : Allowance) : Type 0 where
  pub disc_size : length disc ≡ 8
  pub cap : a.cap < 256 ^ 8
  pub committed : a.committed < 256 ^ 8
  pub bump : a.bump < 256 ^ 1

-- What the reader makes of a stored allowance.
pub on_chain_allowance : Allowance → OnChainAllowance
on_chain_allowance a = record {
  cap = a.cap;
  committed = a.committed;
  initialized = a.initialized;
  bump = a.bump;
}

parse_allowance-eq :
    (d : Buffer) (a : OnChainAllowance)
    → read_uint 8 8 d ≡ ok a.cap
    → read_uint 8 16 d ≡ ok a.committed
    → read_uint 1 24 d ≡ ok (if a.initialized then 1 else 0)
    → read_uint 1 25 d ≡ ok a.bump
    → parse_allowance d ≡ ok a
unfolding parse_allowance
parse_allowance-eq d a e1 e2 e3 e4 = rw (e1, e2, e3, e4, bit_eq a.initialized)

-- An allowance that the program stores, of numbers that fit their widths behind a discriminator of
-- eight bytes, is what `parseAllowance` reads back, field by field.
pub parse_allowance-written :
    (disc : Buffer) (a : Allowance)
    → IsAllowance disc a
    → parse_allowance (flatten (allowance_parts disc a)) ≡ ok (on_chain_allowance a)
unfolding on_chain_allowance
parse_allowance-written disc a h =
    let ps = allowance_parts disc a in
    let l1 = length-le_bytes 8 a.cap in
    let l2 = length-le_bytes 8 a.committed in
    let l3 = length-le_bytes 1 (if a.initialized then 1 else 0) in
    parse_allowance-eq (flatten ps) (on_chain_allowance a)
      (read-number ps 1 8 a.cap 8 refl (omega arith) h.cap)
      (read-number ps 2 8 a.committed 16 refl (omega arith) h.committed)
      (read-number ps 3 1 (if a.initialized then 1 else 0) 24 refl (omega arith)
        (bit_lt a.initialized))
      (read-number ps 4 1 a.bump 25 refl (omega arith) h.bump)
