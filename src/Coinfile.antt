-- ===== src/Coinfile.antt =====
-- sdk/src/coinfile.ts: the coin file, which holds a coin's whole chain. `sha256` is the hash
-- function of a package.
pub mod Encoding
pub mod Writing
pub mod Reading
pub mod RoundTrip
use offline_bearer_protocol.Buffer.{Buffer, alloc, copy, equals, subarray, write_uint, read_uint}
use offline_bearer_protocol.Constants.{state_length, sig_length, coin_magic, coinfile_version}
use offline_bearer_protocol.Errors.{
  Error, no_states, sigs_length, serial_size, buffer_too_small, magic_mismatch, unknown_version,
  size_mismatch, checksum_mismatch,
}
use offline_bearer_protocol.Prelude.{
  ℕ, zero, suc, ◌+◌, ◌-◌, ◌*◌, List, [], ◌∷◌, length, Result, ok, guard, throw_if, ◌>>=◌, ◌>>◌, ltb,
  ◌==◌,
}

pub record CoinCore : Type 0 where
  pub serial : Buffer
  pub value : ℕ
  pub states : List Buffer
  pub sigs : List Buffer
  pub sig_scheme : ℕ

abbrev pub header : ℕ
header = 49

-- `HDR + n * STATE_SIZE + (n - 1) * SIG_SIZE + 32`, where n - 1 is -1 at 0
abbrev pub coin_core_size : ℕ → ℕ
coin_core_size n = header + n * state_length + n * sig_length + 32 - sig_length

-- `for (const s of items) { s.copy(buf, o); o += size; }`, with the buffer and `o` that it leaves
pub copy_all : ℕ → List Buffer → Buffer → ℕ → Buffer × ℕ
copy_all size [] buf o = (buf, o)
copy_all size (s ∷ items) buf o = copy_all size items (copy s buf o) (o + size)

-- `for (let i = 0; i < n; i++) { items.push(b.subarray(o, o + size)); o += size; }`
pub cut_all : ℕ → ℕ → Buffer → ℕ → List Buffer × ℕ
cut_all size zero b o = ([], o)
cut_all size (suc n) b o =
    let (items, o') = cut_all size n b (o + size) in (subarray b o (o + size) ∷ items, o')

module _ (sha256 : Buffer → Buffer) where
  unfoldable pub encode_coin_core : CoinCore → Result Error Buffer
  unfolding copy_all
  encode_coin_core c = do
    let n = length c.states
    throw_if (ltb n 1) no_states
    guard (length c.sigs == n - 1) sigs_length
    guard (length c.serial == 32) serial_size
    b1 ← write_uint 2 coinfile_version 4 (copy coin_magic (alloc (coin_core_size n)) 0)
    b2 ← write_uint 1 c.sig_scheme 6 b1
    b3 ← write_uint 2 n 7 b2
    b4 ← write_uint 8 c.value 41 (copy c.serial b3 9)
    let (b5, o) = copy_all state_length c.states b4 header
    let (b6, o') = copy_all sig_length c.sigs b5 o
    ok (copy (sha256 (subarray b6 0 o')) b6 o')

  unfoldable pub decode_coin_core : Buffer → Result Error CoinCore
  unfolding cut_all
  decode_coin_core b = do
    throw_if (ltb (length b) header) buffer_too_small
    guard (equals coin_magic (subarray b 0 4)) magic_mismatch
    version ← read_uint 2 4 b
    guard (version == coinfile_version) unknown_version
    n ← read_uint 2 7 b
    guard (length b == coin_core_size n) size_mismatch
    sig_scheme ← read_uint 1 6 b
    value ← read_uint 8 41 b
    let (states, o) = cut_all state_length n b header
    let (sigs, o') = cut_all sig_length (n - 1) b o
    guard (equals (sha256 (subarray b 0 o')) (subarray b o' (o' + 32))) checksum_mismatch
    ok (record {
      serial = subarray b 9 41;
      value = value;
      states = states;
      sigs = sigs;
      sig_scheme = sig_scheme;
    })
