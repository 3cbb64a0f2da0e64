-- ===== src/Precompile.antt =====
-- sdk/src/precompile.ts: the instruction for the Ed25519 precompile.
pub mod RoundTrip
use offline_bearer_protocol.Buffer.{Buffer, alloc, write_uint}
use offline_bearer_protocol.Constants.{max_links_per_precompile}
use offline_bearer_protocol.Errors.{Error, no_records, too_many_records}
use offline_bearer_protocol.Prelude.{
  ℕ, ◌+◌, ◌*◌, List, [], ◌∷◌, length, Result, ok, throw_if, ◌>>=◌, ◌>>◌, ltb, ◌==◌,
}
use offline_bearer_protocol.Solana.{Solana, TransactionInstruction}

pub record OffsetRecord : Type 0 where
  pub sig_off : ℕ
  pub sig_ix : ℕ
  pub pub_off : ℕ
  pub pub_ix : ℕ
  pub msg_off : ℕ
  pub msg_size : ℕ
  pub msg_ix : ℕ

unfoldable pub write_record : OffsetRecord → ℕ → Buffer → Result Error Buffer
write_record r o b0 = do
  b1 ← write_uint 2 r.sig_off o b0
  b2 ← write_uint 2 r.sig_ix (o + 2) b1
  b3 ← write_uint 2 r.pub_off (o + 4) b2
  b4 ← write_uint 2 r.pub_ix (o + 6) b3
  b5 ← write_uint 2 r.msg_off (o + 8) b4
  b6 ← write_uint 2 r.msg_size (o + 10) b5
  write_uint 2 r.msg_ix (o + 12) b6

-- `records.forEach`, from index `i` on
unfoldable pub write_records : List OffsetRecord → ℕ → Buffer → Result Error Buffer
unfolding write_record
write_records [] i b = ok b
write_records (r ∷ records) i b = do
  b' ← write_record r (2 + i * 14) b
  write_records records (i + 1) b'

unfoldable pub ed25519_verify_ix : Solana → List OffsetRecord → Result Error TransactionInstruction
unfolding write_records
ed25519_verify_ix net records = do
  throw_if (length records == 0) no_records
  throw_if (ltb max_links_per_precompile (length records)) too_many_records
  b ← write_uint 2 (length records) 0 (alloc (2 + length records * 14))
  content ← write_records records 0 b
  ok (record { program = net.ed25519_precompile_id; keys = []; content = content })
