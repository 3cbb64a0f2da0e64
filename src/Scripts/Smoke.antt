-- ===== src/Scripts/Smoke.antt =====
-- The helpers of smoke-m1-run.ts, which repeats what it needs of the SDK.
use offline_bearer_protocol.Buffer.{Buffer, alloc, subarray, copy, write_uint}
use offline_bearer_protocol.Errors.{Error}
use offline_bearer_protocol.Prelude.Text.{utf8}
use offline_bearer_protocol.Prelude.{
  ℕ, ◌%◌, List, [], ◌∷◌, ◌++◌, Bool, true, false, Result, ok, ◌>>=◌,
}
use offline_bearer_protocol.Solana.{PublicKey, Solana, AccountMeta}
use Prim.Native.String.{String}

unfoldable u8b : ℕ → Buffer
u8b v = v % 256 ∷ []

unfoldable u16le : ℕ → Result Error Buffer
u16le v = write_uint 2 v 0 (alloc 2)

unfoldable u32le : ℕ → Result Error Buffer
u32le v = write_uint 4 v 0 (alloc 4)

unfoldable u64le : ℕ → Result Error Buffer
u64le v = write_uint 8 v 0 (alloc 8)

unfoldable w : PublicKey → Bool → AccountMeta
w k is_writable = record { pubkey = k; is_writable = is_writable; is_signer = false }

unfoldable s : PublicKey → Bool → AccountMeta
s k is_writable = record { pubkey = k; is_writable = is_writable; is_signer = true }

unfoldable pda : Solana → String → List Buffer → PublicKey × ℕ
pda net prefix extra = net.find_program_address (utf8 prefix ∷ extra) net.program_id

unfoldable make_state : Buffer → ℕ → PublicKey → Buffer → Result Error Buffer
make_state serial value owner prev_hash = do
  let st = copy serial (alloc 104) 0
  st1 ← write_uint 8 value 32 st
  let st2 = copy owner st1 40
  ok (copy prev_hash st2 72)

module _ (sha256 : Buffer → Buffer) where
  unfoldable ix_data : String → Buffer → Buffer
  ix_data name args = subarray (sha256 (utf8 "global:" ++ utf8 name)) 0 8 ++ args
