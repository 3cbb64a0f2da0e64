-- ===== src/Instructions/Append.antt =====
-- sdk/src/instructions.ts: `appendLinksIxPair`, the links of a check-in and the records that make
-- the Ed25519 precompile check their signatures.
pub mod Selected
pub mod Pair
use offline_bearer_protocol.Accounts.{config_pda, registry_pda, submission_pda}
use offline_bearer_protocol.Buffer.{Buffer}
use offline_bearer_protocol.Errors.{Error, no_links}
use offline_bearer_protocol.Instructions.{read_only, writable, u32le, ix_data, instruction}
use offline_bearer_protocol.Precompile.{OffsetRecord, ed25519_verify_ix}
use offline_bearer_protocol.Prelude.{
  ℕ, zero, suc, ◌+◌, ◌-◌, ◌*◌, List, [], ◌∷◌, ◌++◌, Option, some, length, flatten, Result, ok,
  throw_if, ltb, ◌==◌, if◌then◌else◌, ◌>>=◌, ◌>>◌,
}
use offline_bearer_protocol.Solana.{Solana, TransactionInstruction}

pub record Link : Type 0 where
  pub state : Buffer
  pub sig : Buffer

pub record AppendPlan : Type 0 where
  pub head_owner : Buffer
  pub links : List Link
  pub last_hash : Buffer

-- The record of link `i` of `n`.
unfoldable pub record_of : ℕ → ℕ → OffsetRecord
record_of n i = record {
  sig_off = 76 + i * 168 + 104;
  sig_ix = 1;
  pub_off = if i == 0 then 40 else 76 + (i - 1) * 168 + 40;
  pub_ix = 1;
  msg_off = if ltb i (n - 1) then 76 + (i + 1) * 168 + 72 else 76 + n * 168;
  msg_size = 32;
  msg_ix = 1;
}

-- `links.map` with the index, for the last `k` of the `n` links
unfoldable pub records_of : ℕ → ℕ → List Link → List OffsetRecord
unfolding record_of
records_of n i [] = []
records_of n i (_ ∷ links) = record_of n i ∷ records_of n (i + 1) links

-- `links.flatMap((l) => [l.state, l.sig])`
unfoldable pub link_parts : List Link → List Buffer
link_parts [] = []
link_parts (l ∷ links) = l.state ∷ l.sig ∷ link_parts links

unfoldable pub append_links_ix_pair :
    (Buffer → Buffer)
    → Solana
    → Buffer
    → ℕ
    → AppendPlan
    → Result Error (TransactionInstruction × TransactionInstruction)
unfolding records_of link_parts u32le ix_data instruction ed25519_verify_ix config_pda registry_pda
    submission_pda
append_links_ix_pair sha256 net serial attempt plan = do
  let n = length plan.links
  throw_if (n == 0) no_links
  count ← u32le n
  let links_buf = flatten (count ∷ link_parts plan.links)
  let args = flatten (serial ∷ plan.head_owner ∷ links_buf ∷ plan.last_hash ∷ [])
  let append_ix =
      instruction sha256 net
        (read_only (config_pda net).0
          ∷ read_only (registry_pda net serial).0
          ∷ writable (submission_pda net serial attempt).0
          ∷ [])
        (ix_data sha256 "append_links" (some args))
  verify_ix ← ed25519_verify_ix net (records_of n 0 plan.links)
  ok (verify_ix, append_ix)
