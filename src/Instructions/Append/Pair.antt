-- ===== src/Instructions/Append/Pair.antt =====
-- The pair of instructions that `appendLinksIxPair` of sdk/src/instructions.ts gives.
use offline_bearer_protocol.Accounts.{config_pda, registry_pda, submission_pda}
use offline_bearer_protocol.Buffer.{Buffer, subarray, le_bytes}
use offline_bearer_protocol.Buffer.Fill.{Starts-alloc, Starts-full, Starts-write, write_uint-Starts}
use offline_bearer_protocol.Buffer.Words.{length-le_bytes}
use offline_bearer_protocol.Instructions.{read_only, writable, ix_data, u32le, instruction}
use offline_bearer_protocol.Instructions.Append.{
  Link, AppendPlan, record_of, records_of, link_parts, append_links_ix_pair,
}
use offline_bearer_protocol.Instructions.Append.Selected.{IsLink, checks, selected, selected-checks}
use offline_bearer_protocol.Precompile.{OffsetRecord}
use offline_bearer_protocol.Precompile.RoundTrip.{IsU16, record_bytes, ed25519_verify_ix-eq}
use offline_bearer_protocol.Prelude.{
  ℕ, suc, ◌+◌, ◌^◌, ◌<◌, ◌≤◌, List, [], ◌∷◌, ◌++◌, ◌≡◌, refl, sym, ap, ◌∙◌, map, length, take, drop,
  flatten, All, ok, arith, append_assoc, append-nil, length-take, drop-add, drop-append,
  drop-append_add, take-append, ne→==-false,
}
use offline_bearer_protocol.Prelude.Text.{utf8}
use offline_bearer_protocol.Solana.{Solana, TransactionInstruction}

pub record IsPlan (sha256 : Buffer → Buffer) (serial : Buffer) (plan : AppendPlan) : Type 0 where
  pub some_links : 1 ≤ length plan.links
  pub few_links : length plan.links ≤ 12
  pub links_sized : All IsLink plan.links
  pub serial_size : length serial ≡ 32
  pub owner_size : length plan.head_owner ≡ 32
  pub hash_size : length plan.last_hash ≡ 32
  pub digests : (b : Buffer) → length (sha256 b) ≡ 32

-- The content of the append instruction, in its parts.
pub append_content : (Buffer → Buffer) → Buffer → AppendPlan → Buffer
append_content sha256 serial plan =
    take 8 (sha256 (utf8 "global:" ++ utf8 "append_links"))
    ++ (serial
        ++ (plan.head_owner
            ++ ((le_bytes 4 (length plan.links) ++ flatten (link_parts plan.links))
                ++ (plan.last_hash ++ []))))

length-records_of : (n i : ℕ) (links : List Link) → length (records_of n i links) ≡ length links
unfolding records_of
length-records_of n i [] = refl
length-records_of n i (l ∷ links) = ap suc (length-records_of n (i + 1) links)

record_of-IsU16 : (n i : ℕ) → i ≤ n → n ≤ 12 → IsU16 (record_of n i)
unfolding record_of
record_of-IsU16 n i h hn = record {
  sig_off_u16 = omega arith;
  sig_ix_u16 = omega arith;
  pub_off_u16 = ground arith;
  pub_ix_u16 = omega arith;
  msg_off_u16 = ground arith;
  msg_size_u16 = omega arith;
  msg_ix_u16 = omega arith;
}

records_of-IsU16 :
    (n i : ℕ) (links : List Link) → i + length links ≤ n → n ≤ 12 → All IsU16 (records_of n i links)
unfolding records_of
records_of-IsU16 n i [] h hn = tt
records_of-IsU16 n i (l ∷ links) h hn =
    (record_of-IsU16 n i (omega arith) hn, records_of-IsU16 n (i + 1) links (omega arith) hn)

u32le-eq : (v : ℕ) → v < 256 ^ 4 → u32le v ≡ ok (le_bytes 4 v)
unfolding u32le
u32le-eq v h =
    let s = Starts-alloc 4 in
    write_uint-Starts s 4 v 0 0 refl refl h ∙ ap ok (Starts-full (Starts-write s 4 v 0 0 refl refl))

module _ (sha256 : Buffer → Buffer) (serial : Buffer) (plan : AppendPlan)
    (h : IsPlan sha256 serial plan) where
  count : Buffer
  count = le_bytes 4 (length plan.links)

  parts : Buffer
  parts = flatten (link_parts plan.links)

  behind : Buffer
  unfolding count parts
  behind = (count ++ parts) ++ (plan.last_hash ++ [])

  disc_size : 8 ≡ length (take 8 (sha256 (utf8 "global:" ++ utf8 "append_links")))
  disc_size = omega (
    arith,
    length-take 8 (sha256 (utf8 "global:" ++ utf8 "append_links")),
    h.digests (utf8 "global:" ++ utf8 "append_links"),
  )

  drop-owner : drop 40 (append_content sha256 serial plan) ≡ plan.head_owner ++ behind
  unfolding append_content behind count parts
  drop-owner =
      drop-append_add 40 32 (take 8 (sha256 (utf8 "global:" ++ utf8 "append_links")))
        (serial ++ (plan.head_owner ++ behind)) (omega (arith, disc_size))
      ∙ drop-append 32 serial _ (sym h.serial_size)

  drop-links : drop 76 (append_content sha256 serial plan) ≡ parts ++ plan.last_hash
  unfolding behind count parts
  drop-links =
      drop-add 40 36 (append_content sha256 serial plan)
      ∙ ap (drop 36) drop-owner
      ∙ drop-append_add 36 4 plan.head_owner behind (omega (arith, h.owner_size))
      ∙ ap (drop 4) (append_assoc count parts (plan.last_hash ++ []))
      ∙ drop-append 4 count (parts ++ (plan.last_hash ++ []))
          (sym (length-le_bytes 4 (length plan.links)))
      ∙ ap (λ x. parts ++ x) (append-nil plan.last_hash)

  head_owner-at : subarray (append_content sha256 serial plan) 40 72 ≡ plan.head_owner
  head_owner-at = rw drop-owner (take-append 32 plan.head_owner behind (sym h.owner_size))

  append_content-checks :
      map
        (selected (append_content sha256 serial plan))
        (records_of (length plan.links) 0 plan.links)
      ≡ checks plan.head_owner plan.links plan.last_hash
  unfolding record_of parts
  append_content-checks =
      selected-checks (append_content sha256 serial plan) plan.links (length plan.links) 0
        plan.head_owner plan.last_hash h.links_sized (omega arith) drop-links h.hash_size
        head_owner-at

-- The precompile's instruction holds records that select, in the content of the append
-- instruction beside it, the checks that the links have to pass.
pub record Verifies (net : Solana) (plan : AppendPlan)
    (pair : TransactionInstruction × TransactionInstruction) : Type 0 where
  pub records : List OffsetRecord
  pub precompile : (pair.0).program ≡ net.ed25519_precompile_id
  pub receiver : (pair.1).program ≡ net.program_id
  pub sent : (pair.0).content ≡ le_bytes 2 (length records) ++ flatten (map record_bytes records)
  pub next_ix : All (λ r. (r.sig_ix ≡ 1) × (r.pub_ix ≡ 1) × (r.msg_ix ≡ 1)) records
  pub selects :
      map (selected (pair.1).content) records ≡ checks plan.head_owner plan.links plan.last_hash

records_of-next_ix :
    (n i : ℕ) (links : List Link)
    → All (λ r. (r.sig_ix ≡ 1) × (r.pub_ix ≡ 1) × (r.msg_ix ≡ 1)) (records_of n i links)
unfolding records_of record_of
records_of-next_ix n i [] = tt
records_of-next_ix n i (l ∷ links) = ((refl, refl, refl), records_of-next_ix n (i + 1) links)

pair_of :
    (Buffer → Buffer)
    → Solana
    → Buffer
    → ℕ
    → AppendPlan
    → TransactionInstruction × TransactionInstruction
unfolding append_content
pair_of sha256 net serial attempt plan = (
  record {
    program = net.ed25519_precompile_id;
    keys = [];
    content =
        le_bytes 2 (length (records_of (length plan.links) 0 plan.links))
        ++ flatten (map record_bytes (records_of (length plan.links) 0 plan.links));
  },
  instruction sha256 net
      (read_only (config_pda net).0
        ∷ read_only (registry_pda net serial).0
        ∷ writable (submission_pda net serial attempt).0
        ∷ [])
      (append_content sha256 serial plan),
)

-- For a plan of one to twelve links whose parts have their sizes (a state of 104 bytes, a
-- signature of 64, a serial, an owner and a hash of 32), with a hash function of 32 bytes,
-- `appendLinksIxPair` succeeds. The first instruction goes to the precompile and its records name
-- instruction 1, the append instruction. There they select, link by link: the link's signature,
-- as key the head's owner for the first link and the owner of the previous link's state for any
-- other, and as message the previous hash of the next link's state, for the last link the last hash.
pub append_links_ix_pair-Verifies :
    (sha256 : Buffer → Buffer) (net : Solana) (serial : Buffer) (attempt : ℕ) (plan : AppendPlan)
    → IsPlan sha256 serial plan
    → (pair : TransactionInstruction × TransactionInstruction) × (append_links_ix_pair sha256 net
          serial attempt plan
        ≡ ok pair)
      × Verifies net plan pair
unfolding append_links_ix_pair append_content ix_data instruction pair_of
append_links_ix_pair-Verifies sha256 net serial attempt plan h =
    let n = length plan.links in
    let size = length-records_of n 0 plan.links in
    let verify_eq =
      ed25519_verify_ix-eq net (records_of n 0 plan.links) (omega (arith, size, h.some_links))
        (omega (arith, size, h.few_links))
        (records_of-IsU16 n 0 plan.links (omega arith) h.few_links) in
    (
      pair_of sha256 net serial attempt plan,
      rw (
        ne→==-false n 0 (λ e. omega (arith, e, h.some_links)),
        u32le-eq n (omega (arith, h.few_links)),
        verify_eq,
      ),
      record {
        records = records_of n 0 plan.links;
        precompile = refl;
        receiver = refl;
        sent = refl;
        next_ix = records_of-next_ix n 0 plan.links;
        selects = append_content-checks sha256 serial plan h;
      },
    )
