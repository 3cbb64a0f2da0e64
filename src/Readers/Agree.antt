-- ===== src/Readers/Agree.antt =====
-- The readers of sdk/src/readers.ts on the accounts that the program writes
-- (programs/obp-core/src/state.rs).
use offline_bearer_protocol.Buffer.{Buffer, subarray, le_bytes, read_uint}
use offline_bearer_protocol.Buffer.Fill.{total, subarray-part, read_uint-part}
use offline_bearer_protocol.Buffer.Words.{length-le_bytes, of_le-le_bytes}
use offline_bearer_protocol.Prelude.{
  ℕ, ◌^◌, ◌<◌, List, ◌≡◌, refl, ap, ◌∙◌, length, take, flatten, get_elem?, some, ok, arith,
}
use offline_bearer_protocol.Program.Accounts.{Config, config_parts, MintRegistry, registry_parts}
use offline_bearer_protocol.Readers.{OnChainConfig, parse_config, OnChainRegistry, parse_registry}

-- The sizes of the fields of a stored configuration.
pub record IsConfig (disc : Buffer) (c : Config) : Type 0 where
  pub disc_size : length disc ≡ 8
  pub mint_authority : length c.mint_authority ≡ 32
  pub vault_mint : length c.vault_mint ≡ 32
  pub bond_multiplier_bps : c.bond_multiplier_bps < 256 ^ 4
  pub challenge_window_slots : c.challenge_window_slots < 256 ^ 8
  pub max_links_per_tx : c.max_links_per_tx < 256 ^ 2
  pub default_allowance : c.default_allowance < 256 ^ 8
  pub total_unspent_supply : c.total_unspent_supply < 256 ^ 8
  pub sig_scheme : c.sig_scheme < 256 ^ 1
  pub bump : c.bump < 256 ^ 1

-- A number that stands as part `i` of an account.
pub read-number :
    (ps : List Buffer) (i w v at : ℕ)
    → get_elem? ps i ≡ some (le_bytes w v)
    → at ≡ total (take i ps)
    → v < 256 ^ w
    → read_uint w at (flatten ps) ≡ ok v
read-number ps i w v at h hat hv =
    read_uint-part ps i w at h hat (omega (arith, length-le_bytes w v))
    ∙ ap ok (of_le-le_bytes w v hv)

-- What the reader makes of a stored configuration.
pub on_chain_config : Config → OnChainConfig
on_chain_config c = record {
  mint_authority = c.mint_authority;
  vault_mint = c.vault_mint;
  bond_multiplier_bps = c.bond_multiplier_bps;
  challenge_window_slots = c.challenge_window_slots;
  max_links_per_tx = c.max_links_per_tx;
  default_allowance = c.default_allowance;
  total_unspent_supply = c.total_unspent_supply;
  sig_scheme = c.sig_scheme;
  bump = c.bump;
}

parse_config-eq :
    (d : Buffer) (c : OnChainConfig)
    → subarray d 8 40 ≡ c.mint_authority
    → subarray d 40 72 ≡ c.vault_mint
    → read_uint 4 72 d ≡ ok c.bond_multiplier_bps
    → read_uint 8 76 d ≡ ok c.challenge_window_slots
    → read_uint 2 84 d ≡ ok c.max_links_per_tx
    → read_uint 8 86 d ≡ ok c.default_allowance
    → read_uint 8 94 d ≡ ok c.total_unspent_supply
    → read_uint 1 102 d ≡ ok c.sig_scheme
    → read_uint 1 103 d ≡ ok c.bump
    → parse_config d ≡ ok c
unfolding parse_config
parse_config-eq d c e1 e2 e3 e4 e5 e6 e7 e8 e9 = rw (e1, e2, e3, e4, e5, e6, e7, e8, e9)

-- A configuration that the program stores, of keys of 32 bytes and numbers that fit their widths
-- behind a discriminator of eight bytes, is what `parseConfig` reads back, field by field.
pub parse_config-written :
    (disc : Buffer) (c : Config)
    → IsConfig disc c
    → parse_config (flatten (config_parts disc c)) ≡ ok (on_chain_config c)
unfolding on_chain_config
parse_config-written disc c h =
    let ps = config_parts disc c in
    let l3 = length-le_bytes 4 c.bond_multiplier_bps in
    let l4 = length-le_bytes 8 c.challenge_window_slots in
    let l5 = length-le_bytes 2 c.max_links_per_tx in
    let l6 = length-le_bytes 8 c.default_allowance in
    let l7 = length-le_bytes 8 c.total_unspent_supply in
    let l8 = length-le_bytes 1 c.sig_scheme in
    parse_config-eq (flatten ps) (on_chain_config c)
      (subarray-part ps 1 8 40 refl (omega arith) (omega arith))
      (subarray-part ps 2 40 72 refl (omega arith) (omega arith))
      (read-number ps 3 4 c.bond_multiplier_bps 72 refl (omega arith) h.bond_multiplier_bps)
      (read-number ps 4 8 c.challenge_window_slots 76 refl (omega arith) h.challenge_window_slots)
      (read-number ps 5 2 c.max_links_per_tx 84 refl (omega arith) h.max_links_per_tx)
      (read-number ps 6 8 c.default_allowance 86 refl (omega arith) h.default_allowance)
      (read-number ps 7 8 c.total_unspent_supply 94 refl (omega arith) h.total_unspent_supply)
      (read-number ps 8 1 c.sig_scheme 102 refl (omega arith) h.sig_scheme)
      (read-number ps 9 1 c.bump 103 refl (omega arith) h.bump)

-- The sizes of the fields of a stored registry.
pub record IsRegistry (disc : Buffer) (r : MintRegistry) : Type 0 where
  pub disc_size : length disc ≡ 8
  pub serial : length r.serial ≡ 32
  pub value : r.value < 256 ^ 8
  pub genesis_state_hash : length r.genesis_state_hash ≡ 32
  pub mint_slot : r.mint_slot < 256 ^ 8
  pub mint_tx : length r.mint_tx ≡ 64
  pub recipient : length r.recipient ≡ 32
  pub status : r.status < 256 ^ 1
  pub submissions_count : r.submissions_count < 256 ^ 1
  pub bump : r.bump < 256 ^ 1

-- What the reader makes of a stored registry.
pub on_chain_registry : MintRegistry → OnChainRegistry
on_chain_registry r = record {
  serial = r.serial;
  value = r.value;
  genesis_state_hash = r.genesis_state_hash;
  mint_slot = r.mint_slot;
  mint_tx = r.mint_tx;
  recipient = r.recipient;
  status = r.status;
  submissions_count = r.submissions_count;
  bump = r.bump;
}

parse_registry-eq :
    (d : Buffer) (r : OnChainRegistry)
    → subarray d 8 40 ≡ r.serial
    → read_uint 8 40 d ≡ ok r.value
    → subarray d 48 80 ≡ r.genesis_state_hash
    → read_uint 8 80 d ≡ ok r.mint_slot
    → subarray d 88 152 ≡ r.mint_tx
    → subarray d 152 184 ≡ r.recipient
    → read_uint 1 184 d ≡ ok r.status
    → read_uint 1 185 d ≡ ok r.submissions_count
    → read_uint 1 186 d ≡ ok r.bump
    → parse_registry d ≡ ok r
unfolding parse_registry
parse_registry-eq d r e1 e2 e3 e4 e5 e6 e7 e8 e9 = rw (e1, e2, e3, e4, e5, e6, e7, e8, e9)

-- A coin's registry that the program stores, of fields with their sizes and numbers that fit their
-- widths behind a discriminator of eight bytes, is what `parseRegistry` reads back, field by field.
pub parse_registry-written :
    (disc : Buffer) (r : MintRegistry)
    → IsRegistry disc r
    → parse_registry (flatten (registry_parts disc r)) ≡ ok (on_chain_registry r)
unfolding on_chain_registry
parse_registry-written disc r h =
    let ps = registry_parts disc r in
    let l2 = length-le_bytes 8 r.value in
    let l4 = length-le_bytes 8 r.mint_slot in
    let l7 = length-le_bytes 1 r.status in
    let l8 = length-le_bytes 1 r.submissions_count in
    parse_registry-eq (flatten ps) (on_chain_registry r)
      (subarray-part ps 1 8 40 refl (omega arith) (omega arith))
      (read-number ps 2 8 r.value 40 refl (omega arith) h.value)
      (subarray-part ps 3 48 80 refl (omega arith) (omega arith))
      (read-number ps 4 8 r.mint_slot 80 refl (omega arith) h.mint_slot)
      (subarray-part ps 5 88 152 refl (omega arith) (omega arith))
      (subarray-part ps 6 152 184 refl (omega arith) (omega arith))
      (read-number ps 7 1 r.status 184 refl (omega arith) h.status)
      (read-number ps 8 1 r.submissions_count 185 refl (omega arith) h.submissions_count)
      (read-number ps 9 1 r.bump 186 refl (omega arith) h.bump)
