-- ===== src/Readers.antt =====
-- sdk/src/readers.ts: the program's accounts, parsed from their bytes. A public key is its 32 bytes.

pub mod Agree
pub mod Fetch
pub mod Submission
pub mod Head
use offline_bearer_protocol.Buffer.{Buffer, subarray, read_uint}
use offline_bearer_protocol.Errors.{Error}
use offline_bearer_protocol.Prelude.{
  ℕ, zero, suc, ◌+◌, ◌-◌, ◌*◌, ◌/◌, min, List, [], ◌∷◌, Bool, length, Result, ok, ltb, ◌==◌, ◌>>=◌,
  if◌then◌else◌,
}
use offline_bearer_protocol.Solana.{PublicKey}

pub record OnChainConfig : Type 0 where
  pub mint_authority : PublicKey
  pub vault_mint : PublicKey
  pub bond_multiplier_bps : ℕ
  pub challenge_window_slots : ℕ
  pub max_links_per_tx : ℕ
  pub default_allowance : ℕ
  pub total_unspent_supply : ℕ
  pub sig_scheme : ℕ
  pub bump : ℕ

unfoldable pub parse_config : Buffer → Result Error OnChainConfig
parse_config d = do
  bond_multiplier_bps ← read_uint 4 72 d
  challenge_window_slots ← read_uint 8 76 d
  max_links_per_tx ← read_uint 2 84 d
  default_allowance ← read_uint 8 86 d
  total_unspent_supply ← read_uint 8 94 d
  sig_scheme ← read_uint 1 102 d
  bump ← read_uint 1 103 d
  ok (record {
    mint_authority = subarray d 8 40;
    vault_mint = subarray d 40 72;
    bond_multiplier_bps = bond_multiplier_bps;
    challenge_window_slots = challenge_window_slots;
    max_links_per_tx = max_links_per_tx;
    default_allowance = default_allowance;
    total_unspent_supply = total_unspent_supply;
    sig_scheme = sig_scheme;
    bump = bump;
  })

pub record OnChainRegistry : Type 0 where
  pub serial : Buffer
  pub value : ℕ
  pub genesis_state_hash : Buffer
  pub mint_slot : ℕ
  pub mint_tx : Buffer
  pub recipient : PublicKey
  pub status : ℕ
  pub submissions_count : ℕ
  pub bump : ℕ

unfoldable pub parse_registry : Buffer → Result Error OnChainRegistry
parse_registry d = do
  value ← read_uint 8 40 d
  mint_slot ← read_uint 8 80 d
  status ← read_uint 1 184 d
  submissions_count ← read_uint 1 185 d
  bump ← read_uint 1 186 d
  ok (record {
    serial = subarray d 8 40;
    value = value;
    genesis_state_hash = subarray d 48 80;
    mint_slot = mint_slot;
    mint_tx = subarray d 88 152;
    recipient = subarray d 152 184;
    status = status;
    submissions_count = submissions_count;
    bump = bump;
  })

pub record OnChainHead : Type 0 where
  pub set : Bool
  pub head_state : Buffer
  pub head_attempt : ℕ
  pub head_states_len : ℕ
  pub pending_since_slot : ℕ
  pub bump : ℕ

unfoldable pub parse_head : Buffer → Result Error OnChainHead
parse_head d = do
  set ← read_uint 1 8 d
  head_attempt ← read_uint 1 113 d
  head_states_len ← read_uint 2 114 d
  pending_since_slot ← read_uint 8 116 d
  bump ← read_uint 1 124 d
  ok (record {
    set = set == 1;
    head_state = subarray d 9 113;
    head_attempt = head_attempt;
    head_states_len = head_states_len;
    pending_since_slot = pending_since_slot;
    bump = bump;
  })

pub record OnChainSubmission : Type 0 where
  pub serial : Buffer
  pub attempt : ℕ
  pub checker : PublicKey
  pub final_owner : PublicKey
  pub links_count : ℕ
  pub started_slot : ℕ
  pub finalized_slot : ℕ
  pub status : ℕ
  pub states_len : ℕ
  pub states : List Buffer
  pub sig_commits : List Buffer
  pub bump : ℕ

-- The `k` parts of `size` bytes from index `i` on, of those that stand at `base`.
unfoldable pub parts_of : ℕ → ℕ → ℕ → ℕ → Buffer → List Buffer
parts_of zero i base size d = []
parts_of (suc k) i base size d =
    subarray d (base + i * size) (base + (i + 1) * size) ∷ parts_of k (i + 1) base size d

-- The loop runs while `i` is below a quotient that need not be whole: as often as it is rounded up.
unfoldable pub sig_commits_of : Buffer → List Buffer
unfolding parts_of
sig_commits_of d =
    let off = length d - 128 - 1 in
    if ltb off 126 then [] else parts_of (min 10 ((off - 126 + 103) / 104)) 0 off 32 d

unfoldable pub parse_submission : Buffer → Result Error OnChainSubmission
unfolding parts_of sig_commits_of
parse_submission d = do
  n ← read_uint 2 124 d
  attempt ← read_uint 1 40 d
  links_count ← read_uint 2 105 d
  started_slot ← read_uint 8 107 d
  finalized_slot ← read_uint 8 115 d
  status ← read_uint 1 123 d
  bump ← read_uint 1 (length d - 1) d
  ok (record {
    serial = subarray d 8 40;
    attempt = attempt;
    checker = subarray d 41 73;
    final_owner = subarray d 73 105;
    links_count = links_count;
    started_slot = started_slot;
    finalized_slot = finalized_slot;
    status = status;
    states_len = n;
    states = parts_of n 0 126 104 d;
    sig_commits = sig_commits_of d;
    bump = bump;
  })

pub record OnChainAllowance : Type 0 where
  pub cap : ℕ
  pub committed : ℕ
  pub initialized : Bool
  pub bump : ℕ

unfoldable pub parse_allowance : Buffer → Result Error OnChainAllowance
parse_allowance d = do
  cap ← read_uint 8 8 d
  committed ← read_uint 8 16 d
  initialized ← read_uint 1 24 d
  bump ← read_uint 1 25 d
  ok (record { cap = cap; committed = committed; initialized = initialized == 1; bump = bump })
