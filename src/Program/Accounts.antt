-- ===== src/Program/Accounts.antt =====
-- programs/obp-core/src/state.rs: the accounts that the program stores. Anchor writes an account as
-- the eight bytes of its discriminator and then its fields in order, numbers with the lowest byte
-- first and arrays without a length; the discriminators are a parameter.
use offline_bearer_protocol.Buffer.{Buffer, le_bytes}
use offline_bearer_protocol.Prelude.{ℕ, List, [], ◌∷◌, ◌++◌, Bool, if◌then◌else◌}

pub record Config : Type 0 where
  pub mint_authority : Buffer
  pub vault_mint : Buffer
  pub bond_multiplier_bps : ℕ
  pub challenge_window_slots : ℕ
  pub max_links_per_tx : ℕ
  pub default_allowance : ℕ
  pub total_unspent_supply : ℕ
  pub sig_scheme : ℕ
  pub bump : ℕ

abbrev pub config_parts : Buffer → Config → List Buffer
config_parts disc c =
    disc
    ∷ c.mint_authority
    ∷ c.vault_mint
    ∷ le_bytes 4 c.bond_multiplier_bps
    ∷ le_bytes 8 c.challenge_window_slots
    ∷ le_bytes 2 c.max_links_per_tx
    ∷ le_bytes 8 c.default_allowance
    ∷ le_bytes 8 c.total_unspent_supply
    ∷ le_bytes 1 c.sig_scheme
    ∷ le_bytes 1 c.bump
    ∷ []

pub record MintRegistry : Type 0 where
  pub serial : Buffer
  pub value : ℕ
  pub genesis_state_hash : Buffer
  pub mint_slot : ℕ
  pub mint_tx : Buffer
  pub recipient : Buffer
  pub status : ℕ
  pub submissions_count : ℕ
  pub bump : ℕ

abbrev pub registry_parts : Buffer → MintRegistry → List Buffer
registry_parts disc r =
    disc
    ∷ r.serial
    ∷ le_bytes 8 r.value
    ∷ r.genesis_state_hash
    ∷ le_bytes 8 r.mint_slot
    ∷ r.mint_tx
    ∷ r.recipient
    ∷ le_bytes 1 r.status
    ∷ le_bytes 1 r.submissions_count
    ∷ le_bytes 1 r.bump
    ∷ []

pub record Submission : Type 0 where
  pub serial : Buffer
  pub attempt : ℕ
  pub checker : Buffer
  pub final_owner : Buffer
  pub links_count : ℕ
  pub started_slot : ℕ
  pub finalized_slot : ℕ
  pub status : ℕ
  pub states_len : ℕ
  pub states : List Buffer
  pub sig_commits : List Buffer
  pub bump : ℕ

-- The fields before the states, and the whole account.
abbrev pub submission_head : Buffer → Submission → List Buffer
submission_head disc s =
    disc
    ∷ s.serial
    ∷ le_bytes 1 s.attempt
    ∷ s.checker
    ∷ s.final_owner
    ∷ le_bytes 2 s.links_count
    ∷ le_bytes 8 s.started_slot
    ∷ le_bytes 8 s.finalized_slot
    ∷ le_bytes 1 s.status
    ∷ le_bytes 2 s.states_len
    ∷ []

abbrev pub submission_parts : Buffer → Submission → List Buffer
submission_parts disc s =
    submission_head disc s ++ (s.states ++ (s.sig_commits ++ le_bytes 1 s.bump ∷ []))

abbrev pub bool_byte : Bool → Buffer
bool_byte b = le_bytes 1 (if b then 1 else 0)

pub record HeadRegistry : Type 0 where
  pub set : Bool
  pub head_state : Buffer
  pub head_attempt : ℕ
  pub head_states_len : ℕ
  pub pending_since_slot : ℕ
  pub bump : ℕ

abbrev pub head_registry_parts : Buffer → HeadRegistry → List Buffer
head_registry_parts disc r =
    disc
    ∷ bool_byte r.set
    ∷ r.head_state
    ∷ le_bytes 1 r.head_attempt
    ∷ le_bytes 2 r.head_states_len
    ∷ le_bytes 8 r.pending_since_slot
    ∷ le_bytes 1 r.bump
    ∷ []

pub record Allowance : Type 0 where
  pub cap : ℕ
  pub committed : ℕ
  pub initialized : Bool
  pub bump : ℕ

abbrev pub allowance_parts : Buffer → Allowance → List Buffer
allowance_parts disc a =
    disc
    ∷ le_bytes 8 a.cap
    ∷ le_bytes 8 a.committed
    ∷ bool_byte a.initialized
    ∷ le_bytes 1 a.bump
    ∷ []
