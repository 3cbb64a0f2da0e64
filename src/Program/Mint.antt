-- ===== src/Program/Mint.antt =====
-- programs/obp-core/src/instructions/mint.rs: `mint_coin`, with Anchor's checks of its accounts first.
use offline_bearer_protocol.Buffer.{Buffer, alloc, equals}
use offline_bearer_protocol.Prelude.{
  ℕ, List, [], ◌∷◌, Option, none, some, true, false, ◌&&◌, Result, ok, guard, some_or, ◌>>=◌, ◌>>◌,
  ltb, leb, if◌then◌else◌,
}
use offline_bearer_protocol.Program.Accounts.{Config, MintRegistry, HeadRegistry, Allowance}
use offline_bearer_protocol.Program.Context.{CoinAccounts, put}
use offline_bearer_protocol.Program.Errors
use offline_bearer_protocol.Program.Errors.{Failure, obp, account_error}
use offline_bearer_protocol.Program.Start.{absent}
use offline_bearer_protocol.Program.State.{genesis_state, state_hash}
use offline_bearer_protocol.Program.Status.{active}
use offline_bearer_protocol.Program.Tokens.{TokenProgram, Addresses}
use offline_bearer_protocol.Program.Words.{add_word}

-- All accounts that the program works on: those of each coin stand together.
pub record World (Tokens : Type 0) : Type 0 where
  pub config : Config
  pub coins : List CoinAccounts
  pub allowances : Buffer → Option Allowance
  pub tokens : Tokens
  pub slot : ℕ

unfoldable pub find_coin : Buffer → List CoinAccounts → Option CoinAccounts
find_coin serial [] = none
find_coin serial (c ∷ coins) =
    if equals c.registry.serial serial then some c else find_coin serial coins

-- An account that `init_if_needed` makes holds zeros.
abbrev pub empty_allowance : Allowance
empty_allowance = record { cap = 0; committed = 0; initialized = false; bump = 0 }

abbrev pub no_head : HeadRegistry
no_head = record {
  set = false;
  head_state = alloc 104;
  head_attempt = 0;
  head_states_len = 0;
  pending_since_slot = 0;
  bump = 0;
}

abbrev pub or_empty : Option Allowance → Allowance
or_empty none = empty_allowance
or_empty (some a) = a

unfoldable pub commit : ℕ → ℕ → ℕ → Allowance → Result Failure Allowance
unfolding add_word
commit default_allowance bump value a = do
  let opened =
      if a.initialized
      then a
      else record a { cap = default_allowance; committed = 0; initialized = true }
  committed ← add_word 64 opened.committed value
  guard (leb committed opened.cap) (obp Errors.allowance_exceeded)
  ok (record opened { committed = committed; bump = bump })

unfoldable pub new_registry : Buffer → ℕ → Buffer → Buffer → Buffer → ℕ → ℕ → MintRegistry
new_registry serial value genesis_state_hash mint_tx recipient slot bump = record {
  serial = serial;
  value = value;
  genesis_state_hash = genesis_state_hash;
  mint_slot = slot;
  mint_tx = mint_tx;
  recipient = recipient;
  status = active;
  submissions_count = 0;
  bump = bump;
}

module _ {Tokens : Type 0} (hash : Buffer → Buffer) (spl : TokenProgram Tokens)
    (at : Addresses) where
  unfoldable pub mint_coin :
      Buffer
      → Buffer
      → ℕ
      → Buffer
      → Buffer
      → Buffer
      → Buffer
      → World Tokens
      → Result Failure (World Tokens)
  unfolding absent find_coin genesis_state state_hash add_word commit put new_registry
  mint_coin signer serial value recipient genesis_state_hash mint_tx vault w = do
    guard (equals signer w.config.mint_authority) (obp Errors.status_invalid)
    absent (find_coin serial w.coins)
    held ← some_or (spl.account w.tokens vault) account_error
    guard (equals held.mint w.config.vault_mint && equals held.owner at.vault_pda)
        (obp Errors.status_invalid)
    guard (ltb 0 value) (obp Errors.zero_value)
    guard (equals (state_hash hash (genesis_state serial value recipient)) genesis_state_hash)
        (obp Errors.genesis_mismatch)
    supply ← add_word 64 w.config.total_unspent_supply value
    guard (leb supply held.amount) (obp Errors.vault_underflow)
    allowance ←
        commit w.config.default_allowance (at.allowance_bump recipient) value
          (or_empty (w.allowances recipient))
    let registry =
        new_registry serial value genesis_state_hash mint_tx recipient w.slot
          (at.registry_bump serial)
    ok (record w {
      config = record w.config { total_unspent_supply = supply };
      coins = record { registry = registry; head = no_head; first = none; second = none } ∷ w.coins;
      allowances = put recipient allowance w.allowances;
    })
