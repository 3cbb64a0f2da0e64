-- ===== src/Checkin.antt =====
-- sdk/src/orchestrate.ts: what `runCheckIn` checks before it sends anything, and the batches of
-- links that it appends. What it reads from the endpoint is an argument.
pub mod Checked
pub mod Batch
pub mod Window
pub mod Steps
use offline_bearer_protocol.Buffer.{Buffer, equals, subarray}
use offline_bearer_protocol.Chain.{verify_coin_chain}
use offline_bearer_protocol.Coin.{Curve, item, last_state, current_owner}
use offline_bearer_protocol.Coinfile.{CoinCore}
use offline_bearer_protocol.Constants.SigScheme.{ed25519}
use offline_bearer_protocol.Errors.{
  Error, type_error, not_ed25519, chain_invalid, config_missing, registry_missing, coin_spent,
  registry_status, recipient_mismatch, mint_mismatch, chain_incomplete,
}
use offline_bearer_protocol.Instructions.Append.{Link, AppendPlan}
use offline_bearer_protocol.Layout.{state_hash}
use offline_bearer_protocol.Prelude.{
  ℕ, zero, suc, ◌+◌, ◌-◌, ◌*◌, ◌/◌, min, List, [], ◌∷◌, length, Option, none, some, Result, ok, err,
  guard, throw_if, ◌>>=◌, ◌>>◌, ◌==◌,
}
use offline_bearer_protocol.Readers.{OnChainConfig, OnChainRegistry, OnChainSubmission}
use offline_bearer_protocol.Solana.{PublicKey}

unfoldable pub bond_of : ℕ → ℕ → ℕ
bond_of value bps = value * bps / 10000

-- `RegistryStatus` and `SubmissionStatus`
abbrev pub registry_active : ℕ
registry_active = 0

abbrev pub registry_spent : ℕ
registry_spent = 1

abbrev pub submission_pending : ℕ
submission_pending = 2

-- What the checks leave for the steps after them.
pub record Prepared : Type 0 where
  pub final_owner : PublicKey
  pub bond : ℕ

-- `if (!x) throw e`, of an object or null
unfoldable pub present : {A : Type 0} → Option A → Error → Result Error A
present none e = err e
present (some a) e = ok a

-- `states[states_len - 1]`; the index -1 gives `undefined`
unfoldable pub item_before : List Buffer → ℕ → Result Error Buffer
item_before items zero = err type_error
item_before items (suc i) = item items i

-- `k` links, from the state at index `i` on; an `undefined` is refused when the links are put
-- together
unfoldable pub batch_links : List Buffer → List Buffer → ℕ → ℕ → Result Error (List Link)
batch_links states sigs i zero = ok []
batch_links states sigs i (suc k) = do
  state ← item states i
  sig ← item sigs (i - 1)
  links ← batch_links states sigs (i + 1) k
  ok (record { state = state; sig = sig } ∷ links)

module _ (sha256 : Buffer → Buffer) where
  -- From the start of `runCheckIn` to the bond.
  unfoldable pub prepare :
      Curve
      → CoinCore
      → PublicKey
      → Option OnChainConfig
      → Option OnChainRegistry
      → Result Error Prepared
  unfolding bond_of present
  prepare curve coin recipient fetched_config fetched_registry = do
    guard (coin.sig_scheme == ed25519) not_ed25519
    chain ← verify_coin_chain sha256 curve coin none
    guard chain.is_ok chain_invalid
    final_owner ← current_owner coin
    cfg ← present fetched_config config_missing
    reg ← present fetched_registry registry_missing
    throw_if (reg.status == registry_spent) coin_spent
    guard (reg.status == registry_active) registry_status
    guard (equals reg.recipient recipient) recipient_mismatch
    first ← item coin.states 0
    h ← state_hash sha256 first
    guard (equals h reg.genesis_state_hash) mint_mismatch
    ok (record { final_owner = final_owner; bond = bond_of reg.value cfg.bond_multiplier_bps })

  -- One round of the loop, for a submission that has fewer states than the coin.
  unfoldable pub plan_for : CoinCore → ℕ → OnChainSubmission → Result Error AppendPlan
  unfolding batch_links item_before
  plan_for coin max_links_per_tx sub = do
    throw_if (sub.status == submission_pending) chain_incomplete
    head ← item_before sub.states sub.states_len
    let max_batch = min max_links_per_tx (length coin.states - sub.states_len)
    links ← batch_links coin.states coin.sigs sub.states_len max_batch
    last ← last_state coin.states
    last_hash ← state_hash sha256 last
    ok (record { head_owner = subarray head 40 72; links = links; last_hash = last_hash })
