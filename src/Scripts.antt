-- ===== src/Scripts.antt =====
-- The parts of sdk/scripts and of the smoke runs that compute: coins, plans and instructions that the
-- scripts build from what they have read. Sending and printing is left out.
pub mod Held
mod Smoke
use offline_bearer_protocol.Buffer.{Buffer, alloc, subarray, copy, write_uint}
use offline_bearer_protocol.Checkin.{item_before, batch_links}
use offline_bearer_protocol.Coin.{Signer, new_coin, append_link, item}
use offline_bearer_protocol.Coinfile.{CoinCore}
use offline_bearer_protocol.Errors.{Error}
use offline_bearer_protocol.Instructions.{finalize_ix, settle_ix, mint_coin_ix}
use offline_bearer_protocol.Instructions.Append.{AppendPlan}
use offline_bearer_protocol.Layout.{state_hash}
use offline_bearer_protocol.Prelude.{
  ℕ, ◌+◌, ◌-◌, ◌<◌, List, [], ◌∷◌, ◌++◌, length, map, min, Option, none, some, Bool, true, false,
  not, ◌||◌, Result, ok, guard, throw_if, ltb, ◌==◌, ◌>>=◌, ◌>>◌, if◌then◌else◌,
}
use offline_bearer_protocol.Readers.{OnChainSubmission}
use offline_bearer_protocol.Solana.{PublicKey, Solana, TransactionInstruction}

-- A key pair, as far as a coin's holder uses it.
pub record Owner : Type 0 where
  pub public_key : PublicKey
  pub signer : Signer

abbrev submission_receiving : ℕ
submission_receiving = 0

abbrev submission_submitted : ℕ
submission_submitted = 1

abbrev submission_pending : ℕ
submission_pending = 2

module _ (sha256 : Buffer → Buffer) where
  -- The loop of `buildChain`: each owner hands the coin to the next one.
  unfoldable pub hand_on : CoinCore → Owner → List Owner → Result Error CoinCore
  unfolding append_link
  hand_on coin owner [] = ok coin
  hand_on coin owner (next ∷ owners) = do
    longer ← append_link sha256 coin owner.signer next.public_key
    hand_on longer next owners

  -- `buildChain`, of owners of whom there is a first
  unfoldable pub build_chain : Buffer → ℕ → Owner → List Owner → Result Error CoinCore
  unfolding new_coin hand_on
  build_chain serial value first owners = do
    coin ← new_coin serial value first.public_key
    hand_on coin first owners

  -- The transaction hash that `mintNew` makes up.
  unfoldable pub made_up_tx : Buffer → ℕ → PublicKey → Result Error Buffer
  made_up_tx serial value recipient = do
    amount ← write_uint 8 value 0 (alloc 8)
    ok (sha256 (serial ++ (amount ++ recipient)) ++ sha256 (amount ++ (recipient ++ serial)))

  -- One round of `appendTo`: nothing is left to send, or the next batch up to a length.
  unfoldable pub append_round :
      CoinCore → ℕ → ℕ → OnChainSubmission → Result Error (Option AppendPlan)
  unfolding batch_links item_before state_hash
  append_round coin max_links_per_tx target_len sub =
      if ltb sub.states_len target_len
      then (item_before coin.states sub.states_len >>= λ head.
          batch_links coin.states coin.sigs sub.states_len
            (min max_links_per_tx (target_len - sub.states_len))
          >>= λ links.
              item_before coin.states
                (sub.states_len + min max_links_per_tx (target_len - sub.states_len))
              >>= λ last. state_hash sha256 last >>= λ last_hash. ok (
                  some (record {
                    head_owner = subarray head 40 72;
                    links = links;
                    last_hash = last_hash;
                  })))
      else ok none

  module _ (net : Solana) where
    unfoldable pub can_finalize : OnChainSubmission → Bool
    can_finalize sub = (sub.status == submission_receiving) || (sub.status == submission_submitted)

    -- `finalizeA`, `finalizeB` and `settle`: the instruction, where the status wants one. An attempt
    -- is 0 or 1.
    unfoldable pub finalize_a :
        Buffer
        → ℕ
        → PublicKey
        → PublicKey
        → PublicKey
        → OnChainSubmission
        → Option TransactionInstruction
    unfolding can_finalize finalize_ix
    finalize_a serial attempt recipient vault_mint payer sub =
        if can_finalize sub
        then some (
            finalize_ix sha256 net serial attempt (1 - attempt) recipient sub.checker
              sub.final_owner vault_mint payer none)
        else none

    unfoldable pub finalize_b :
        Buffer
        → ℕ
        → PublicKey
        → PublicKey
        → PublicKey
        → OnChainSubmission
        → OnChainSubmission
        → Option TransactionInstruction
    unfolding can_finalize finalize_ix
    finalize_b serial my_attempt recipient vault_mint payer my_sub other_sub =
        if can_finalize my_sub
        then some (
            finalize_ix sha256 net serial my_attempt (1 - my_attempt) recipient my_sub.checker
              my_sub.final_owner vault_mint payer (some other_sub.checker))
        else none

    unfoldable pub settle_pending :
        Buffer
        → ℕ
        → PublicKey
        → PublicKey
        → PublicKey
        → OnChainSubmission
        → Option TransactionInstruction
    unfolding settle_ix
    settle_pending serial attempt recipient vault_mint payer sub =
        if sub.status == submission_pending
        then some (
            settle_ix sha256 net serial attempt (1 - attempt) recipient sub.checker sub.final_owner
              vault_mint payer)
        else none

  -- The field of 64 bytes that commits to a signature.
  unfoldable pub commit_field : Buffer → Buffer
  commit_field sig = subarray (sha256 sig) 0 32 ++ alloc 32

-- `buildData`, of a public key, a message and a signature
unfoldable pub build_data : Buffer → Buffer → Buffer → Result Error Buffer
build_data pk message sig = do
  let out = alloc (4 + length pk + 4 + length message + length sig)
  b1 ← write_uint 4 (length pk) 0 out
  let b2 = copy pk b1 4
  b3 ← write_uint 4 (length message) (4 + length pk) b2
  let b4 = copy message b3 (4 + length pk + 4)
  ok (copy sig b4 (4 + length pk + 4 + length message))
