-- ===== src/Chain.antt =====
-- sdk/src/chain.ts: verification of a coin's chain. The messages are constructors with the index
-- that they name. `verify_pk` is `MlDsaVerifier.verifyPk`, whose failure is caught.
pub mod Valid
pub mod Sound
pub mod Sigs
pub mod Verified
pub mod Accepts
pub mod Transfer
use offline_bearer_protocol.Buffer.{Buffer, equals}
use offline_bearer_protocol.Coin.{Curve, item, last_state}
use offline_bearer_protocol.Coinfile.{CoinCore}
use offline_bearer_protocol.Constants.SigScheme.{ed25519, mldsa44}
use offline_bearer_protocol.Errors.{Error, type_error, unsupported_scheme, no_key_provider}
use offline_bearer_protocol.Layout.{decode_state, state_hash, owner_of}
use offline_bearer_protocol.Prelude.{
  ℕ, zero, suc, ◌+◌, ◌-◌, List, [], ◌∷◌, ◌++◌, length, get_elem?, Option, none, some, Bool, true,
  false, ◌||◌, not, Result, ok, err, guard, ◌>>=◌, ◌>>◌, ltb, ◌==◌, if◌then◌else◌,
}

pub data ChainError : Type 0 where
  no_states prev_hash_not_zero genesis_differs : ChainError
  serial_differs value_differs prev_hash_differs sig_invalid : ℕ → ChainError

pub record ChainVerifyResult : Type 0 where
  pub is_ok : Bool
  pub errors : List ChainError
  pub head_hash : Buffer

-- `if (!test) errors.push(e)`
abbrev pub expect : Bool → ChainError → List ChainError
expect true e = []
expect false e = e ∷ []

-- `b.some((x) => x !== 0)`
unfoldable pub some_nonzero : Buffer → Bool
some_nonzero [] = false
some_nonzero (b ∷ bs) = not (b == 0) || some_nonzero bs

-- The loop over serial and value, from index `i` on.
unfoldable pub check_fields : CoinCore → ℕ → List Buffer → Result Error (List ChainError)
check_fields c i [] = ok []
check_fields c i (s ∷ states) = do
  st ← decode_state s
  later ← check_fields c (i + 1) states
  ok (
      expect (equals st.serial c.serial) (serial_differs i)
      ++ (expect (st.value == c.value) (value_differs i) ++ later))

-- A scheme other than Ed25519 makes every signature invalid.
unfoldable pub ed25519_valid : Curve → ℕ → Buffer → Buffer → Buffer → Option Bool
ed25519_valid curve sig_scheme sig h owner =
    if sig_scheme == ed25519 then curve.verify sig h owner else some false

module _ (sha256 : Buffer → Buffer) where
  -- The loop over prevHash, for the state before index `i` and those from `i` on.
  unfoldable pub check_hashes : ℕ → Buffer → List Buffer → Result Error (List ChainError)
  check_hashes i prev [] = ok []
  check_hashes i prev (s ∷ states) = do
    prev_h ← state_hash sha256 prev
    st ← decode_state s
    later ← check_hashes (i + 1) s states
    ok (expect (equals st.prev_hash prev_h) (prev_hash_differs i) ++ later)

  unfoldable pub check_first : List Buffer → Result Error (List ChainError)
  check_first [] = ok (no_states ∷ [])
  check_first (s ∷ states) = do
    st0 ← decode_state s
    links ← check_hashes 1 s states
    ok (expect (not (some_nonzero st0.prev_hash)) prev_hash_not_zero ++ links)

  unfoldable pub check_genesis : Option Buffer → CoinCore → Result Error (List ChainError)
  check_genesis none c = ok []
  check_genesis (some genesis_hash) c = do
    s ← item c.states 0
    h ← state_hash sha256 s
    ok (expect (equals h genesis_hash) genesis_differs)

  unfoldable pub verify_structure : CoinCore → Option Buffer → Result Error (List ChainError)
  unfolding check_fields check_first check_hashes check_genesis
  verify_structure c genesis_hash = do
    fields ← check_fields c 0 c.states
    links ← check_first c.states
    anchor ← check_genesis genesis_hash c
    ok (fields ++ (links ++ anchor))

  -- The loop over signatures. `valid sig h key` is the call in the `try` block, `none` if it
  -- throws; so does a call on a signature that is not there. `key` is the key provider, which is
  -- called before the `try` block, or the identity. The owner of a state that cannot be read makes it
  -- fail, but `verifyStructure` has thrown before.
  module _ (key : Buffer → Result Error Buffer) (valid : Buffer → Buffer → Buffer → Option Bool)
      (sigs : List Buffer) where
    unfoldable pub is_valid : ℕ → Buffer → Buffer → Bool
    is_valid i h pk = elim (get_elem? sigs (i - 1)) [
      | none ↦ false
      | some sig ↦ elim (valid sig h pk) [ none ↦ false | some b ↦ b ]
    ]

    unfoldable pub check_sigs : ℕ → Buffer → List Buffer → Result Error (List ChainError)
    unfolding is_valid
    check_sigs i prev [] = ok []
    check_sigs i prev (s ∷ states) = do
      cur_h ← state_hash sha256 s
      owner ← owner_of prev
      pk ← key owner
      later ← check_sigs (i + 1) s states
      ok (expect (is_valid i cur_h pk) (sig_invalid (i - 1)) ++ later)

    unfoldable pub check_all_sigs : List Buffer → Result Error (List ChainError)
    unfolding check_sigs
    check_all_sigs [] = ok []
    check_all_sigs (s ∷ states) = check_sigs 1 s states

  unfoldable pub conclude : List Buffer → List ChainError → Result Error ChainVerifyResult
  conclude states errors = do
    last ← last_state states
    h ← state_hash sha256 last
    ok (record { is_ok = length errors == 0; errors = errors; head_hash = h })

  unfoldable pub verify_coin_chain :
      Curve → CoinCore → Option Buffer → Result Error ChainVerifyResult
  unfolding verify_structure check_all_sigs conclude
  verify_coin_chain curve c genesis_hash = do
    structure ← verify_structure c genesis_hash
    sigs ← check_all_sigs ok (ed25519_valid curve c.sig_scheme) c.sigs c.states
    conclude c.states (structure ++ sigs)

  -- `key_provider` may be missing, and may fail.
  unfoldable pub verify_coin_chain_async :
      Curve
      → (Buffer → Buffer → Buffer → Option Bool)
      → CoinCore
      → Option Buffer
      → Option (Buffer → Result Error Buffer)
      → Result Error ChainVerifyResult
  unfolding verify_coin_chain
  verify_coin_chain_async curve verify_pk c genesis_hash key_provider =
      if c.sig_scheme == ed25519 then verify_coin_chain curve c genesis_hash else do
        guard (c.sig_scheme == mldsa44) unsupported_scheme
        provide ← elim key_provider [ none ↦ err no_key_provider | some f ↦ ok f ]
        structure ← verify_structure c genesis_hash
        sigs ← check_all_sigs provide (λ sig h pk. verify_pk pk h sig) c.sigs c.states
        conclude c.states (structure ++ sigs)
