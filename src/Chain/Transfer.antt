-- ===== src/Chain/Transfer.antt =====
-- Coins made by sdk/src/coin.ts pass the verification of sdk/src/chain.ts.
use offline_bearer_protocol.Buffer.{Buffer, IsByte, alloc, le_bytes}
use offline_bearer_protocol.Buffer.Words.{le_bytes-IsByte}
use offline_bearer_protocol.Chain.Sound.{owner_of-eq, state_hash-eq}
use offline_bearer_protocol.Chain.Verified.{last_state-All}
use offline_bearer_protocol.Chain.Valid.{IsStateOf, Linked, Starting, IsChain}
use offline_bearer_protocol.Coin.{Curve, Signer, last_state, new_coin, current_owner, append_link}
use offline_bearer_protocol.Coinfile.{CoinCore}
use offline_bearer_protocol.Errors.{Error}
use offline_bearer_protocol.Layout.{CoinState, genesis_state, owner_of}
use offline_bearer_protocol.Layout.Encoding.{
  IsState, state_bytes, state_of, encode_state-eq, decode_state-eq, decode_state-bytes,
  length-state_bytes,
}
use offline_bearer_protocol.Layout.RoundTrip.{handed_on, handed_on-IsState, next_state-eq}
use offline_bearer_protocol.Prelude.{
  ℕ, ◌+◌, ◌^◌, ◌<◌, List, [], ◌∷◌, ◌++◌, ◌≡◌, refl, sym, ap, ◌∙◌, All, All-append, All-take, length,
  length-append, some, true, Result, ok, ok-injective, arith,
}

-- What sha256 promises of every digest.
abbrev pub IsDigest : (Buffer → Buffer) → Type 0
IsDigest sha256 = (b : Buffer) → (length (sha256 b) ≡ 32) × All IsByte (sha256 b)

state_bytes-IsByte :
    (c : CoinState)
    → All IsByte c.serial
    → All IsByte c.owner
    → All IsByte c.prev_hash
    → All IsByte (state_bytes c)
unfolding state_bytes
state_bytes-IsByte c hs ho hp = All-append IsByte c.serial _ hs (
    All-append IsByte (le_bytes 8 c.value) _ (le_bytes-IsByte 8 c.value)
      (All-append IsByte c.owner _ ho (All-append IsByte c.prev_hash [] hp tt)))

-- The state that the bytes of a state hold is that state.
pub state_of-bytes : (c : CoinState) → IsState c → state_of (state_bytes c) ≡ c
state_of-bytes c v =
    ok-injective {E = Error}
      (sym (decode_state-eq (state_bytes c) (length-state_bytes c v)) ∙ decode_state-bytes c v)

last_state-append :
    (s n : Buffer) (states : List Buffer) → last_state (s ∷ (states ++ n ∷ [])) ≡ ok n
unfolding last_state
last_state-append s n [] = refl
last_state-append s n (t ∷ states) = last_state-append t n states

module _ (sha256 : Buffer → Buffer) (curve : Curve) where
  -- A coin that `owner` can hand on.
  pub record IsHeld (c : CoinCore) (owner : Buffer) : Type 0 where
    pub chain : IsChain sha256 curve c
    pub counted : length c.states ≡ length c.sigs + 1
    pub bytes : All (All IsByte) c.states
    pub owned : current_owner c ≡ ok owner

  Linked-append :
      (s : Buffer) (states sigs : List Buffer) (l n g : Buffer)
      → length states ≡ length sigs
      → last_state (s ∷ states) ≡ ok l
      → Linked sha256 curve s states sigs
      → (state_of n).prev_hash ≡ sha256 l
      → curve.verify g (sha256 n) (state_of l).owner ≡ some true
      → Linked sha256 curve s (states ++ n ∷ []) (sigs ++ g ∷ [])
  unfolding last_state
  Linked-append s [] [] l n g count last links hash sig =
      let e : s ≡ l = ok-injective {E = Error} last in rw e (hash, sig, tt)
  Linked-append s [] (h ∷ sigs) l n g count last links hash sig = absurd (omega arith)
  Linked-append s (t ∷ states) [] l n g count last links hash sig = absurd links
  Linked-append s (t ∷ states) (h ∷ sigs) l n g count last (ph, ok_sig, links) hash sig =
      (ph, ok_sig, Linked-append t states sigs l n g (omega arith) last links hash sig)

  module _ (digest : IsDigest sha256) where
    -- With digests of 32 bytes, `newCoin` of a serial and a recipient of 32 bytes and a value of 64
    -- bits returns a coin that its recipient holds: its chain is valid.
    pub new_coin-IsHeld :
        (serial owner : Buffer) (value : ℕ)
        → length serial ≡ 32
        → length owner ≡ 32
        → value < 256 ^ 8
        → All IsByte serial
        → All IsByte owner
        → (c : CoinCore) × (new_coin serial value owner ≡ ok c) × IsHeld c owner
    unfolding new_coin genesis_state current_owner last_state owner_of
    new_coin-IsHeld serial owner value hs ho hv bs bo =
        let st : CoinState = record {
          serial = serial;
          value = value;
          owner = owner;
          prev_hash = alloc 32;
        } in
        let v : IsState st = record {
          serial_32 = hs;
          value_u64 = hv;
          owner_32 = ho;
          prev_hash_32 = refl;
        } in
        let same = state_of-bytes st v in
        (
          record {
            serial = serial;
            value = value;
            states = state_bytes st ∷ [];
            sigs = [];
            sig_scheme = 0;
          },
          rw (encode_state-eq st v),
          record {
            chain = record {
              fields = (
                record {
                  size_104 = length-state_bytes st v;
                  same_serial = ap (λ (x : CoinState). x.serial) same;
                  same_value = ap (λ (x : CoinState). x.value) same;
                },
                tt,
              );
              links = (rw same (omega arith), tt);
            };
            counted = omega arith;
            bytes = (state_bytes-IsByte st bs bo (omega arith), tt);
            owned = rw (decode_state-bytes st v);
          },
        )

  module _ (digest : IsDigest sha256) (serial : Buffer) (value : ℕ) where
    -- the last state of a chain is a state of the coin
    last_of :
        (states sigs : List Buffer)
        → All (IsStateOf serial value) states
        → Starting sha256 curve states sigs
        → All (All IsByte) states
        → (l : Buffer) × (last_state states ≡ ok l) × (IsStateOf serial value l × All IsByte l)
    last_of [] sigs fields links bytes = absurd links
    last_of (s ∷ states) sigs fields links bytes =
        last_state-All (λ x. IsStateOf serial value x × All IsByte x) s states
          (both (s ∷ states) fields bytes)
      where
        both :
            (xs : List Buffer)
            → All (IsStateOf serial value) xs
            → All (All IsByte) xs
            → All (λ x. IsStateOf serial value x × All IsByte x) xs
        both [] f b = tt
        both (x ∷ xs) f b = ((f.0, b.0), both xs f.1 b.1)

    -- a chain with one more state and signature
    Starting-append :
        (states sigs : List Buffer) (l n g : Buffer)
        → length states ≡ length sigs + 1
        → last_state states ≡ ok l
        → Starting sha256 curve states sigs
        → (state_of n).prev_hash ≡ sha256 l
        → curve.verify g (sha256 n) (state_of l).owner ≡ some true
        → Starting sha256 curve (states ++ n ∷ []) (sigs ++ g ∷ [])
          × (last_state (states ++ n ∷ []) ≡ ok n)
    Starting-append [] sigs l n g count last links hash sig = absurd links
    Starting-append (s ∷ states) sigs l n g count last (zero, links) hash sig = (
      (zero, Linked-append s states sigs l n g (omega arith) last links hash sig),
      last_state-append s n states,
    )

  module _ (digest : IsDigest sha256) (c : CoinCore) (owner new_owner : Buffer)
      (signer : Signer) where
    -- Handing on: the coin's holder signs, with a signature that verifies under the holder's key.
    abbrev pub SignsFor : Type 0
    SignsFor =
        (h : Buffer) → (g : Buffer) × (signer.sign h ≡ ok g) × (curve.verify g h owner ≡ some true)

    -- `appendLink` of a held coin to a new owner of 32 bytes, by a signer whose signatures verify
    -- under the holder's key, with digests of 32 bytes, returns a coin with one state and one signature more,
    -- which the new owner holds: the whole chain is valid again.
    pub append_link-IsHeld :
        IsHeld c owner
        → length new_owner ≡ 32
        → All IsByte new_owner
        → SignsFor
        → (c' : CoinCore) × (append_link sha256 c signer new_owner ≡ ok c')
          × IsHeld c' new_owner
          × (length c'.states ≡ length c.states + 1)
    unfolding append_link current_owner handed_on state_of
    append_link-IsHeld held h32 new_bytes signs =
        let size_32 = λ (b : Buffer). (digest b).0 in
        let (l, found, (f, l_bytes)) =
          last_of digest c.serial c.value c.states c.sigs held.chain.fields held.chain.links
            held.bytes in
        let st = handed_on sha256 size_32 l new_owner in
        let v = handed_on-IsState sha256 size_32 l new_owner f.size_104 l_bytes h32 in
        let n = state_bytes st in
        let size = length-state_bytes st v in
        let same = state_of-bytes st v in
        let made = next_state-eq sha256 size_32 l new_owner f.size_104 l_bytes h32 in
        let owned : (state_of l).owner ≡ owner =
          ok-injective {E = Error} (sym (owner_of-eq l f.size_104) ∙ (rw found at held.owned)) in
        let (g, signed, good) = signs (sha256 n) in
        let (links, last) =
          Starting-append digest c.serial c.value c.states c.sigs l n g held.counted found
            held.chain.links (ap (λ (x : CoinState). x.prev_hash) same) (rw owned good) in
        (
          record c { states = c.states ++ n ∷ []; sigs = c.sigs ++ g ∷ [] },
          rw (found, made, state_hash-eq sha256 n size, signed),
          record {
            chain = record {
              fields = All-append (IsStateOf c.serial c.value) c.states (n ∷ []) held.chain.fields (
                record {
                  size_104 = size;
                  same_serial = ap (λ (x : CoinState). x.serial) same ∙ f.same_serial;
                  same_value = ap (λ (x : CoinState). x.value) same ∙ f.same_value;
                },
                tt,
              );
              links = links;
            };
            counted = omega (
              arith,
              held.counted,
              length-append c.states (n ∷ []),
              length-append c.sigs (g ∷ []),
            );
            bytes =
                All-append (All IsByte) c.states (n ∷ []) held.bytes
                  (state_bytes-IsByte st (All-take IsByte 32 l l_bytes) new_bytes (digest l).1, tt);
            owned = rw last (
                owner_of-eq n size
                ∙ ap (λ (x : CoinState). let r : Result Error Buffer = ok x.owner in r) same);
          },
          omega (arith, length-append c.states (n ∷ [])),
        )
