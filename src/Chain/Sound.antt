-- ===== src/Chain/Sound.antt =====
-- `verifyCoinChain` of sdk/src/chain.ts accepts exactly the valid chains.
use offline_bearer_protocol.Buffer.{Buffer}
use offline_bearer_protocol.Buffer.Cuts.{equals_iff}
use offline_bearer_protocol.Chain.{ChainError, expect, some_nonzero, check_fields, check_hashes}
use offline_bearer_protocol.Chain.Valid.{IsStateOf}
use offline_bearer_protocol.Coinfile.{CoinCore}
use offline_bearer_protocol.Layout.{CoinState, decode_state, state_hash, owner_of}
use offline_bearer_protocol.Layout.Encoding.{state_of, decode_state-eq}
use offline_bearer_protocol.Prelude.{
  ℕ, ◌+◌, List, [], ◌∷◌, ◌++◌, ◌≡◌, ◌↔◌, refl, sym, ◌∙◌, All, length, Bool, true, false, ok,
  guard-eq-ok, ok-injective, >>=-eq-ok, ==_iff, arith,
}

pub some_nonzero_iff : (b : Buffer) → (some_nonzero b ≡ false) ↔ All (λ x. x ≡ 0) b
unfolding some_nonzero
some_nonzero_iff [] = ground arith
some_nonzero_iff (x ∷ b) = ground (arith, some_nonzero_iff b)

decode_state-size : (s : Buffer) {d : CoinState} → decode_state s ≡ ok d → length s ≡ 104
unfolding decode_state
decode_state-size s h = (==_iff (length s) 104).0 (guard-eq-ok _ _ _ h).0

pub append-eq-nil : (xs ys : List ChainError) → ((xs ++ ys) ≡ []) ↔ ((xs ≡ []) × (ys ≡ []))
append-eq-nil [] ys = (λ e. (refl, e), λ e. e.1)
append-eq-nil (x ∷ xs) ys = (λ e. cc, λ e. cc)

pub expect-eq-nil : (t : Bool) (e : ChainError) → (expect t e ≡ []) ↔ (t ≡ true)
expect-eq-nil true e = ground arith
expect-eq-nil false e = ground arith

module _ (c : CoinCore) (i : ℕ) (s : Buffer) (states : List Buffer)
    (ih : (check_fields c (i + 1) states ≡ ok []) ↔ All (IsStateOf c.serial c.value) states) where
  fields_forth :
      check_fields c i (s ∷ states) ≡ ok [] → All (IsStateOf c.serial c.value) (s ∷ states)
  unfolding check_fields
  fields_forth e =
      let (st, e1, e2) = >>=-eq-ok (decode_state s) _ e in
      let size = decode_state-size s e1 in
      let same : st ≡ state_of s = ok-injective (sym e1 ∙ decode_state-eq s size) in
      let (later, e3, e4) = >>=-eq-ok (check_fields c (i + 1) states) _ e2 in
      let (serial, rest) = (append-eq-nil _ _).0 (ok-injective e4) in
      let (value, none_later) = (append-eq-nil _ _).0 rest in
      (
        record {
          size_104 = size;
          same_serial =
              rw same at ((equals_iff st.serial c.serial).0 ((expect-eq-nil _ _).0 serial));
          same_value = rw same at ((==_iff st.value c.value).0 ((expect-eq-nil _ _).0 value));
        },
        ih.0 (rw none_later at e3),
      )

  fields_back :
      All (IsStateOf c.serial c.value) (s ∷ states) → check_fields c i (s ∷ states) ≡ ok []
  unfolding check_fields
  fields_back (h, hs) = rw (
    decode_state-eq s h.size_104,
    ih.1 hs,
    (equals_iff _ _).1 h.same_serial,
    (==_iff _ _).1 h.same_value,
  )

pub check_fields_iff :
    (c : CoinCore) (i : ℕ) (states : List Buffer)
    → (check_fields c i states ≡ ok []) ↔ All (IsStateOf c.serial c.value) states
unfolding check_fields
check_fields_iff c i [] = (λ _. tt, λ _. refl)
check_fields_iff c i (s ∷ states) =
    let ih = check_fields_iff c (i + 1) states in
    (fields_forth c i s states ih, fields_back c i s states ih)

pub owner_of-eq : (s : Buffer) → length s ≡ 104 → owner_of s ≡ ok (state_of s).owner
unfolding owner_of
owner_of-eq s h = rw (decode_state-eq s h)

module _ (sha256 : Buffer → Buffer) where
  -- Every state has the size of a state and holds the hash of the one before.
  abbrev pub Hashed : Buffer → List Buffer → Type 0
  Hashed prev [] = Unit
  Hashed prev (s ∷ states) = ((state_of s).prev_hash ≡ sha256 prev) × Hashed s states

  pub state_hash-eq : (s : Buffer) → length s ≡ 104 → state_hash sha256 s ≡ ok (sha256 s)
  unfolding state_hash
  state_hash-eq s h = rw h

  module _ (i : ℕ) (prev s : Buffer) (states : List Buffer) (hp : length prev ≡ 104)
      (h : length s ≡ 104)
      (ih : (check_hashes sha256 (i + 1) s states ≡ ok []) ↔ Hashed s states) where
    hashes_forth : check_hashes sha256 i prev (s ∷ states) ≡ ok [] → Hashed prev (s ∷ states)
    unfolding check_hashes
    hashes_forth e =
        let e' = rw (state_hash-eq prev hp, decode_state-eq s h) at e in
        let (later, e3, e4) = >>=-eq-ok (check_hashes sha256 (i + 1) s states) _ e' in
        let (link, none_later) = (append-eq-nil _ _).0 (ok-injective e4) in
        ((equals_iff _ _).0 ((expect-eq-nil _ _).0 link), ih.0 (rw none_later at e3))

    hashes_back : Hashed prev (s ∷ states) → check_hashes sha256 i prev (s ∷ states) ≡ ok []
    unfolding check_hashes
    hashes_back (link, links) =
        rw (state_hash-eq prev hp, decode_state-eq s h, ih.1 links, (equals_iff _ _).1 link)

  pub check_hashes_iff :
      (i : ℕ) (prev : Buffer) (states : List Buffer)
      → length prev ≡ 104
      → All (λ s. length s ≡ 104) states
      → (check_hashes sha256 i prev states ≡ ok []) ↔ Hashed prev states
  unfolding check_hashes
  check_hashes_iff i prev [] hp hs = (λ _. tt, λ _. refl)
  check_hashes_iff i prev (s ∷ states) hp (h, hs) =
      let ih = check_hashes_iff (i + 1) s states h hs in
      (hashes_forth i prev s states hp h ih, hashes_back i prev s states hp h ih)
