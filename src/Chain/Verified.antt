-- ===== src/Chain/Verified.antt =====
-- `verifyCoinChain` of sdk/src/chain.ts accepts exactly the valid chains.
use offline_bearer_protocol.Buffer.{Buffer}
use offline_bearer_protocol.Buffer.Cuts.{equals_iff}
use offline_bearer_protocol.Chain.{
  some_nonzero, check_fields, check_hashes, check_first, check_genesis, verify_structure,
}
use offline_bearer_protocol.Chain.Valid.{IsStateOf}
use offline_bearer_protocol.Chain.Sound.{
  append-eq-nil, expect-eq-nil, some_nonzero_iff, check_fields_iff, check_hashes_iff, Hashed,
  state_hash-eq,
}
use offline_bearer_protocol.Coin.{last_state, item}
use offline_bearer_protocol.Coinfile.{CoinCore}
use offline_bearer_protocol.Layout.Encoding.{state_of, decode_state-eq}
use offline_bearer_protocol.Prelude.{
  List, [], ◌∷◌, ◌≡◌, ◌↔◌, refl, sym, ap, ◌∙◌, All, length, Option, none, some, true, not, ok,
  ok-injective, >>=-eq-ok, arith,
}

module _ (P : Buffer → Type 0) where
  pub last_state-All :
      (s : Buffer) (states : List Buffer)
      → All P (s ∷ states)
      → (l : Buffer) × (last_state (s ∷ states) ≡ ok l) × P l
  unfolding last_state
  last_state-All s [] (h, _) = (s, refl, h)
  last_state-All s (t ∷ states) (_, h) = last_state-All t states h

module _ (sha256 : Buffer → Buffer) where
  -- The chain begins at the state whose hash is anchored on-chain, where one is given.
  abbrev pub Anchored : Option Buffer → CoinCore → Type 0
  Anchored none c = Unit
  Anchored (some g) c = (s : Buffer) × (item c.states 0 ≡ ok s) × (sha256 s ≡ g)

  pub structure_parts :
      (c : CoinCore) (g : Option Buffer)
      → verify_structure sha256 c g ≡ ok []
      → (check_fields c 0 c.states ≡ ok [])
        × (check_first sha256 c.states ≡ ok [])
        × (check_genesis sha256 g c ≡ ok [])
  unfolding verify_structure
  structure_parts c g e =
      let (fields, e1, e2) = >>=-eq-ok (check_fields c 0 c.states) _ e in
      let (links, e3, e4) = >>=-eq-ok (check_first sha256 c.states) _ e2 in
      let (anchor, e5, e6) = >>=-eq-ok (check_genesis sha256 g c) _ e4 in
      let (no_fields, rest) = (append-eq-nil fields _).0 (ok-injective e6) in
      let (no_links, no_anchor) = (append-eq-nil links anchor).0 rest in
      (e1 ∙ ap ok no_fields, e3 ∙ ap ok no_links, e5 ∙ ap ok no_anchor)

  module _ (c : CoinCore) (s : Buffer) (states : List Buffer) (is : c.states ≡ s ∷ states)
      (sizes : All (λ b. length b ≡ 104) (s ∷ states)) where
    first_zero_iff :
        (not (some_nonzero (state_of s).prev_hash) ≡ true) ↔ All (λ b. b ≡ 0) (state_of s).prev_hash
    first_zero_iff = ground (arith, some_nonzero_iff (state_of s).prev_hash)

    links_iff : (check_hashes sha256 1 s states ≡ ok []) ↔ Hashed sha256 s states
    links_iff = check_hashes_iff sha256 1 s states sizes.0 sizes.1

    first_forth :
        check_first sha256 (s ∷ states) ≡ ok []
        → All (λ b. b ≡ 0) (state_of s).prev_hash × Hashed sha256 s states
    unfolding check_first
    first_forth e =
        let e' = rw (decode_state-eq s sizes.0) at e in
        let (l, e1, e2) = >>=-eq-ok (check_hashes sha256 1 s states) _ e' in
        let (zero, rest) = (append-eq-nil _ l).0 (ok-injective e2) in
        (first_zero_iff.0 ((expect-eq-nil _ _).0 zero), links_iff.0 (rw rest at e1))

    first_back :
        All (λ b. b ≡ 0) (state_of s).prev_hash × Hashed sha256 s states
        → check_first sha256 (s ∷ states) ≡ ok []
    unfolding check_first
    first_back (zero, hashed) =
        rw (decode_state-eq s sizes.0, links_iff.1 hashed, first_zero_iff.1 zero)

    genesis_forth : (g : Option Buffer) → check_genesis sha256 g c ≡ ok [] → Anchored g c
    unfolding check_genesis item
    genesis_forth none e = tt
    genesis_forth (some h) e =
        let e' = rw (is, state_hash-eq sha256 s sizes.0) at e in
        (s, rw is, (equals_iff (sha256 s) h).0 ((expect-eq-nil _ _).0 (ok-injective e')))

    genesis_back : (g : Option Buffer) → Anchored g c → check_genesis sha256 g c ≡ ok []
    unfolding check_genesis item
    genesis_back none a = refl
    genesis_back (some h) (t, e, same) =
        let first : s ≡ t = ok-injective (rw is at e) in
        rw (is, state_hash-eq sha256 s sizes.0, first, (equals_iff (sha256 t) h).1 same)

    pub structure_forth :
        (g : Option Buffer)
        → verify_structure sha256 c g ≡ ok []
        → (All (λ b. b ≡ 0) (state_of s).prev_hash) × Hashed sha256 s states × Anchored g c
    structure_forth g e =
        let (fields, links, anchor) = structure_parts c g e in
        let (zero, hashed) = first_forth (ap (check_first sha256) (sym is) ∙ links) in
        (zero, hashed, genesis_forth g anchor)

    pub structure_back :
        (g : Option Buffer)
        → All (IsStateOf c.serial c.value) (s ∷ states)
        → (All (λ b. b ≡ 0) (state_of s).prev_hash) × Hashed sha256 s states × Anchored g c
        → verify_structure sha256 c g ≡ ok []
    unfolding verify_structure
    structure_back g fields (zero, hashed, anchored) =
        rw (genesis_back g anchored)
          (rw (is, (check_fields_iff c 0 (s ∷ states)).1 fields, first_back (zero, hashed)))
