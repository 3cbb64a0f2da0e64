-- ===== src/Chain/Accepts.antt =====
-- The answer of `verifyCoinChain` (sdk/src/chain.ts) against the description of a valid chain.
use offline_bearer_protocol.Buffer.{Buffer}
use offline_bearer_protocol.Chain.{
  ChainError, ChainVerifyResult, check_fields, check_first, verify_structure, check_all_sigs,
  conclude, verify_coin_chain, ed25519_valid,
}
use offline_bearer_protocol.Chain.Valid.{IsStateOf, Linked, Starting, IsChain}
use offline_bearer_protocol.Chain.Sound.{append-eq-nil, check_fields_iff, Hashed, state_hash-eq}
use offline_bearer_protocol.Chain.Sigs.{Signed, check_all_sigs_iff}
use offline_bearer_protocol.Chain.Verified.{
  last_state-All, structure_parts, Anchored, structure_forth, structure_back,
}
use offline_bearer_protocol.Coin.{Curve, last_state}
use offline_bearer_protocol.Coinfile.{CoinCore}
use offline_bearer_protocol.Constants.SigScheme.{ed25519}
use offline_bearer_protocol.Layout.{state_hash}
use offline_bearer_protocol.Layout.Encoding.{state_of}
use offline_bearer_protocol.Prelude.{
  ℕ, List, [], ◌∷◌, ◌++◌, ◌≡◌, ◌↔◌, refl, sym, ap, ◌∙◌, All, length, Option, some, true, false, ok,
  ok-injective, >>=-eq-ok, ◌==◌, ==_iff, arith, if◌then◌else◌,
}

sizes_of :
    (serial : Buffer) (value : ℕ) (states : List Buffer)
    → All (IsStateOf serial value) states
    → All (λ s. length s ≡ 104) states
sizes_of serial value [] h = tt
sizes_of serial value (s ∷ states) (h, hs) = (h.size_104, sizes_of serial value states hs)

length-eq-zero : (xs : List ChainError) → (length xs == 0) ≡ true → xs ≡ []
length-eq-zero [] h = refl
length-eq-zero (x ∷ xs) h = ground arith

module _ (sha256 : Buffer → Buffer) (curve : Curve) where
  -- The hashes and the signatures together are the links.
  Linked-iff :
      (s : Buffer) (states sigs : List Buffer)
      → (Hashed sha256 s states × Signed sha256 ok curve.verify s states sigs)
        ↔ Linked sha256 curve s states sigs
  Linked-iff s [] sigs = (λ _. tt, λ _. (tt, tt))
  Linked-iff s (t ∷ states) [] = (λ e. e.1, λ e. absurd e)
  Linked-iff s (t ∷ states) (g ∷ sigs) = (
    λ e.
        let ((h, hashed), ((pk, same, good), signed)) = e in
        let key : (state_of s).owner ≡ pk = ok-injective same in
        (h, rw key good, (Linked-iff t states sigs).0 (hashed, signed)),
    λ e.
        let (h, good, links) = e in
        let (hashed, signed) = (Linked-iff t states sigs).1 links in
        ((h, hashed), (((state_of s).owner, refl, good), signed)),
  )

  module _ (c : CoinCore) (scheme : c.sig_scheme ≡ ed25519) (g : Option Buffer) where
    abbrev pub Accepted : Type 0
    Accepted =
        (r : ChainVerifyResult) × (verify_coin_chain sha256 curve c g ≡ ok r) × (r.is_ok ≡ true)

    valid-eq : ed25519_valid curve c.sig_scheme ≡ curve.verify
    unfolding ed25519_valid
    valid-eq =
        ap (λ b sig h owner. if b then curve.verify sig h owner else some false)
          ((==_iff _ _).1 scheme)

    accepted_parts :
        Accepted
        → (verify_structure sha256 c g ≡ ok [])
          × (check_all_sigs sha256 ok curve.verify c.sigs c.states ≡ ok [])
    unfolding verify_coin_chain conclude
    accepted_parts (r, e, good) =
        let (structure, e1, e2) = >>=-eq-ok (verify_structure sha256 c g) _ e in
        let (sigs, e3, e4) =
          >>=-eq-ok (check_all_sigs sha256 ok (ed25519_valid curve c.sig_scheme) c.sigs c.states) _
            e2 in
        let (last, e5, e6) = >>=-eq-ok (last_state c.states) _ e4 in
        let (h, e7, e8) = >>=-eq-ok (state_hash sha256 last) _ e6 in
        let flag = ap (λ (x : ChainVerifyResult). x.is_ok) (ok-injective e8) ∙ good in
        let (none_s, none_g) =
          (append-eq-nil structure sigs).0 (length-eq-zero (structure ++ sigs) flag) in
        (rw none_s at e1, rw (valid-eq, none_g) at e3)

    accepted_back :
        (s : Buffer) (states : List Buffer)
        → c.states ≡ s ∷ states
        → All (λ b. length b ≡ 104) (s ∷ states)
        → verify_structure sha256 c g ≡ ok []
        → check_all_sigs sha256 ok curve.verify c.sigs c.states ≡ ok []
        → Accepted
    unfolding verify_coin_chain conclude
    accepted_back s states is sizes structure sigs =
        let (last, found, size) = last_state-All (λ b. length b ≡ 104) s states sizes in
        (
          record { is_ok = true; errors = []; head_hash = sha256 last },
          rw (structure, valid-eq, sigs) (rw (is, found, state_hash-eq sha256 last size)),
          refl,
        )

    sound_from :
        (states : List Buffer)
        → c.states ≡ states
        → verify_structure sha256 c g ≡ ok []
        → check_all_sigs sha256 ok curve.verify c.sigs states ≡ ok []
        → All (IsStateOf c.serial c.value) states
          × Starting sha256 curve states c.sigs
          × Anchored sha256 g c
    sound_from [] is structure sigs = absurd (
        unfold check_first in
        cc (ap (check_first sha256) is, (structure_parts sha256 c g structure).1))
    sound_from (s ∷ states) is structure sigs =
        let fields =
          (check_fields_iff c 0 (s ∷ states)).0
            (ap (check_fields c 0) (sym is) ∙ (structure_parts sha256 c g structure).0) in
        let sizes = sizes_of c.serial c.value (s ∷ states) fields in
        let (zero, hashed, anchored) = structure_forth sha256 c s states is sizes g structure in
        let signed =
          (check_all_sigs_iff sha256 ok curve.verify c.sigs s states sizes.0 sizes.1).0 sigs in
        (fields, (zero, (Linked-iff s states c.sigs).0 (hashed, signed)), anchored)

    accepted_sound : Accepted → IsChain sha256 curve c × Anchored sha256 g c
    accepted_sound a =
        let (structure, sigs) = accepted_parts a in
        let (fields, links, anchored) = sound_from c.states refl structure sigs in
        (record { fields = fields; links = links }, anchored)

    complete_from :
        (states : List Buffer)
        → c.states ≡ states
        → All (IsStateOf c.serial c.value) states
        → Starting sha256 curve states c.sigs
        → Anchored sha256 g c
        → Accepted
    complete_from [] is fields links anchored = absurd links
    complete_from (s ∷ states) is fields (zero, links) anchored =
        let sizes = sizes_of c.serial c.value (s ∷ states) fields in
        let (hashed, signed) = (Linked-iff s states c.sigs).1 links in
        let sigs =
          (check_all_sigs_iff sha256 ok curve.verify c.sigs s states sizes.0 sizes.1).1 signed in
        accepted_back s states is sizes
          (structure_back sha256 c s states is sizes g fields (zero, hashed, anchored))
          (ap (check_all_sigs sha256 ok curve.verify c.sigs) is ∙ sigs)

    -- In scheme Ed25519 `verifyCoinChain` answers `ok` exactly when the chain is valid and, where
    -- a genesis hash is given, begins at a state with that hash.
    pub verify_coin-IsChain_iff : Accepted ↔ (IsChain sha256 curve c × Anchored sha256 g c)
    verify_coin-IsChain_iff =
        (accepted_sound, λ v. complete_from c.states refl v.0.fields v.0.links v.1)
