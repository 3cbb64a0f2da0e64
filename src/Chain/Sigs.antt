-- ===== src/Chain/Sigs.antt =====
-- The loop over signatures of sdk/src/chain.ts, for any scheme.
use offline_bearer_protocol.Buffer.{Buffer}
use offline_bearer_protocol.Chain.{is_valid, check_sigs, check_all_sigs}
use offline_bearer_protocol.Chain.Sound.{append-eq-nil, expect-eq-nil, state_hash-eq, owner_of-eq}
use offline_bearer_protocol.Errors.{Error}
use offline_bearer_protocol.Layout.Encoding.{state_of}
use offline_bearer_protocol.Prelude.{
  ℕ, suc, ◌+◌, ◌-◌, List, [], ◌∷◌, ◌≡◌, ◌↔◌, refl, All, length, get_elem?, drop, none, some, Option,
  Bool, true, false, Result, ok, ok-injective, >>=-eq-ok, arith, Option-cases, inl, inr,
  drop-get_none, drop-get_some,
}

some-true_iff :
    (o : Option Bool) → ((elim o [ none ↦ false | some b ↦ b ]) ≡ true) ↔ (o ≡ some true)
some-true_iff none = ground arith
some-true_iff (some b) = ground arith

module _ (sha256 : Buffer → Buffer) (key : Buffer → Result Error Buffer)
    (valid : Buffer → Buffer → Buffer → Option Bool) where
  -- Each state's hash is signed under the key of the owner of the state before.
  abbrev pub Signed : Buffer → List Buffer → List Buffer → Type 0
  Signed prev [] sigs = Unit
  Signed prev (s ∷ states) [] = ⊥
  Signed prev (s ∷ states) (g ∷ sigs) =
      ((pk : Buffer) × (key (state_of prev).owner ≡ ok pk) × (valid g (sha256 s) pk ≡ some true))
      × Signed s states sigs

  module _ (sigs : List Buffer) where
    -- one test of the loop, at the signature that stands first of those left
    is_valid-none :
        (j : ℕ) (h pk : Buffer)
        → get_elem? sigs j ≡ none
        → is_valid sha256 key valid sigs (suc j) h pk ≡ false
    unfolding is_valid
    is_valid-none j h pk e = let same : suc j - 1 ≡ j = omega arith in rw (same, e, is_valid)

    is_valid-some :
        (j : ℕ) (g h pk : Buffer)
        → get_elem? sigs j ≡ some g
        → (is_valid sha256 key valid sigs (suc j) h pk ≡ true) ↔ (valid g h pk ≡ some true)
    unfolding is_valid
    is_valid-some j g h pk e =
        let same : suc j - 1 ≡ j = omega arith in
        rw (same, e, is_valid) (some-true_iff (valid g h pk))

    module _ (j : ℕ) (prev s : Buffer) (states : List Buffer) (hp : length prev ≡ 104)
        (h : length s ≡ 104)
        (ih : (check_sigs sha256 key valid sigs (suc (suc j)) s states ≡ ok [])
          ↔ Signed s states (drop (suc j) sigs)) where
      later_index : suc j + 1 ≡ suc (suc j)
      later_index = omega arith

      sigs_forth :
          check_sigs sha256 key valid sigs (suc j) prev (s ∷ states) ≡ ok []
          → Signed prev (s ∷ states) (drop j sigs)
      unfolding check_sigs
      sigs_forth e =
          let e' = rw (state_hash-eq sha256 s h, owner_of-eq prev hp, later_index) at e in
          let (pk, e1, e2) = >>=-eq-ok (key (state_of prev).owner) _ e' in
          let (later, e3, e4) =
            >>=-eq-ok (check_sigs sha256 key valid sigs (suc (suc j)) s states) _ e2 in
          let (one, none_later) = (append-eq-nil _ _).0 (ok-injective e4) in
          let good =
            (expect-eq-nil (is_valid sha256 key valid sigs (suc j) (sha256 s) pk) _).0 one in
          let links = ih.0 (rw none_later at e3) in
          elim (Option-cases (get_elem? sigs j)) [
            | inl missing ↦ cc (good, is_valid-none j (sha256 s) pk missing)
            | inr (g, found) ↦
                rw (drop-get_some sigs j g found)
                  ((pk, e1, (is_valid-some j g (sha256 s) pk found).0 good), links)
          ]

      sigs_back :
          Signed prev (s ∷ states) (drop j sigs)
          → check_sigs sha256 key valid sigs (suc j) prev (s ∷ states) ≡ ok []
      unfolding check_sigs
      sigs_back links = elim (Option-cases (get_elem? sigs j)) [
        | inl missing ↦ absurd (rw (drop-get_none sigs j missing) at links)
        | inr (g, found) ↦
            let ((pk, e1, good), rest) = rw (drop-get_some sigs j g found) at links in
            rw (
              state_hash-eq sha256 s h,
              owner_of-eq prev hp,
              e1,
              later_index,
              ih.1 rest,
              (is_valid-some j g (sha256 s) pk found).1 good,
            )
      ]

    check_sigs_iff :
        (j : ℕ) (prev : Buffer) (states : List Buffer)
        → length prev ≡ 104
        → All (λ s. length s ≡ 104) states
        → (check_sigs sha256 key valid sigs (suc j) prev states ≡ ok [])
          ↔ Signed prev states (drop j sigs)
    unfolding check_sigs
    check_sigs_iff j prev [] hp hs = (λ _. tt, λ _. refl)
    check_sigs_iff j prev (s ∷ states) hp (h, hs) =
        let ih = check_sigs_iff (suc j) s states h hs in
        (sigs_forth j prev s states hp h ih, sigs_back j prev s states hp h ih)

    pub check_all_sigs_iff :
        (s : Buffer) (states : List Buffer)
        → length s ≡ 104
        → All (λ b. length b ≡ 104) states
        → (check_all_sigs sha256 key valid sigs (s ∷ states) ≡ ok []) ↔ Signed s states sigs
    unfolding check_all_sigs
    check_all_sigs_iff s states h hs = check_sigs_iff 0 s states h hs
