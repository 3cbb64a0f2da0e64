-- ===== src/Program/History.antt =====
-- What the chain of states in a submission's account has to be, apart from the code that checks it
-- (programs/obp-core/src/instructions/checkin.rs).
use offline_bearer_protocol.Buffer.{Buffer, equals}
use offline_bearer_protocol.Buffer.Cuts.{equals_iff}
use offline_bearer_protocol.Prelude.{
  ◌≤◌, ◌≡◌, refl, sym, subst, List, [], ◌∷◌, ◌++◌, append_assoc, append-nil, take, length,
  length-append, get_elem?, arith, ◌-◌, ok, guard-eq-ok, guard-eq_tt, >>=-eq-ok, some, ◌==◌, ==_iff,
  ◌↔◌,
}
use offline_bearer_protocol.Program.Accounts.{MintRegistry, Submission}
use offline_bearer_protocol.Program.Checks.{
  check_link, check_chain, check_genesis, verify_full_chain,
}
use offline_bearer_protocol.Program.State.{state_hash, parse_serial, parse_value, parse_prev_hash}

-- A state of the registry's coin that follows `prev`.
pub record Follows (hash : Buffer → Buffer) (registry : MintRegistry) (prev cur : Buffer)
    : Type 0 where
  pub serial : parse_serial cur ≡ registry.serial
  pub value : parse_value cur ≡ registry.value
  pub links : parse_prev_hash cur ≡ state_hash hash prev

-- A list of states with its last one: the anchored genesis state, and each next state follows.
pub data IsHistory (hash : Buffer → Buffer) (registry : MintRegistry)
    : List Buffer → Buffer → Type 0 where
  genesis :
      (s : Buffer)
      → state_hash hash s ≡ registry.genesis_state_hash
      → IsHistory hash registry (s ∷ []) s
  transfer :
      (states : List Buffer) (prev cur : Buffer)
      → IsHistory hash registry states prev
      → Follows hash registry prev cur
      → IsHistory hash registry (states ++ (cur ∷ [])) cur

-- The last of a list of states, `d` of an empty one.
abbrev last_or : Buffer → List Buffer → Buffer
last_or d [] = d
last_or d (s ∷ states) = last_or s states

last_or-snoc :
    (d : Buffer) (states : List Buffer) (cur : Buffer) → last_or d (states ++ (cur ∷ [])) ≡ cur
last_or-snoc d [] cur = refl
last_or-snoc d (s ∷ states) cur = last_or-snoc s states cur

get_elem-snoc :
    (states : List Buffer) (cur : Buffer)
    → get_elem? (states ++ (cur ∷ [])) (length states) ≡ some cur
get_elem-snoc [] cur = refl
get_elem-snoc (s ∷ states) cur = get_elem-snoc states cur

module _ (hash : Buffer → Buffer) (registry : MintRegistry) where
  pub check_link_iff :
      (prev cur : Buffer)
      → (check_link hash registry prev cur ≡ ok tt) ↔ Follows hash registry prev cur
  unfolding check_link
  check_link_iff prev cur = (
    λ e.
        let (e1, f1) = guard-eq-ok (equals (parse_serial cur) registry.serial) _ _ e in
        let (e2, f2) = guard-eq-ok (parse_value cur == registry.value) _ _ f1 in
        let e3 = guard-eq_tt (equals (parse_prev_hash cur) (state_hash hash prev)) _ f2 in
        record {
          serial = (equals_iff _ _).0 e1;
          value = (==_iff _ _).0 e2;
          links = (equals_iff _ _).0 e3;
        },
    λ f. rw ((equals_iff _ _).1 f.serial, (==_iff _ _).1 f.value, (equals_iff _ _).1 f.links),
  )

  -- A chain that the loop accepts extends a history, to its end.
  pub check_chain-IsHistory :
      (states : List Buffer) (prev : Buffer) (more : List Buffer)
      → IsHistory hash registry states prev
      → check_chain hash registry prev more ≡ ok tt
      → (last : Buffer) × IsHistory hash registry (states ++ more) last
  unfolding check_chain
  check_chain-IsHistory states prev [] h e =
      (prev, subst (λ l. IsHistory hash registry l prev) (sym (append-nil states)) h)
  check_chain-IsHistory states prev (cur ∷ more) h e =
      let (done, e1, e2) = >>=-eq-ok (check_link hash registry prev cur) _ e in
      let next = transfer states prev cur h ((check_link_iff prev cur).0 e1) in
      let (last, rest) = check_chain-IsHistory (states ++ (cur ∷ [])) cur more next e2 in
      (last, subst (λ l. IsHistory hash registry l last) (append_assoc states (cur ∷ []) more) rest)

  -- The loop accepts one more state that follows the last one.
  check_chain-snoc :
      (prev : Buffer) (states : List Buffer) (cur : Buffer)
      → check_chain hash registry prev states ≡ ok tt
      → check_link hash registry (last_or prev states) cur ≡ ok tt
      → check_chain hash registry prev (states ++ (cur ∷ [])) ≡ ok tt
  unfolding check_chain
  check_chain-snoc prev [] cur e h = rw h
  check_chain-snoc prev (s ∷ states) cur e h =
      let (done, e1, e2) = >>=-eq-ok (check_link hash registry prev s) _ e in
      rw (e1, check_chain-snoc s states cur e2 h)

  check_genesis-snoc :
      (states : List Buffer) (cur : Buffer)
      → check_genesis hash registry states ≡ ok tt
      → check_link hash registry (last_or [] states) cur ≡ ok tt
      → check_genesis hash registry (states ++ (cur ∷ [])) ≡ ok tt
  unfolding check_genesis
  check_genesis-snoc [] cur e h = cc
  check_genesis-snoc (s ∷ states) cur e h =
      let (e1, e2) = guard-eq-ok (equals (state_hash hash s) registry.genesis_state_hash) _ _ e in
      rw (e1, check_chain-snoc s states cur e2 h)

  -- The last state stands at the end.
  pub IsHistory-last :
      (states : List Buffer) (last : Buffer)
      → IsHistory hash registry states last
      → (1 ≤ length states) × (get_elem? states (length states - 1) ≡ some last)
  IsHistory-last _ _ (genesis s e) = (omega arith, refl)
  IsHistory-last _ _ (transfer states prev cur h f) =
      let n = length-append states (cur ∷ []) in
      let m : length (states ++ (cur ∷ [])) - 1 ≡ length states = omega arith in
      (omega arith, rw (m, get_elem-snoc states cur))

  -- A history passes the code's check.
  pub IsHistory-check_genesis :
      (states : List Buffer) (last : Buffer)
      → IsHistory hash registry states last
      → (check_genesis hash registry states ≡ ok tt) × (last_or [] states ≡ last)
  unfolding check_genesis check_chain
  IsHistory-check_genesis _ _ (genesis s e) = (rw ((equals_iff _ _).1 e), refl)
  IsHistory-check_genesis _ _ (transfer states prev cur h f) =
      let (e, l) = IsHistory-check_genesis states prev h in
      let link : check_link hash registry (last_or [] states) cur ≡ ok tt =
        subst (λ p. check_link hash registry p cur ≡ ok tt) (sym l)
          ((check_link_iff prev cur).1 f) in
      (check_genesis-snoc states cur e link, last_or-snoc [] states cur)

  -- `verify_full_chain` accepts a submission exactly when the states in use are a history of the
  -- registry's coin: the anchored genesis state, and each next state has the coin's serial, its
  -- value and the hash of the state before.
  pub verify_full_chain-IsHistory_iff :
      (sub : Submission)
      → (verify_full_chain hash sub registry ≡ ok tt)
        ↔ ((last : Buffer) × IsHistory hash registry (take sub.states_len sub.states) last)
  unfolding verify_full_chain check_genesis
  verify_full_chain-IsHistory_iff sub =
      (sound (take sub.states_len sub.states), λ (last, h). (IsHistory-check_genesis _ last h).0)
    where
      sound :
          (states : List Buffer)
          → check_genesis hash registry states ≡ ok tt
          → (last : Buffer) × IsHistory hash registry states last
      sound [] e = cc
      sound (s ∷ states) e =
          let (e1, e2) =
            guard-eq-ok (equals (state_hash hash s) registry.genesis_state_hash) _ _ e in
          check_chain-IsHistory (s ∷ []) s states (genesis s ((equals_iff _ _).0 e1)) e2
