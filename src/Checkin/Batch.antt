-- ===== src/Checkin/Batch.antt =====
-- The batches of links that `runCheckIn` of sdk/src/orchestrate.ts appends, on a coin whose chain is
-- valid.
use offline_bearer_protocol.Buffer.{Buffer, subarray}
use offline_bearer_protocol.Chain.Sound.{state_hash-eq}
use offline_bearer_protocol.Chain.Valid.{IsStateOf, Linked, Starting, IsChain}
use offline_bearer_protocol.Chain.Verified.{last_state-All}
use offline_bearer_protocol.Checkin.{item_before, batch_links, plan_for, submission_pending}
use offline_bearer_protocol.Coin.{Curve, item, last_state}
use offline_bearer_protocol.Coinfile.{CoinCore}
use offline_bearer_protocol.Errors.{Error}
use offline_bearer_protocol.Instructions.Append.{Link, AppendPlan}
use offline_bearer_protocol.Instructions.Append.Selected.{Check, checks}
use offline_bearer_protocol.Layout.Encoding.{state_of}
use offline_bearer_protocol.Prelude.{
  ℕ, zero, suc, ◌+◌, ◌-◌, ◌≤◌, ◌<◌, min, List, [], ◌∷◌, ◌≡◌, ◌≢◌, refl, sym, ap, ap₂, subst, ◌∙◌,
  All, length, get_elem?, drop, take, some, true, false, ok, ok-injective, ◌==◌, ne→==-false,
  length-drop, arith,
}
use offline_bearer_protocol.Readers.{OnChainSubmission}

-- States and signatures side by side.
unfoldable pub links_of : List Buffer → List Buffer → List Link
links_of [] sigs = []
links_of (s ∷ states) [] = []
links_of (s ∷ states) (g ∷ sigs) = record { state = s; sig = g } ∷ links_of states sigs

drop-eq-cons :
    (xs : List Buffer) (j : ℕ) {x : Buffer} {rest : List Buffer}
    → drop j xs ≡ x ∷ rest
    → (get_elem? xs j ≡ some x) × (drop (suc j) xs ≡ rest)
drop-eq-cons [] zero e = cc
drop-eq-cons [] (suc j) e = cc
drop-eq-cons (y ∷ xs) zero e = (cc, cc)
drop-eq-cons (y ∷ xs) (suc j) e = drop-eq-cons xs j e

take-get : (xs : List Buffer) (n j : ℕ) → j < n → get_elem? (take n xs) j ≡ get_elem? xs j
take-get [] zero j h = refl
take-get [] (suc n) j h = refl
take-get (x ∷ xs) zero j h = absurd (omega arith)
take-get (x ∷ xs) (suc n) zero h = refl
take-get (x ∷ xs) (suc n) (suc j) h = take-get xs n j (omega arith)

item-some : (xs : List Buffer) (i : ℕ) {x : Buffer} → get_elem? xs i ≡ some x → item xs i ≡ ok x
unfolding item
item-some [] i e = cc
item-some (y ∷ xs) zero e = cc
item-some (y ∷ xs) (suc i) e = item-some xs i e

module _ (sha256 : Buffer → Buffer) (curve : Curve) where
  -- A signature that verifies.
  abbrev pub Passes : Check → Type 0
  Passes c = curve.verify c.sig c.msg c.key ≡ some true

  -- Where the links end at the coin's last state, all their checks pass.
  Linked-Passes :
      (prev : Buffer) (states sigs : List Buffer) (l : Buffer)
      → Linked sha256 curve prev states sigs
      → last_state (prev ∷ states) ≡ ok l
      → All Passes (checks (subarray prev 40 72) (links_of states sigs) (sha256 l))
  unfolding checks links_of last_state state_of
  Linked-Passes prev [] sigs l links last = tt
  Linked-Passes prev (s ∷ []) [] l links last = absurd links
  Linked-Passes prev (s ∷ []) (g ∷ sigs) l (hash, good, links) last =
      let same : s ≡ l = ok-injective {E = Error} last in (rw same at good, tt)
  Linked-Passes prev (s ∷ t ∷ states) [] l links last = absurd links
  Linked-Passes prev (s ∷ t ∷ states) (g ∷ []) l (hash, good, links) last = absurd links
  Linked-Passes prev (s ∷ t ∷ states) (g ∷ h ∷ sigs) l (hash, good, (hash', good', links)) last = (
    subst (λ m. curve.verify g m (subarray prev 40 72) ≡ some true) (sym hash') good,
    Linked-Passes s (t ∷ states) (h ∷ sigs) l (hash', good', links) last,
  )

  -- A chain from its state number `j` on.
  Linked-from :
      (j : ℕ) (s : Buffer) (states sigs : List Buffer)
      → Linked sha256 curve s states sigs
      → j ≤ length states
      → (prev : Buffer) × (get_elem? (s ∷ states) j ≡ some prev)
        × Linked sha256 curve prev (drop j states) (drop j sigs)
        × (last_state (s ∷ states) ≡ last_state (prev ∷ drop j states))
  unfolding last_state
  Linked-from zero s states sigs links h = (s, refl, links, refl)
  Linked-from (suc j) s [] sigs links h = absurd (omega arith)
  Linked-from (suc j) s (t ∷ states) [] links h = absurd links
  Linked-from (suc j) s (t ∷ states) (g ∷ sigs) (hash, good, links) h =
      Linked-from j t states sigs links (omega arith)

  -- The loop puts the rest of the chain together.
  batch_links-rest :
      (xs ys : List Buffer) (j : ℕ) (s : Buffer) (states sigs : List Buffer) (prev : Buffer)
      → drop j states ≡ xs
      → drop j sigs ≡ ys
      → Linked sha256 curve prev xs ys
      → batch_links (s ∷ states) sigs (suc j) (length xs) ≡ ok (links_of xs ys)
  unfolding batch_links links_of
  batch_links-rest [] ys j s states sigs prev hx hy links = refl
  batch_links-rest (x ∷ xs) [] j s states sigs prev hx hy links = absurd links
  batch_links-rest (x ∷ xs) (y ∷ ys) j s states sigs prev hx hy (hash, good, links) =
      let (found_x, rest_x) = drop-eq-cons states j hx in
      let (found_y, rest_y) = drop-eq-cons sigs j hy in
      let back : suc j - 1 ≡ j = omega arith in
      let next : suc j + 1 ≡ suc (suc j) = omega arith in
      rw (
        back,
        next,
        item-some (s ∷ states) (suc j) found_x,
        item-some sigs j found_y,
        batch_links-rest xs ys (suc j) s states sigs x rest_x rest_y links,
      )

  length-links_of :
      (prev : Buffer) (xs ys : List Buffer)
      → Linked sha256 curve prev xs ys
      → length (links_of xs ys) ≡ length xs
  unfolding links_of
  length-links_of prev [] ys links = refl
  length-links_of prev (x ∷ xs) [] links = absurd links
  length-links_of prev (x ∷ xs) (y ∷ ys) (hash, good, links) =
      ap suc (length-links_of x xs ys links)

  plan_for-eq :
      (coin : CoinCore) (max_links : ℕ) (sub : OnChainSubmission) (head last : Buffer)
      (links : List Link) (k : ℕ)
      → (sub.status == submission_pending) ≡ false
      → item_before sub.states sub.states_len ≡ ok head
      → min max_links (length coin.states - sub.states_len) ≡ k
      → batch_links coin.states coin.sigs sub.states_len k ≡ ok links
      → last_state coin.states ≡ ok last
      → length last ≡ 104
      → plan_for sha256 coin max_links sub
        ≡ ok (record { head_owner = subarray head 40 72; links = links; last_hash = sha256 last })
  unfolding plan_for
  plan_for-eq coin max_links sub head last links k e1 e2 e3 e4 e5 size =
      rw (e1, e2, e3, e4, e5, state_hash-eq sha256 last size)

  item_before-take :
      (xs : List Buffer) (j : ℕ) {prev : Buffer}
      → get_elem? xs j ≡ some prev
      → item_before (take (suc j) xs) (suc j) ≡ ok prev
  unfolding item_before
  item_before-take xs j e = item-some (take (suc j) xs) j (take-get xs (suc j) j (omega arith) ∙ e)

  -- The round that ends the chain, where the whole rest fits one batch.
  plan_for-Starting :
      (coin : CoinCore) (max_links : ℕ) (sub : OnChainSubmission) (j : ℕ) (states : List Buffer)
      → coin.states ≡ states
      → Starting sha256 curve states coin.sigs
      → All (λ s. length s ≡ 104) states
      → sub.status ≢ submission_pending
      → sub.states_len ≡ suc j
      → sub.states ≡ take (suc j) states
      → suc j < length states
      → length states ≤ suc j + max_links
      → (plan : AppendPlan) × (plan_for sha256 coin max_links sub ≡ ok plan)
        × All Passes (checks plan.head_owner plan.links plan.last_hash)
        × (length plan.links + sub.states_len ≡ length coin.states)
  plan_for-Starting coin max_links sub j [] is links sizes pending at held fewer fits = absurd links
  plan_for-Starting coin max_links sub j (s ∷ states) is (zero_hash, links) sizes pending at held
        fewer fits =
      let (prev, found, rest, ends) = Linked-from j s states coin.sigs links (omega arith) in
      let (l, last, size) = last_state-All (λ b. length b ≡ 104) s states sizes in
      let left = length-drop j states in
      let count : length coin.states ≡ suc (length states) = ap length is in
      let links_left = length-links_of prev (drop j states) (drop j coin.sigs) rest in
      let made =
        plan_for-eq coin max_links sub prev l (links_of (drop j states) (drop j coin.sigs))
          (length (drop j states)) (ne→==-false _ _ pending)
          (ap₂ item_before held at ∙ item_before-take (s ∷ states) j found)
          (omega (arith, at, left, count))
          (ap₂ (λ xs i. batch_links xs coin.sigs i (length (drop j states))) is at
            ∙ batch_links-rest (drop j states) (drop j coin.sigs) j s states coin.sigs prev refl
                refl rest)
          (ap last_state is ∙ last) size in
      (
        _,
        made,
        Linked-Passes prev (drop j states) (drop j coin.sigs) l rest (sym ends ∙ last),
        omega (arith, links_left, left, count, at),
      )

  sizes_of :
      (serial : Buffer) (value : ℕ) (states : List Buffer)
      → All (IsStateOf serial value) states
      → All (λ s. length s ≡ 104) states
  sizes_of serial value [] h = tt
  sizes_of serial value (s ∷ states) (h, hs) = (h.size_104, sizes_of serial value states hs)

  -- For a coin with a valid chain and a submission that is not pending, that holds the first of
  -- the coin's states, at least one and not all, and whose missing states fit one batch, the round
  -- of `runCheckIn` makes a plan of the missing links, and every signature check that the plan
  -- asks of the precompile passes.
  pub plan_for-Passes :
      (coin : CoinCore) (max_links : ℕ) (sub : OnChainSubmission)
      → IsChain sha256 curve coin
      → sub.status ≢ submission_pending
      → 1 ≤ sub.states_len
      → sub.states_len < length coin.states
      → sub.states ≡ take sub.states_len coin.states
      → length coin.states ≤ sub.states_len + max_links
      → (plan : AppendPlan) × (plan_for sha256 coin max_links sub ≡ ok plan)
        × All Passes (checks plan.head_owner plan.links plan.last_hash)
        × (length plan.links + sub.states_len ≡ length coin.states)
  plan_for-Passes coin max_links sub chain pending some_state fewer held fits =
      let j = sub.states_len - 1 in
      let at : sub.states_len ≡ suc j = omega arith in
      plan_for-Starting coin max_links sub j coin.states refl chain.links
        (sizes_of coin.serial coin.value coin.states chain.fields) pending at
        (held ∙ ap (λ n. take n coin.states) at) (omega arith) (omega arith)
