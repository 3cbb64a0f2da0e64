-- ===== src/Program/Dispute/Refines.antt =====
-- The check-in's instructions do what the dispute is meant to be.
use offline_bearer_protocol.Buffer.{Buffer}
use offline_bearer_protocol.Prelude.{
  ℕ, ◌≡◌, ◌≢◌, sym, ap, ◌∙◌, subst, Option, some, true, false, Bool, arith, ◌⊎◌, inl, inr,
}
use offline_bearer_protocol.Program.Accounts.{Submission}
use offline_bearer_protocol.Program.Append.Grows.{IsGenuine, IsGenuine-same}
use offline_bearer_protocol.Program.Context.{CoinAccounts, submission_of}
use offline_bearer_protocol.Program.Dispute.{
  is_undecided, is_held, is_paid, still_receiving, was_lost, was_rejected, held, paid, unchanged,
  accepted, overturned, settled, Phase, Next, IsIdle, Leads, InPhase, IsStored,
}
use offline_bearer_protocol.Program.Dispute.Moves.{
  begins, grows, refuses, accepts, upholds, overturns, settles, no_other, rejects, Writes, SameHead,
  StandsAt, RejectsOther, CoinMove,
}
use offline_bearer_protocol.Program.Status.{active, spent, receiving, pending, won}

same_some : {A : Type 0} {o : Option A} {a b : A} → o ≡ some a → o ≡ some b → a ≡ b
same_some e f = cc

attempts : (a b : ℕ) → (a ≡ b) ⊎ (a ≢ b)
attempts a b = ground arith

module _ (hash : Buffer → Buffer) where
  -- What stands in the accounts after a write: what was written, or what stood there.
  Writes-cases :
      (c c' : CoinAccounts) (a : ℕ) (s' : Submission)
      → Writes hash c c' a s'
      → (b : ℕ) (s : Submission) → submission_of c' b ≡ some s
      → ((b ≡ a) × (s' ≡ s)) ⊎ ((b ≢ a) × (submission_of c b ≡ some s))
  Writes-cases c c' a s' w b s e = elim (attempts b a) [
    | inl same ↦
        inl (same, same_some (subst (λ k. submission_of c' k ≡ some s') (sym same) w.stored) e)
    | inr other ↦ inr (other, sym (w.kept b other) ∙ e)
  ]

  Writes-IsStored :
      (c c' : CoinAccounts) (a : ℕ) (s' : Submission)
      → Writes hash c c' a s'
      → IsStored hash c
      → IsStored hash c'
  Writes-IsStored c c' a s' w h = record {
    attempts = λ b s e. elim (Writes-cases c c' a s' w b s e) [
      | inl (same, f) ↦ ap (λ (x : Submission). x.attempt) (sym f) ∙ (w.attempt h ∙ sym same)
      | inr (other, f) ↦ h.attempts b s f
    ];
    genuine = λ b s e. elim (Writes-cases c c' a s' w b s e) [
      | inl (same, f) ↦ subst (IsGenuine hash c'.registry) f (w.genuine h)
      | inr (other, f) ↦ IsGenuine-same hash c.registry c'.registry w.coin s (h.genuine b s f)
    ];
  }

  Writes-leader :
      (c c' : CoinAccounts) (a b status : ℕ) (s' : Submission)
      → b ≢ a
      → Writes hash c c' a s'
      → IsIdle s'.status
      → Leads c b status
      → Leads c' b status
  Writes-leader c c' a b status s' other w idle l = record {
    leader = l.leader;
    stored = w.kept b other ∙ l.stored;
    has_status = l.has_status;
    others = λ k s n e. elim (Writes-cases c c' a s' w k s e) [
      | inl (same, f) ↦ subst (λ (x : Submission). IsIdle x.status) f idle
      | inr (away, f) ↦ l.others k s n f
    ];
  }

  -- The submission that is written comes to lead.
  Writes-Leads :
      (c c' : CoinAccounts) (a status : ℕ) (s' : Submission)
      → Writes hash c c' a s'
      → s'.status ≡ status
      → ((b : ℕ) (s : Submission) → b ≢ a → submission_of c b ≡ some s → IsIdle s.status)
      → Leads c' a status
  Writes-Leads c c' a status s' w e h = record {
    leader = s';
    stored = w.stored;
    has_status = e;
    others = λ b s n f. elim (Writes-cases c c' a s' w b s f) [
      | inl (same, g) ↦ absurd (n same)
      | inr (away, g) ↦ h b s away g
    ];
  }

  -- A submission that receives links is not the one that leads.
  not_leader :
      (c : CoinAccounts) (a b status : ℕ)
      → StandsAt c a receiving
      → status ≢ receiving
      → Leads c b status
      → b ≢ a
  not_leader c a b status (s, e, r) n l same =
      let f : l.leader ≡ s =
        same_some (subst (λ k. submission_of c k ≡ some l.leader) same l.stored) e in
      n (sym l.has_status ∙ ap (λ (x : Submission). x.status) f ∙ r)

  SameHead-keeps :
      (c c' : CoinAccounts) (p : Phase) (a : ℕ) (s' : Submission)
      → SameHead c c'
      → Writes hash c c' a s'
      → s'.status ≡ receiving
      → ((b : ℕ) (status : ℕ) → status ≢ receiving → Leads c b status → b ≢ a)
      → InPhase c p
      → InPhase c' p
  SameHead-keeps c c' _ a s' same w r free (is_undecided st unset all) =
      is_undecided (same.same_status ∙ st) (same.same_set ∙ unset) (λ b s e.
        elim (Writes-cases c c' a s' w b s e) [
          | inl (here, f) ↦ subst (λ (x : Submission). x.status ≡ receiving) f r
          | inr (away, f) ↦ all b s f
        ])
  SameHead-keeps c c' _ a s' same w r free (is_held b st set at l) =
      is_held b (same.same_status ∙ st) (same.same_set ∙ set) (same.same_attempt ∙ at)
        (Writes-leader c c' a b pending s' (free b pending (omega arith) l) w (still_receiving r) l)
  SameHead-keeps c c' _ a s' same w r free (is_paid b st set at l) =
      is_paid b (same.same_status ∙ st) (same.same_set ∙ set) (same.same_attempt ∙ at)
        (Writes-leader c c' a b won s' (free b won (omega arith) l) w (still_receiving r) l)

  -- The other submission may be rejected before one is paid.
  RejectsOther-others :
      (c c1 : CoinAccounts) (a status : ℕ)
      → RejectsOther hash c c1 a
      → Leads c a status
      → (b : ℕ) (s : Submission) → b ≢ a
      → submission_of c1 b ≡ some s
      → IsIdle s.status
  RejectsOther-others c c1 a status (no_other e) l b s n f =
      l.others b s n (subst (λ (x : CoinAccounts). submission_of x b ≡ some s) e f)
  RejectsOther-others c c1 a status (rejects k o' away at w r) l b s n f =
      elim (Writes-cases c c1 k o' w b s f) [
        | inl (here, g) ↦ subst (λ (x : Submission). IsIdle x.status) g (was_rejected r)
        | inr (apart, g) ↦ l.others b s n g
      ]

  active≢spent : {x : ℕ} → x ≡ active → x ≡ spent → ⊥
  active≢spent e f = omega arith

  unset : {x : Bool} → x ≡ false → x ≡ true → ⊥
  unset e f = cc

  -- Whatever an instruction does to a coin is a step of the dispute: the first finalized submission
  -- holds the head, the other one can take it over and is paid then, or the one that holds it is
  -- settled and paid; nothing else changes the phase, and the accounts show the phase that is reached.
  pub CoinMove-Next :
      (c c' : CoinAccounts) (p : Phase)
      → InPhase c p
      → CoinMove hash c c'
      → (q : Phase) × InPhase c' q × Next c p q
  CoinMove-Next c c' p h (begins a s' absent st w r same) = (
    p,
    SameHead-keeps c c' p a s' same w r
        (λ b status n l e. no_leader (subst (λ k. submission_of c k ≡ some l.leader) e l.stored)) h,
    unchanged p,
  )
    where
      no_leader : {s : Submission} → submission_of c a ≡ some s → ⊥
      no_leader e = cc
  CoinMove-Next c c' p h (grows a s' at w r same) = (
    p,
    SameHead-keeps c c' p a s' same w r (λ b status n l. not_leader c a b status at n l) h,
    unchanged p,
  )
  CoinMove-Next c c' _ (is_undecided st un all) (refuses a s' at sp w r same) =
      absurd (active≢spent st sp)
  CoinMove-Next c c' _ (is_held b st set at_b l) (refuses a s' at sp w r same) =
      absurd (active≢spent st sp)
  CoinMove-Next c c' _ (is_paid b st set at_b l) (refuses a s' at sp w r same) = (
    paid b,
    is_paid b (same.same_status ∙ st) (same.same_set ∙ set) (same.same_attempt ∙ at_b) (
        Writes-leader c c' a b won s' (not_leader c a b won at (omega arith) l) w (was_rejected r)
          l),
    unchanged (paid b),
  )
  CoinMove-Next c c' _ (is_undecided st un all) (accepts a s' at live no_head w r head) = (
    held a,
    is_held a (head.has_status ∙ st) head.is_set head.at_attempt
        (Writes-Leads c c' a pending s' w r (λ b s n e. still_receiving (all b s e))),
    accepted a,
  )
  CoinMove-Next c c' _ (is_held b st set at_b l) (accepts a s' at live no_head w r head) =
      absurd (unset no_head set)
  CoinMove-Next c c' _ (is_paid b st set at_b l) (accepts a s' at live no_head w r head) =
      absurd (unset no_head set)
  CoinMove-Next c c' _ (is_undecided st un all) (upholds a s' at live set w r same) =
      absurd (unset un set)
  CoinMove-Next c c' _ (is_paid b st set at_b l) (upholds a s' at live set' w r same) =
      absurd (live st)
  CoinMove-Next c c' _ (is_held b st set at_b l) (upholds a s' at live set' w r same) = (
    held b,
    is_held b (same.same_status ∙ st) (same.same_set ∙ set) (same.same_attempt ∙ at_b) (
        Writes-leader c c' a b pending s' (not_leader c a b pending at (omega arith) l) w
          (was_lost r) l),
    unchanged (held b),
  )
  CoinMove-Next c c' _ (is_undecided st un all)
        (overturns a b s' o' c1 apart at beats at_b live head w r w' r' head') =
      absurd (unset un head.is_set)
  CoinMove-Next c c' _ (is_paid b st set at_b l)
        (overturns a k s' o' c1 apart at beats at_k live head w r w' r' head') =
      absurd (live st)
  CoinMove-Next c c' _ (is_held b st set at_b l)
        (overturns a k s' o' c1 apart at beats at_k live head w r w' r' head') =
      let same : k ≡ b = sym head.at_attempt ∙ at_b in
      (
        paid a,
        is_paid a head'.has_status head'.is_set head'.at_attempt (record {
          leader = s';
          stored = w'.kept a apart ∙ w.stored;
          has_status = r;
          others = λ j s n e. elim (Writes-cases c1 c' k o' w' j s e) [
            | inl (here, f) ↦ subst (λ (x : Submission). IsIdle x.status) f (was_lost r')
            | inr (away, f) ↦ elim (Writes-cases c c1 a s' w j s f) [
              | inl (here', g) ↦ absurd (n here')
              | inr (away', g) ↦ l.others j s (λ x. away (x ∙ sym same)) g
            ]
          ];
        }),
        overturned a b at.0 (λ x. apart (x ∙ sym same)) at.1 beats,
      )
  CoinMove-Next c c' _ (is_undecided st un all) (settles a s' c1 head other w r head') =
      absurd (unset un head.is_set)
  CoinMove-Next c c' _ (is_paid b st set at_b l) (settles a s' c1 head other w r head') =
      absurd (active≢spent head.has_status st)
  CoinMove-Next c c' _ (is_held b st set at_b l) (settles a s' c1 head other w r head') =
      let same : b ≡ a = sym at_b ∙ head.at_attempt in
      let l' : Leads c a pending = subst (λ k. Leads c k pending) same l in
      (
        paid a,
        is_paid a head'.has_status head'.is_set head'.at_attempt
            (Writes-Leads c1 c' a won s' w r (RejectsOther-others c c1 a pending other l')),
        subst (λ k. Next c (held k) (paid a)) (sym same) (settled a),
      )

  -- The submissions of a coin stand under their attempts and hold genuine chains, whatever an
  -- instruction does to the coin.
  pub CoinMove-IsStored :
      (c c' : CoinAccounts) → IsStored hash c → CoinMove hash c c' → IsStored hash c'
  CoinMove-IsStored c c' h (begins a s' absent st w r same) = Writes-IsStored c c' a s' w h
  CoinMove-IsStored c c' h (grows a s' at w r same) = Writes-IsStored c c' a s' w h
  CoinMove-IsStored c c' h (refuses a s' at sp w r same) = Writes-IsStored c c' a s' w h
  CoinMove-IsStored c c' h (accepts a s' at live no_head w r head) = Writes-IsStored c c' a s' w h
  CoinMove-IsStored c c' h (upholds a s' at live set w r same) = Writes-IsStored c c' a s' w h
  CoinMove-IsStored c c' h (overturns a b s' o' c1 apart at beats at_b live head w r w' r' head') =
      Writes-IsStored c1 c' b o' w' (Writes-IsStored c c1 a s' w h)
  CoinMove-IsStored c c' h (settles a s' c1 head (no_other e) w r head') =
      Writes-IsStored c1 c' a s' w (subst (IsStored hash) (sym e) h)
  CoinMove-IsStored c c' h (settles a s' c1 head (rejects k o' away at w' r') w r head') =
      Writes-IsStored c1 c' a s' w (Writes-IsStored c c1 k o' w' h)
