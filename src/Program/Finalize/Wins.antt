-- ===== src/Program/Finalize/Wins.antt =====
-- Which of two submissions wins, for `i_win` of programs/obp-core/src/instructions/checkin.rs.
use offline_bearer_protocol.Buffer.{Buffer, equals}
use offline_bearer_protocol.Buffer.Cuts.{equals_iff}
use offline_bearer_protocol.Prelude.{
  ℕ, zero, suc, ◌+◌, ◌≤◌, ◌<◌, ◌≡◌, ◌≢◌, ap, subst, List, [], ◌∷◌, take, get_elem?, Option, none,
  some, Bool, true, false, Bool-cases, ◌⊎◌, inl, inr, ◌↔◌, ltb, lt→ltb, ltb→lt, arith,
}
use offline_bearer_protocol.Program.Accounts.{HeadRegistry, Submission}
use offline_bearer_protocol.Program.Finalize.{head_index, i_win}

some-injective : {a b : Buffer} → some a ≡ some b → a ≡ b
some-injective e = cc

true≢false : {b : Bool} → b ≡ true → b ≡ false → ⊥
true≢false e f = cc

-- What `head_index` finds.
data IsFirst (s : Buffer) (i : ℕ) (states : List Buffer) : Option ℕ → Type 0 where
  found :
      (d : ℕ)
      → get_elem? states d ≡ some s
      → ((e : ℕ) → get_elem? states e ≡ some s → d ≤ e)
      → IsFirst s i states (some (i + d))
  nowhere : ((e : ℕ) → get_elem? states e ≢ some s) → IsFirst s i states none

after_other :
    (s x : Buffer) (i : ℕ) (states : List Buffer) {o : Option ℕ}
    → x ≢ s
    → IsFirst s (i + 1) states o
    → IsFirst s i (x ∷ states) o
after_other s x i states apart (found d here first) =
    let e : i + suc d ≡ i + 1 + d = omega arith in
    subst (λ k. IsFirst s i (x ∷ states) (some k)) e (found (suc d) here later)
  where
    later : (e : ℕ) → get_elem? (x ∷ states) e ≡ some s → suc d ≤ e
    later zero h = absurd (apart (some-injective h))
    later (suc e) h = let le = first e h in omega arith
after_other s x i states apart (nowhere absent) = nowhere later
  where
    later : (e : ℕ) → get_elem? (x ∷ states) e ≢ some s
    later zero h = apart (some-injective h)
    later (suc e) h = absent e h

head_index-IsFirst :
    (s : Buffer) (i : ℕ) (states : List Buffer) → IsFirst s i states (head_index s i states)
unfolding head_index
head_index-IsFirst s i [] = nowhere (λ e h. cc)
head_index-IsFirst s i (x ∷ states) = elim (Bool-cases (equals x s)) [
  | inl t ↦
      let z : i + 0 ≡ i = omega arith in
      let here : IsFirst s i (x ∷ states) (some (i + 0)) =
        found 0 (ap some ((equals_iff x s).0 t)) (λ e h. omega arith) in
      rw t (subst (λ k. IsFirst s i (x ∷ states) (some k)) z here)
  | inr f ↦
      let apart : x ≢ s = λ same. true≢false ((equals_iff x s).1 same) f in
      rw f (after_other s x i states apart (head_index-IsFirst s (i + 1) states))
]

-- A submission beats the head when it goes on after the head's state, or does not contain that
-- state and is longer.
pub Beats : HeadRegistry → Submission → Type 0
Beats head sub =
    ((d : ℕ) × (get_elem? (take sub.states_len sub.states) d ≡ some head.head_state)
      × (d + 1 < sub.states_len))
    ⊎ (((d : ℕ) → get_elem? (take sub.states_len sub.states) d ≢ some head.head_state)
        × (head.head_states_len < sub.states_len))

-- The bump of the head does not matter.
pub Beats-rebump :
    (head : HeadRegistry) (bump : ℕ) (sub : Submission)
    → Beats (record head { bump = bump }) sub
    → Beats head sub
unfolding Beats
Beats-rebump head bump sub b = b

-- `i_win` decides for a submission exactly when it goes on after the head's state, or does not
-- contain that state and is longer than the chain of the head.
pub i_win-Beats_iff :
    (head : HeadRegistry) (sub : Submission) → (i_win head sub ≡ true) ↔ Beats head sub
unfolding i_win Beats
i_win-Beats_iff head sub =
    cases (head_index head.head_state 0 used) (head_index-IsFirst head.head_state 0 used)
  where
    used : List Buffer
    used = take sub.states_len sub.states

    cases :
        (o : Option ℕ)
        → IsFirst head.head_state 0 used o
        → ((elim o [
          | some d ↦ ltb (d + 1) sub.states_len
          | none ↦ ltb head.head_states_len sub.states_len
        ])
            ≡ true)
          ↔ Beats head sub
    cases _ (found d here first) = (
      λ e. inl (d, here, (let less = ltb→lt _ _ e in omega arith)),
      λ b. elim b [
        | inl (k, at_k, more) ↦ let le = first k at_k in lt→ltb _ _ (omega arith)
        | inr (absent, longer) ↦ absurd (absent d here)
      ],
    )
    cases _ (nowhere absent) = (
      λ e. inr (absent, ltb→lt _ _ e),
      λ b. elim b [
        | inl (k, at_k, more) ↦ absurd (absent k at_k)
        | inr (none_there, longer) ↦ lt→ltb _ _ longer
      ],
    )
