-- ===== src/Checkin/Window.antt =====
-- sdk/src/orchestrate.ts: the wait of `runCheckIn` for the end of the challenge window. The slot and
-- the milliseconds since the start, as they are read in round `k`, are parameters.
use offline_bearer_protocol.Errors.{Error, window_timeout}
use offline_bearer_protocol.Prelude.{
  ℕ, zero, suc, ◌+◌, ◌*◌, ◌/◌, ◌≤◌, ◌<◌, ◌≡◌, inl, inr, Option, none, some, Result, ok, err, ltb,
  leb, leb→le, Bool-cases, if◌then◌else◌, true, false, arith,
}

ltb→lt : (a b : ℕ) → ltb a b ≡ true → a < b
ltb→lt a b e = ground arith

ltb-false→le : (a b : ℕ) → ltb a b ≡ false → b ≤ a
ltb-false→le a b e = ground arith

module _ (slot elapsed : ℕ → ℕ) (deadline_slot max_wait : ℕ) where
  -- The loop from round `k` on, with the round that ends it; `none` is for fuel that runs out.
  unfoldable pub wait_from : ℕ → ℕ → Option (Result Error ℕ)
  wait_from zero k = none
  wait_from (suc fuel) k =
      let rest = wait_from fuel (k + 1) in
      if leb deadline_slot (slot k)
      then some (ok k)
      else if ltb max_wait (elapsed k)
      then some (err window_timeout)
      else rest

  -- With fuel for every round that the time allows.
  unfoldable pub wait_for : Option (Result Error ℕ)
  unfolding wait_from
  wait_for = wait_from (max_wait / 3000 + 2) 0

  -- How the wait ends.
  pub data Waited : Option (Result Error ℕ) → Type 0 where
    passed : (k : ℕ) → deadline_slot ≤ slot k → Waited (some (ok k))
    timed_out : (k : ℕ) → max_wait < elapsed k → Waited (some (err window_timeout))

  wait_from-Waited :
      (fuel k : ℕ)
      → ((j : ℕ) → j * 3000 ≤ elapsed j)
      → max_wait + 3000 < (k + fuel) * 3000
      → 1 ≤ fuel
      → Waited (wait_from fuel k)
  unfolding wait_from
  wait_from-Waited zero k sleeps h some_fuel = absurd (omega arith)
  wait_from-Waited (suc fuel) k sleeps h some_fuel =
      elim (Bool-cases (leb deadline_slot (slot k))) [
        | inl e ↦ rw e (passed k (leb→le _ _ e))
        | inr e ↦ elim (Bool-cases (ltb max_wait (elapsed k))) [
          | inl e' ↦ rw (e, e') (timed_out k (ltb→lt max_wait (elapsed k) e'))
          | inr e' ↦
              let early : elapsed k ≤ max_wait = ltb-false→le max_wait (elapsed k) e' in
              rw (e, e')
                (wait_from-Waited fuel (k + 1) sleeps (omega arith)
                  (omega (arith, early, sleeps k)))
        ]
      ]

-- When the sleep of three seconds between rounds is counted by the clock, the wait ends within
-- `maxWaitMs / 3000 + 2` rounds: either at a slot that has reached the deadline, or with the
-- timeout when more than `maxWaitMs` have passed.
pub wait_for-Waited :
    (slot elapsed : ℕ → ℕ) (deadline_slot max_wait : ℕ)
    → ((j : ℕ) → j * 3000 ≤ elapsed j)
    → Waited slot elapsed deadline_slot max_wait (wait_for slot elapsed deadline_slot max_wait)
unfolding wait_for
wait_for-Waited slot elapsed deadline_slot max_wait sleeps =
    wait_from-Waited slot elapsed deadline_slot max_wait (max_wait / 3000 + 2) 0 sleeps
      (omega arith) (omega arith)
