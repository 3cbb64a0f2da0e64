-- ===== src/Client/Retries.antt =====
-- How often `ObpClient.send` of sdk/src/client.ts tries, and what it gives.
use offline_bearer_protocol.Client.{
  Text, Connection, SendResult, retryable, try_send, after_attempt, send_from, send,
}
use offline_bearer_protocol.Prelude.{
  ℕ, zero, suc, ◌+◌, ◌≤◌, ◌<◌, max, List, Option, some, Bool, true, false, not, ◌||◌, ◌≡◌, ap, sym,
  ◌∙◌, subst, ◌⊎◌, inl, inr, leb, Result, ok, err, arith, Bool-cases, Result-cases, if◌then◌else◌,
  leb→le,
}
use offline_bearer_protocol.Solana.{TransactionInstruction}

-- An attempt that failed with a text that allows another one.
pub Retried : Result Text SendResult → Type 0
Retried r = (msg : Text) × (r ≡ err msg) × (retryable msg ≡ true)

stopped : (m n : ℕ) (again : Bool) → again ≡ true → (leb m n || not again) ≡ true → m ≤ n
stopped m n again h e = ground arith

going_on : (m n : ℕ) (again : Bool) → (leb m n || not again) ≡ false → (again ≡ true) × (n < m)
going_on m n again e = ground arith

if-true : {A : Type 0} {b : Bool} {x : A} (y : A) → b ≡ true → (if b then x else y) ≡ x
if-true y h = rw h

if-false : {A : Type 0} {b : Bool} (x : A) {y : A} → b ≡ false → (if b then x else y) ≡ y
if-false x h = rw h

ok≢err : {r : SendResult} {msg : Text} → ◌≡◌ {A = Result Text SendResult} (ok r) (err msg) → ⊥
ok≢err e = cc

err-injective : {a b : Text} → ◌≡◌ {A = Result Text SendResult} (err a) (err b) → a ≡ b
err-injective e = cc

module _ (conn : Connection) (label : Text) (ix : List TransactionInstruction)
    (max_retries : ℕ) where
  -- Attempt `k` ends the loop that began at attempt `first`.
  pub record Ends (first k : ℕ) : Type 0 where
    pub started : first ≤ k
    pub before : (j : ℕ) → first ≤ j → j < k → Retried (try_send conn label ix j)
    pub within : k < max (first + 1) max_retries
    pub final : Retried (try_send conn label ix k) → max_retries ≤ k + 1

  Ends-now :
      (first : ℕ)
      → (Retried (try_send conn label ix first) → max_retries ≤ first + 1)
      → Ends first first
  Ends-now first h = record {
    started = omega arith;
    before = λ j lo hi. absurd (omega arith);
    within = omega arith;
    final = h;
  }

  Ends-later :
      (first k : ℕ)
      → Retried (try_send conn label ix first)
      → first + 1 < max_retries
      → Ends (first + 1) k
      → Ends first k
  Ends-later first k r h e = record {
    started = omega (arith, e.started);
    before = λ j lo hi. elim (split j lo) [
      | inl same ↦ subst (λ x. Retried (try_send conn label ix x)) same r
      | inr later ↦ e.before j later hi
    ];
    within = omega (arith, e.within);
    final = e.final;
  }
    where
      split : (j : ℕ) → first ≤ j → (first ≡ j) ⊎ (first + 1 ≤ j)
      split j lo = elim (Bool-cases (leb (first + 1) j)) [
        | inl e ↦ inr (leb→le _ _ e)
        | inr e ↦ inl (ground arith)
      ]

  next : ℕ → ℕ → Option (Result Text SendResult)
  next fuel first = send_from conn label ix max_retries fuel (first + 1)

  send_from-Ends :
      (fuel first : ℕ)
      → max (first + 1) max_retries ≤ first + fuel
      → (k : ℕ) × Ends first k
        × (send_from conn label ix max_retries fuel first ≡ some (try_send conn label ix k))
  unfolding send_from after_attempt next Retried
  send_from-Ends zero first h = absurd (omega arith)
  send_from-Ends (suc fuel) first h = elim (Result-cases (try_send conn label ix first)) [
    | inl (r, e) ↦ (
      first,
      Ends-now first (λ x. absurd (ok≢err (sym e ∙ x.1))),
      ap (after_attempt max_retries (first + 1) (next fuel first)) e ∙ sym (ap some e),
    )
    | inr (msg, e) ↦ elim (Bool-cases (leb max_retries (first + 1) || not (retryable msg))) [
      | inl stop ↦ (
        first,
        Ends-now first (λ x.
            stopped max_retries (first + 1) (retryable msg)
              (ap retryable (err-injective (sym e ∙ x.1)) ∙ x.2) stop),
        ap (after_attempt max_retries (first + 1) (next fuel first)) e
            ∙ if-true (next fuel first) stop
            ∙ sym (ap some e),
      )
      | inr go ↦
          let (again, more) = going_on max_retries (first + 1) (retryable msg) go in
          let (k, ends, eq) = send_from-Ends fuel (first + 1) (omega arith) in
          (
            k,
            Ends-later first k (msg, e, again) more ends,
            ap (after_attempt max_retries (first + 1) (next fuel first)) e
                ∙ if-false (some (err msg)) go
                ∙ eq,
          )
    ]
  ]

-- `send` ends, with fuel for `maxRetries` attempts and for at least one. It gives what attempt
-- number `k` from 0 gave, a result or what it threw, where `k` is below `maxRetries` or 0, every
-- attempt before it failed with a text that allows a retry, and so did attempt `k` itself only if
-- it was the last one of `maxRetries`.
pub send-Ends :
    (conn : Connection) (label : Text) (ix : List TransactionInstruction) (max_retries fuel : ℕ)
    → max 1 max_retries ≤ fuel
    → (k : ℕ) × Ends conn label ix max_retries 0 k
      × (send conn label ix max_retries fuel ≡ some (try_send conn label ix k))
unfolding send
send-Ends conn label ix max_retries fuel h =
    send_from-Ends conn label ix max_retries fuel 0 (omega arith)
