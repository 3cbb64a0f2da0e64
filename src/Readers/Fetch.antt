-- ===== src/Readers/Fetch.antt =====
-- sdk/src/readers.ts: the reads from the endpoint, `fetchData` with its retries and the five
-- readers on it. `getAccountInfo` is a parameter: what it answers for an address at the attempt
-- with a number, or the text of what it throws. The waits between attempts are left out.
use offline_bearer_protocol.Accounts.{
  config_pda, registry_pda, head_pda, submission_pda, allowance_pda,
}
use offline_bearer_protocol.Buffer.{Buffer}
use offline_bearer_protocol.Errors.{Error}
use offline_bearer_protocol.Prelude.Text.{utf8, to_lower, includes}
use offline_bearer_protocol.Prelude.{
  ℕ, zero, suc, ◌+◌, ◌≤◌, ◌<◌, List, Option, none, some, Bool, true, false, ◌&&◌, ◌||◌, ◌≡◌, refl,
  ap, sym, subst, ◌∙◌, ◌⊎◌, inl, inr, ltb, leb, leb→le, Result, ok, err, if◌then◌else◌, arith,
  Bool-cases, Result-cases,
}
use offline_bearer_protocol.Readers.{
  OnChainConfig, parse_config, OnChainRegistry, parse_registry, OnChainHead, parse_head,
  OnChainSubmission, parse_submission, OnChainAllowance, parse_allowance,
}
use offline_bearer_protocol.Solana.{PublicKey, Solana}

-- The bytes of the account, `none` for an account that is missing, or the text of an error.
abbrev pub Reply : Type 0
Reply = Result (List ℕ) (Option Buffer)

unfoldable pub rate_limited : List ℕ → Bool
rate_limited s = includes s (utf8 "429") || includes (to_lower s) (utf8 "rate limit")

unfoldable pub after_reply : ℕ → Option Reply → Reply → Option Reply
unfolding rate_limited
after_reply i next (ok found) = some (ok found)
after_reply i next (err s) = if ltb i 5 && rate_limited s then next else some (err s)

-- The loop; `none` is for fuel that runs out.
unfoldable pub fetch_from : (ℕ → Reply) → ℕ → ℕ → Option Reply
unfolding after_reply
fetch_from call zero i = none
fetch_from call (suc fuel) i = after_reply i (fetch_from call fuel (i + 1)) (call i)

-- A reader on the fetched bytes: its account, or `none`, or the error of either.
pub data FetchError : Type 0 where
  call_failed : List ℕ → FetchError
  parse_failed : Error → FetchError

unfoldable pub parse_reply :
    {A : Type 0} → (Buffer → Result Error A) → Reply → Result FetchError (Option A)
parse_reply parse (err s) = err (call_failed s)
parse_reply parse (ok none) = ok none
parse_reply parse (ok (some d)) = elim (parse d) [
  | ok a ↦ ok (some a)
  | err e ↦ err (parse_failed e)
]

module _ (net : Solana) (get_account_info : PublicKey → ℕ → Reply) where
  -- Six attempts are all that the loop makes.
  unfoldable pub fetch_data : PublicKey → Option Reply
  unfolding fetch_from
  fetch_data pda = fetch_from (get_account_info pda) 6 0

  unfoldable pub fetch_config : Option (Result FetchError (Option OnChainConfig))
  unfolding fetch_data parse_reply
  fetch_config = elim (fetch_data (config_pda net).0) [
    | none ↦ none
    | some r ↦ some (parse_reply parse_config r)
  ]

  unfoldable pub fetch_registry : Buffer → Option (Result FetchError (Option OnChainRegistry))
  unfolding fetch_data parse_reply
  fetch_registry serial = elim (fetch_data (registry_pda net serial).0) [
    | none ↦ none
    | some r ↦ some (parse_reply parse_registry r)
  ]

  unfoldable pub fetch_head : Buffer → Option (Result FetchError (Option OnChainHead))
  unfolding fetch_data parse_reply
  fetch_head serial = elim (fetch_data (head_pda net serial).0) [
    | none ↦ none
    | some r ↦ some (parse_reply parse_head r)
  ]

  unfoldable pub fetch_submission :
      Buffer → ℕ → Option (Result FetchError (Option OnChainSubmission))
  unfolding fetch_data parse_reply
  fetch_submission serial attempt = elim (fetch_data (submission_pda net serial attempt).0) [
    | none ↦ none
    | some r ↦ some (parse_reply parse_submission r)
  ]

  unfoldable pub fetch_allowance : PublicKey → Option (Result FetchError (Option OnChainAllowance))
  unfolding fetch_data parse_reply
  fetch_allowance recipient = elim (fetch_data (allowance_pda net recipient).0) [
    | none ↦ none
    | some r ↦ some (parse_reply parse_allowance r)
  ]

-- An attempt that failed because the endpoint limits the rate.
pub Limited : Reply → Type 0
Limited r = (s : List ℕ) × (r ≡ err s) × (rate_limited s ≡ true)

-- Attempt `k` ends the loop that began at attempt `first`.
pub record Answers (call : ℕ → Reply) (first k : ℕ) : Type 0 where
  pub started : first ≤ k
  pub before : (j : ℕ) → first ≤ j → j < k → Limited (call j)
  pub within : k ≤ 5
  pub final : Limited (call k) → 5 ≤ k

Answers-now :
    (call : ℕ → Reply) (first : ℕ)
    → first ≤ 5
    → (Limited (call first) → 5 ≤ first)
    → Answers call first first
Answers-now call first hi h = record {
  started = omega arith;
  before = λ j lo hi. absurd (omega arith);
  within = hi;
  final = h;
}

Answers-later :
    (call : ℕ → Reply) (first k : ℕ)
    → Limited (call first)
    → Answers call (first + 1) k
    → Answers call first k
Answers-later call first k r a = record {
  started = omega (arith, a.started);
  before = λ j lo hi. elim (split j lo) [
    | inl same ↦ subst (λ x. Limited (call x)) same r
    | inr later ↦ a.before j later hi
  ];
  within = a.within;
  final = a.final;
}
  where
    split : (j : ℕ) → first ≤ j → (first ≡ j) ⊎ (first + 1 ≤ j)
    split j lo = elim (Bool-cases (leb (first + 1) j)) [
      | inl e ↦ inr (leb→le _ _ e)
      | inr e ↦ inl (ground arith)
    ]

spent : (i : ℕ) (limited : Bool) → limited ≡ true → (ltb i 5 && limited) ≡ false → 5 ≤ i
spent i limited h e = ground arith

limited : (i : ℕ) (limit : Bool) → (ltb i 5 && limit) ≡ true → (limit ≡ true) × (i < 5)
limited i limit e = ground arith

found≢thrown : {d : Option Buffer} {s : List ℕ} → ◌≡◌ {A = Reply} (ok d) (err s) → ⊥
found≢thrown e = cc

thrown-injective : {a b : List ℕ} → ◌≡◌ {A = Reply} (err a) (err b) → a ≡ b
thrown-injective e = cc

if-false : (x : Option Reply) {y : Option Reply} {b : Bool} → b ≡ false → (if b then x else y) ≡ y
if-false x h = rw h

if-true : {x : Option Reply} (y : Option Reply) {b : Bool} → b ≡ true → (if b then x else y) ≡ x
if-true y h = rw h

fetch_from-Answers :
    (call : ℕ → Reply) (fuel first : ℕ)
    → first + fuel ≡ 6
    → first ≤ 5
    → (k : ℕ) × Answers call first k × (fetch_from call fuel first ≡ some (call k))
unfolding fetch_from after_reply Limited
fetch_from-Answers call zero first h hi = absurd (omega arith)
fetch_from-Answers call (suc fuel) first h hi =
    let next = fetch_from call fuel (first + 1) in
    elim (Result-cases (call first)) [
      | inl (d, e) ↦ (
        first,
        Answers-now call first hi (λ x. absurd (found≢thrown (sym e ∙ x.1))),
        ap (after_reply first next) e ∙ sym (ap some e),
      )
      | inr (s, e) ↦ elim (Bool-cases (ltb first 5 && rate_limited s)) [
        | inl go ↦
            let (limit, more) = limited first (rate_limited s) go in
            let (k, a, eq) = fetch_from-Answers call fuel (first + 1) (omega arith) (omega arith) in
            (
              k,
              Answers-later call first k (s, e, limit) a,
              ap (after_reply first next) e ∙ if-true (some (err s)) go ∙ eq,
            )
        | inr stop ↦ (
          first,
          Answers-now call first hi (λ x.
              spent first (rate_limited s) (ap rate_limited (thrown-injective (sym e ∙ x.1)) ∙ x.2)
                stop),
          ap (after_reply first next) e ∙ if-false next stop ∙ sym (ap some e),
        )
      ]
    ]

-- `fetchData` ends after six attempts at most. It gives what attempt number `k` from 0 gave, where
-- every attempt before it failed with a text of a rate limit, and attempt `k` itself failed so only
-- if it was the sixth.
pub fetch_data-Answers :
    (net : Solana) (get_account_info : PublicKey → ℕ → Reply) (pda : PublicKey)
    → (k : ℕ) × Answers (get_account_info pda) 0 k
      × (fetch_data net get_account_info pda ≡ some (get_account_info pda k))
unfolding fetch_data
fetch_data-Answers net get_account_info pda =
    fetch_from-Answers (get_account_info pda) 6 0 refl (omega arith)
