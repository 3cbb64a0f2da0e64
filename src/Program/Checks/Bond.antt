-- ===== src/Program/Checks/Bond.antt =====
-- The bond that programs/obp-core/src/instructions/checkin.rs takes, beside the one that
-- sdk/src/orchestrate.ts announces.
use offline_bearer_protocol.Checkin.{bond_of}
use offline_bearer_protocol.Prelude.{
  ℕ, ◌*◌, ◌/◌, ◌^◌, ◌≤◌, ◌<◌, ◌≡◌, sym, ap, subst, ◌∙◌, ok, leb, leb→le, le→leb, lt→ltb,
  guard-eq-ok, >>=-eq-ok, some_or-eq-ok, some_or, arith, ok-injective, ◌↔◌,
}
use native.Mathlib.Nat.{le-div_iff_mul-le, mul-le-mul_left}
use offline_bearer_protocol.Program.Checks.{bond_amount}
use offline_bearer_protocol.Program.Errors.{Failure}
use offline_bearer_protocol.Program.Words.{checked_mul, checked_mul-eq-some}

-- The program takes a bond exactly when the multiplier is at least one and the product fits 64
-- bits; it is then the bond that the client announces, and covers the coin's value.
pub bond_amount-bond_of_iff :
    (value bps bond : ℕ)
    → (bond_amount value bps ≡ ok bond)
      ↔ ((10000 ≤ bps) × (value * bps < 2 ^ 64) × (bond ≡ bond_of value bps) × (value ≤ bond))
unfolding bond_amount bond_of checked_mul
bond_amount-bond_of_iff value bps bond = (
  λ e.
      let (e1, f1) = guard-eq-ok (leb 10000 bps) _ _ e in
      let (scaled, e2, f2) = >>=-eq-ok (some_or (checked_mul 64 value bps) _) _ f1 in
      let (small, product) =
        checked_mul-eq-some 64 value bps (some_or-eq-ok (checked_mul 64 value bps) _ e2) in
      let same = ok-injective {E = Failure} f2 in
      let parity = leb→le _ _ e1 in
      let announced : bond ≡ value * bps / 10000 = sym same ∙ ap (λ n. n / 10000) product in
      (parity, small, announced, subst (λ n. value ≤ n) (sym announced) (covered parity)),
  λ (parity, small, same, covers).
      rw (le→leb 10000 bps parity, lt→ltb (value * bps) (2 ^ 64) small, same),
)
  where
    covered : 10000 ≤ bps → value ≤ value * bps / 10000
    covered parity = (le-div_iff_mul-le (omega arith)).1 (mul-le-mul_left value parity)
