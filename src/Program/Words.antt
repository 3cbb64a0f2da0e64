-- ===== src/Program/Words.antt =====
-- Rust's arithmetic on words of `w` bits. The release profile of Cargo.toml checks `+` and `-`, and an
-- overflow panics.
use offline_bearer_protocol.Prelude.{
  ℕ, ◌+◌, ◌-◌, ◌*◌, ◌^◌, min, Option, none, some, Result, ok, err, ltb, leb, ltb→lt, leb→le,
  if-eq-ok, if-eq-some, ◌≡◌, sym, ◌<◌, ◌≤◌, if◌then◌else◌,
}
use offline_bearer_protocol.Program.Errors.{Failure, overflow}

unfoldable pub add_word : ℕ → ℕ → ℕ → Result Failure ℕ
add_word w a b = if ltb (a + b) (2 ^ w) then ok (a + b) else err overflow

unfoldable pub sub_word : ℕ → ℕ → Result Failure ℕ
sub_word a b = if leb b a then ok (a - b) else err overflow

unfoldable pub checked_mul : ℕ → ℕ → ℕ → Option ℕ
checked_mul w a b = if ltb (a * b) (2 ^ w) then some (a * b) else none

unfoldable pub checked_sub : ℕ → ℕ → Option ℕ
checked_sub a b = if leb b a then some (a - b) else none

unfoldable pub saturating_add : ℕ → ℕ → ℕ → ℕ
saturating_add w a b = min (a + b) (2 ^ w - 1)

pub add_word-eq-ok : (w a b : ℕ) {c : ℕ} → add_word w a b ≡ ok c → (a + b < 2 ^ w) × (c ≡ a + b)
unfolding add_word
add_word-eq-ok w a b e =
    let (t, same) = if-eq-ok (ltb (a + b) (2 ^ w)) _ _ e in (ltb→lt _ _ t, sym same)

pub sub_word-eq-ok : (a b : ℕ) {c : ℕ} → sub_word a b ≡ ok c → (b ≤ a) × (c ≡ a - b)
unfolding sub_word
sub_word-eq-ok a b e = let (t, same) = if-eq-ok (leb b a) _ _ e in (leb→le _ _ t, sym same)

pub checked_mul-eq-some :
    (w a b : ℕ) {c : ℕ} → checked_mul w a b ≡ some c → (a * b < 2 ^ w) × (c ≡ a * b)
unfolding checked_mul
checked_mul-eq-some w a b e =
    let (t, same) = if-eq-some (ltb (a * b) (2 ^ w)) _ e in (ltb→lt _ _ t, sym same)

pub checked_sub-eq-some : (a b : ℕ) {c : ℕ} → checked_sub a b ≡ some c → (b ≤ a) × (c ≡ a - b)
unfolding checked_sub
checked_sub-eq-some a b e = let (t, same) = if-eq-some (leb b a) _ e in (leb→le _ _ t, sym same)
