-- ===== src/Buffer/Words.antt =====
-- Little-endian numbers in buffers.
use native.Mathlib.Nat.{pow-suc}
use offline_bearer_protocol.Buffer.{Buffer, IsByte, le_bytes, of_le, copy, write_uint, read_uint}
use offline_bearer_protocol.Prelude.{
  ℕ, zero, suc, ◌+◌, ◌*◌, ◌/◌, ◌%◌, ◌^◌, ◌≤◌, ◌<◌, [], ◌∷◌, ◌≡◌, refl, ap, arith, length, take,
  drop, All, ok, le→leb, lt→ltb,
}

pub length-le_bytes : (w v : ℕ) → length (le_bytes w v) ≡ w
unfolding le_bytes
length-le_bytes zero v = refl
length-le_bytes (suc w) v = ap suc (length-le_bytes w (v / 256))

pub le_bytes-IsByte : (w v : ℕ) → All IsByte (le_bytes w v)
unfolding le_bytes
le_bytes-IsByte zero v = tt
le_bytes-IsByte (suc w) v = (omega arith, le_bytes-IsByte w (v / 256))

-- A number that fits its width is read back from its bytes.
pub of_le-le_bytes : (w v : ℕ) → v < 256 ^ w → of_le (le_bytes w v) ≡ v
unfolding le_bytes of_le
of_le-le_bytes zero v h = omega arith
of_le-le_bytes (suc w) v h =
    let fits : v / 256 < 256 ^ w = omega (arith, pow-suc 256 w) in
    omega (arith, of_le-le_bytes w (v / 256) fits)

-- Bytes are written back from the number that they stand for.
pub le_bytes-of_le : (bs : Buffer) → All IsByte bs → le_bytes (length bs) (of_le bs) ≡ bs
unfolding le_bytes of_le
le_bytes-of_le [] h = refl
le_bytes-of_le (b ∷ bs) (hb, hbs) =
    let low : (b + 256 * of_le bs) % 256 ≡ b = omega arith in
    let high : (b + 256 * of_le bs) / 256 ≡ of_le bs = omega arith in
    rw (low, high) (ap (λ r. b ∷ r) (le_bytes-of_le bs hbs))

pub of_le-lt : (bs : Buffer) → All IsByte bs → of_le bs < 256 ^ length bs
unfolding of_le
of_le-lt [] h = omega arith
of_le-lt (b ∷ bs) (hb, hbs) = omega (arith, of_le-lt bs hbs, pow-suc 256 (length bs))

pub write_uint-ok :
    (w v at : ℕ) (buf : Buffer)
    → v < 256 ^ w
    → at + w ≤ length buf
    → write_uint w v at buf ≡ ok (copy (le_bytes w v) buf at)
unfolding write_uint
write_uint-ok w v at buf hv hat = rw (lt→ltb v (256 ^ w) hv, le→leb (at + w) (length buf) hat)

pub read_uint-ok :
    (w at : ℕ) (buf : Buffer)
    → at + w ≤ length buf
    → read_uint w at buf ≡ ok (of_le (take w (drop at buf)))
unfolding read_uint
read_uint-ok w at buf h = rw (le→leb (at + w) (length buf) h)
