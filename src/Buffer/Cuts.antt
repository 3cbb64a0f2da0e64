-- ===== src/Buffer/Cuts.antt =====
-- Comparing and cutting buffers.
use offline_bearer_protocol.Buffer.{Buffer, copy, equals}
use offline_bearer_protocol.Prelude.{
  ℕ, ◌+◌, ◌-◌, ◌≤◌, [], ◌∷◌, ◌++◌, true, ◌≡◌, refl, ◌↔◌, arith, length, take, drop, take-append,
  take-append_le, drop-append_le, take_all, append_assoc, drop-append_add, length-append,
  length-take, length-drop,
}

pub equals_iff : (a b : Buffer) → (equals a b ≡ true) ↔ (a ≡ b)
unfolding equals
equals_iff [] [] = (λ _. refl, λ _. refl)
equals_iff [] (b ∷ bs) = (λ e. cc, λ e. cc)
equals_iff (a ∷ xs) [] = (λ e. cc, λ e. cc)
equals_iff (a ∷ xs) (b ∷ ys) = ground (arith, equals_iff xs ys)

pub equals_refl : (a : Buffer) → equals a a ≡ true
equals_refl a = (equals_iff a a).1 refl

-- A copy never changes the target's length.
pub length-copy :
    (source target : Buffer) (at : ℕ)
    → at ≤ length target
    → length (copy source target at) ≡ length target
unfolding copy
length-copy source target at h = omega (
  arith,
  length-append (take at target)
      (take (length target - at) source ++ drop (at + length source) target),
  length-append (take (length target - at) source) (drop (at + length source) target),
  length-take at target,
  length-take (length target - at) source,
  length-drop (at + length source) target,
)

-- A copy at the end of a prefix overlays what follows it.
pub copy-append :
    (source front rest : Buffer) (at : ℕ)
    → at ≡ length front
    → copy source (front ++ rest) at
      ≡ front ++ (take (length rest) source ++ drop (length source) rest)
unfolding copy
copy-append source front rest at h =
    let kept : take at (front ++ rest) ≡ front = take-append at front rest h in
    let tail : drop (at + length source) (front ++ rest) ≡ drop (length source) rest =
      drop-append_add _ (length source) front rest (omega arith) in
    let room : length (front ++ rest) - at ≡ length rest =
      omega (arith, length-append front rest) in
    rw (kept, tail, room)

-- A copy that ends in the first of two buffers leaves the second alone.
pub copy-append_le :
    (source a b : Buffer) (at : ℕ)
    → at + length source ≤ length a
    → copy source (a ++ b) at ≡ copy source a at ++ b
unfolding copy
copy-append_le source a b at h =
    let kept : take at (a ++ b) ≡ take at a = take-append_le at a b (omega arith) in
    let tail : drop (at + length source) (a ++ b) ≡ drop (at + length source) a ++ b =
      drop-append_le _ a b h in
    let room : take (length (a ++ b) - at) source ≡ source =
      take_all _ source (omega (arith, length-append a b)) in
    let room' : take (length a - at) source ≡ source = take_all _ source (omega arith) in
    rw (kept, tail, room, room') (simp append_assoc)
