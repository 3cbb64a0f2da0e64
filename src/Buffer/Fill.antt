-- ===== src/Buffer/Fill.antt =====
-- A buffer as the parts that it is made of: reading the parts, and writing them one by one.
use offline_bearer_protocol.Buffer.{
  Buffer, copy, alloc, subarray, le_bytes, of_le, read_uint, write_uint,
}
use offline_bearer_protocol.Buffer.Cuts.{copy-append}
use offline_bearer_protocol.Buffer.Words.{length-le_bytes, read_uint-ok, write_uint-ok}
use offline_bearer_protocol.Prelude.{
  ℕ, zero, suc, ◌+◌, ◌-◌, ◌^◌, ◌≤◌, ◌<◌, List, [], ◌∷◌, ◌++◌, ◌≡◌, refl, ap, sym, ◌∙◌, arith,
  length, take, drop, flatten, get_elem?, some, ok, take-append, take-append_le, drop-append_add,
  length-append, length-take, length-drop, length-replicate, append_assoc, append-nil, take_all,
  take-take, take-append-drop,
}

abbrev pub total : List Buffer → ℕ
total [] = 0
total (p ∷ ps) = length p + total ps

pub length-flatten : (ps : List Buffer) → length (flatten ps) ≡ total ps
length-flatten [] = refl
length-flatten (p ∷ ps) = omega (arith, length-append p (flatten ps), length-flatten ps)

-- What stands at a part's offset is the part and then the parts behind it.
pub drop-flatten :
    (ps : List Buffer) (i at : ℕ)
    → at ≡ total (take i ps)
    → drop at (flatten ps) ≡ flatten (drop i ps)
drop-flatten ps zero at h = rw h
drop-flatten [] (suc i) at h = rw h
drop-flatten (p ∷ ps) (suc i) at h =
    drop-append_add at (total (take i ps)) p (flatten ps) h ∙ drop-flatten ps i _ refl

flatten-get :
    (ps : List Buffer) (i : ℕ) {p : Buffer}
    → get_elem? ps i ≡ some p
    → (rest : Buffer) × (flatten (drop i ps) ≡ p ++ rest)
flatten-get [] i h = cc
flatten-get (q ∷ ps) zero h = (flatten ps, ground (arith))
flatten-get (q ∷ ps) (suc i) h = flatten-get ps i h

total-get :
    (ps : List Buffer) (i : ℕ) {p : Buffer}
    → get_elem? ps i ≡ some p
    → total (take i ps) + length p ≤ total ps
total-get [] i h = cc
total-get (q ∷ ps) zero h = ground arith
total-get (q ∷ ps) (suc i) h = omega (arith, total-get ps i h)

pub subarray-part :
    (ps : List Buffer) (i first last : ℕ) {p : Buffer}
    → get_elem? ps i ≡ some p
    → first ≡ total (take i ps)
    → last ≡ first + length p
    → subarray (flatten ps) first last ≡ p
subarray-part ps i first last {p} h hf hl =
    let (rest, e) = flatten-get ps i h in
    let size : last - first ≡ length p = omega arith in
    rw (size, drop-flatten ps i first hf, e) (take-append _ p rest refl)

pub read_uint-part :
    (ps : List Buffer) (i w at : ℕ) {p : Buffer}
    → get_elem? ps i ≡ some p
    → at ≡ total (take i ps)
    → w ≡ length p
    → read_uint w at (flatten ps) ≡ ok (of_le p)
read_uint-part ps i w at {p} h hat hw =
    let (rest, e) = flatten-get ps i h in
    let room : at + w ≤ length (flatten ps) = omega (arith, length-flatten ps, total-get ps i h) in
    read_uint-ok w at (flatten ps) room ∙ rw (drop-flatten ps i at hat, e, take-append w p rest hw)

-- A buffer that is filled as far as `front`, with `m` bytes of any content behind it.
pub record Starts (front : Buffer) (m : ℕ) (buf : Buffer) : Type 0 where
  pub rest : Buffer
  pub is : buf ≡ front ++ rest
  pub size : length rest ≡ m

pub Starts-alloc : (m : ℕ) → Starts [] m (alloc m)
Starts-alloc m = record { rest = alloc m; is = refl; size = length-replicate m 0 }

pub Starts-take : (n m : ℕ) (b : Buffer) → length b ≡ n + m → Starts (take n b) m b
Starts-take n m b h = record {
  rest = drop n b;
  is = sym (take-append-drop n b);
  size = omega (arith, h, length-drop n b);
}

length-eq-zero : (b : Buffer) → length b ≡ 0 → b ≡ []
length-eq-zero [] h = refl
length-eq-zero (x ∷ b) h = absurd (omega arith)

pub Starts-full : {front buf : Buffer} → Starts front 0 buf → buf ≡ front
Starts-full {front} s =
    s.is ∙ ap (λ r. front ++ r) (length-eq-zero s.rest s.size) ∙ append-nil front

pub length-Starts :
    {front buf : Buffer} {m : ℕ} → Starts front m buf → length buf ≡ length front + m
length-Starts {front} s = ap length s.is ∙ omega (arith, length-append front s.rest, s.size)

-- Of a source that may be longer than its place, the first `k` bytes are kept when the next copy
-- goes behind them.
module _ {front buf : Buffer} {m : ℕ} (s : Starts front m buf) where
  overlaid : Buffer → Buffer
  overlaid source = take (length s.rest) source ++ drop (length source) s.rest

  length-overlaid : (source : Buffer) → length (overlaid source) ≡ length s.rest
  unfolding overlaid
  length-overlaid source = omega (
    arith,
    length-append (take (length s.rest) source) (drop (length source) s.rest),
    length-take (length s.rest) source,
    length-drop (length source) s.rest,
  )

  take-overlaid :
      (k : ℕ) (source : Buffer)
      → k ≤ length source
      → k ≤ length s.rest
      → take k (overlaid source) ≡ take k source
  unfolding overlaid
  take-overlaid k source h hm =
      take-append_le k (take (length s.rest) source) (drop (length source) s.rest)
        (omega (arith, length-take (length s.rest) source))
      ∙ take-take k (length s.rest) source hm

  pub Starts-copy :
      (k n at : ℕ) (source : Buffer)
      → at ≡ length front
      → k ≤ length source
      → m ≡ k + n
      → Starts (front ++ take k source) n (copy source buf at)
  unfolding overlaid
  Starts-copy k n at source hat hk hm = record {
    rest = drop k (overlaid source);
    is =
        ap (λ b. copy source b at) s.is
        ∙ copy-append source front s.rest at hat
        ∙ ap (λ x. front ++ x) (sym (take-append-drop k (overlaid source)))
        ∙ sym (append_assoc front (take k (overlaid source)) (drop k (overlaid source)))
        ∙ ap (λ x. (front ++ x) ++ drop k (overlaid source))
            (take-overlaid k source hk (omega (arith, s.size)));
    size = omega (arith, length-drop k (overlaid source), length-overlaid source, s.size);
  }

  -- A source that fills its place.
  pub Starts-put :
      (n at : ℕ) (source : Buffer)
      → at ≡ length front
      → m ≡ length source + n
      → Starts (front ++ source) n (copy source buf at)
  Starts-put n at source hat hm =
      rw (take_all (length source) source (omega arith)) at
        (Starts-copy (length source) n at source hat (omega arith) hm)

  pub Starts-write :
      (w v n at : ℕ)
      → at ≡ length front
      → m ≡ w + n
      → Starts (front ++ le_bytes w v) n (copy (le_bytes w v) buf at)
  Starts-write w v n at hat hm =
      Starts-put n at (le_bytes w v) hat (omega (arith, length-le_bytes w v))

  pub write_uint-Starts :
      (w v n at : ℕ)
      → at ≡ length front
      → m ≡ w + n
      → v < 256 ^ w
      → write_uint w v at buf ≡ ok (copy (le_bytes w v) buf at)
  write_uint-Starts w v n at hat hm hv =
      write_uint-ok w v at buf hv (omega (arith, length-Starts s))
