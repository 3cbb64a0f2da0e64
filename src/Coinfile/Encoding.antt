-- ===== src/Coinfile/Encoding.antt =====
-- What `encodeCoinCore` of sdk/src/coinfile.ts writes, as the parts of a file.
use offline_bearer_protocol.Buffer.{Buffer, copy, le_bytes}
use offline_bearer_protocol.Buffer.Fill.{Starts, Starts-copy}
use offline_bearer_protocol.Constants.{coin_magic}
use offline_bearer_protocol.Coinfile.{CoinCore, copy_all}
use offline_bearer_protocol.Prelude.{
  ℕ, ◌+◌, ◌-◌, ◌*◌, ◌^◌, ◌<◌, ◌≤◌, List, [], ◌∷◌, ◌++◌, map, length, take, flatten, All, ◌≡◌, refl,
  ◌∙◌, arith, append_assoc, append-nil, length-append, length-take,
}

-- The sizes that the binary layout has room for. States and signatures may be longer than theirs.
pub record Fits (c : CoinCore) : Type 0 where
  pub some_state : 1 ≤ length c.states
  pub sig_count : length c.sigs ≡ length c.states - 1
  pub serial_32 : length c.serial ≡ 32
  pub value_u64 : c.value < 256 ^ 8
  pub scheme_u8 : c.sig_scheme < 256 ^ 1
  pub count_u16 : length c.states < 256 ^ 2
  pub states_104 : All (λ s. 104 ≤ length s) c.states
  pub sigs_64 : All (λ s. 64 ≤ length s) c.sigs

abbrev pub head_parts : CoinCore → List Buffer
head_parts c =
    coin_magic
    ∷ le_bytes 2 1
    ∷ le_bytes 1 c.sig_scheme
    ∷ le_bytes 2 (length c.states)
    ∷ c.serial
    ∷ le_bytes 8 c.value
    ∷ []

-- What stands before the checksum, each state and signature cut to its size.
unfoldable pub body : CoinCore → Buffer
body c =
    flatten (head_parts c) ++ (flatten (map (take 104) c.states) ++ flatten (map (take 64) c.sigs))

-- The loop writes every item behind the one before, cut to its size.
pub copy_all-offset :
    (k : ℕ) (items : List Buffer) (buf : Buffer) (o : ℕ)
    → (copy_all k items buf o).1 ≡ o + length items * k
unfolding copy_all
copy_all-offset k [] buf o = omega arith
copy_all-offset k (s ∷ items) buf o = copy_all-offset k items (copy s buf o) (o + k) ∙ grind arith

pub length-flatten-take :
    (k : ℕ) (items : List Buffer)
    → All (λ s. k ≤ length s) items
    → length (flatten (map (take k) items)) ≡ length items * k
length-flatten-take k [] h = omega arith
length-flatten-take k (s ∷ items) h = grind (
  arith,
  length-append (take k s) (flatten (map (take k) items)),
  length-take k s,
  length-flatten-take k items h.1,
)

pub copy_all-Starts :
    (k n at : ℕ) (items : List Buffer) {front buf : Buffer} {m : ℕ}
    → Starts front m buf
    → at ≡ length front
    → All (λ s. k ≤ length s) items
    → m ≡ length items * k + n
    → Starts (front ++ flatten (map (take k) items)) n (copy_all k items buf at).0
unfolding copy_all
copy_all-Starts k n at [] {front} s hat h hm =
    let e : front ++ [] ≡ front = append-nil front in
    rw e (record { rest = s.rest; is = s.is; size = omega (arith, s.size) })
copy_all-Starts k n at (x ∷ items) {front} s hat (hx, h) hm =
    let s' = Starts-copy s k (length items * k + n) at x hat hx (grind arith) in
    let at' : at + k ≡ length (front ++ take k x) =
      omega (arith, length-append front (take k x), length-take k x) in
    rw append_assoc at (copy_all-Starts k n (at + k) items s' at' h refl)
