-- ===== src/Coinfile/Reading.antt =====
-- What `decodeCoinCore` of sdk/src/coinfile.ts reads from a file of the layout.
use offline_bearer_protocol.Buffer.{Buffer, subarray, le_bytes, read_uint}
use offline_bearer_protocol.Buffer.Cuts.{equals_refl}
use offline_bearer_protocol.Buffer.Fill.{
  length-flatten, drop-flatten, subarray-part, read_uint-part,
}
use offline_bearer_protocol.Buffer.Words.{length-le_bytes, of_le-le_bytes}
use offline_bearer_protocol.Constants.{coin_magic}
use offline_bearer_protocol.Coinfile.{CoinCore, coin_core_size, cut_all, decode_coin_core}
use offline_bearer_protocol.Coinfile.Encoding.{head_parts}
use offline_bearer_protocol.Prelude.{
  ℕ, suc, ◌+◌, ◌-◌, ◌*◌, ◌^◌, ◌<◌, ◌≤◌, List, [], ◌∷◌, ◌++◌, length, drop, flatten, ok, ◌≡◌, false,
  ==_iff, refl, sym, ap, ◌∙◌, arith, append_assoc, append-nil, length-append, take-append,
  drop-append, drop-add, ltb, All,
}

-- The loop cuts out the items that stand one behind the other from its offset on.
pub cut_all-items :
    (k at : ℕ) (items : List Buffer) (b rest : Buffer)
    → All (λ s. length s ≡ k) items
    → drop at b ≡ flatten items ++ rest
    → cut_all k (length items) b at ≡ (items, at + length items * k)
unfolding cut_all
cut_all-items k at [] b rest h e = let z : at + 0 * k ≡ at = omega arith in rw z
cut_all-items k at (x ∷ items) b rest (hx, h) e =
    let whole : drop at b ≡ x ++ (flatten items ++ rest) =
      e ∙ append_assoc x (flatten items) rest in
    let one : subarray b at (at + k) ≡ x =
      let width : at + k - at ≡ k = omega arith in
      rw (width, whole) (take-append k x (flatten items ++ rest) (sym hx)) in
    let later : drop (at + k) b ≡ flatten items ++ rest =
      drop-add at k b ∙ ap (drop k) whole ∙ drop-append k x (flatten items ++ rest) (sym hx) in
    let offset : at + k + length items * k ≡ at + suc (length items) * k = grind arith in
    rw (cut_all-items k (at + k) items b rest h later, one, offset)

-- The exact sizes of a coin file's fields.
pub record IsCoinCore (c : CoinCore) : Type 0 where
  pub some_state : 1 ≤ length c.states
  pub sig_count : length c.sigs ≡ length c.states - 1
  pub serial_32 : length c.serial ≡ 32
  pub value_u64 : c.value < 256 ^ 8
  pub scheme_u8 : c.sig_scheme < 256 ^ 1
  pub count_u16 : length c.states < 256 ^ 2
  pub states_104 : All (λ s. length s ≡ 104) c.states
  pub sigs_64 : All (λ s. length s ≡ 64) c.sigs

length-items :
    (k : ℕ) (items : List Buffer)
    → All (λ s. length s ≡ k) items
    → length (flatten items) ≡ length items * k
length-items k [] h = omega arith
length-items k (x ∷ items) (hx, h) =
    grind (arith, length-append x (flatten items), length-items k items h)

unfoldable pub plain_body : CoinCore → Buffer
plain_body c = flatten (head_parts c) ++ (flatten c.states ++ flatten c.sigs)

module _ (c : CoinCore) (v : IsCoinCore c) where
  file_parts : Buffer → List Buffer
  file_parts sum =
      coin_magic
      ∷ le_bytes 2 1
      ∷ le_bytes 1 c.sig_scheme
      ∷ le_bytes 2 (length c.states)
      ∷ c.serial
      ∷ le_bytes 8 c.value
      ∷ flatten c.states
      ∷ flatten c.sigs
      ∷ sum
      ∷ []

  file-parts : (sum : Buffer) → (plain_body c) ++ sum ≡ flatten (file_parts sum)
  unfolding plain_body file_parts
  file-parts sum = simp (append_assoc, append-nil)

  module _ (sha256 : Buffer → Buffer) (digest_32 : (b : Buffer) → length (sha256 b) ≡ 32) where
    file : Buffer
    file = flatten (file_parts (sha256 (plain_body c)))

    le_1 : length (le_bytes 1 c.sig_scheme) ≡ 1
    le_1 = length-le_bytes 1 c.sig_scheme

    le_2 : length (le_bytes 2 (length c.states)) ≡ 2
    le_2 = length-le_bytes 2 (length c.states)

    le_8 : length (le_bytes 8 c.value) ≡ 8
    le_8 = length-le_bytes 8 c.value

    states_size : length (flatten c.states) ≡ length c.states * 104
    states_size = length-items 104 c.states v.states_104

    sigs_size : length (flatten c.sigs) ≡ length c.sigs * 64
    sigs_size = length-items 64 c.sigs v.sigs_64

    length-file : length file ≡ coin_core_size (length c.states)
    unfolding file file_parts
    length-file =
        length-flatten (file_parts (sha256 (plain_body c)))
        ∙ omega (
          arith,
          le_1,
          le_2,
          le_8,
          length-le_bytes 2 1,
          v.serial_32,
          states_size,
          sigs_size,
          v.some_state,
          v.sig_count,
          digest_32 (plain_body c),
        )

    magic_read : subarray file 0 4 ≡ coin_magic
    unfolding file file_parts
    magic_read = refl

    version_read : read_uint 2 4 file ≡ ok 1
    unfolding file file_parts
    version_read =
        read_uint-part (file_parts (sha256 (plain_body c))) 1 2 4 refl refl
          (sym (length-le_bytes 2 1))
        ∙ ap ok (of_le-le_bytes 2 1 (omega arith))

    scheme_read : read_uint 1 6 file ≡ ok c.sig_scheme
    unfolding file file_parts
    scheme_read =
        read_uint-part (file_parts (sha256 (plain_body c))) 2 1 6 refl
          (omega (arith, length-le_bytes 2 1)) (sym le_1)
        ∙ ap ok (of_le-le_bytes 1 c.sig_scheme v.scheme_u8)

    count_read : read_uint 2 7 file ≡ ok (length c.states)
    unfolding file file_parts
    count_read =
        read_uint-part (file_parts (sha256 (plain_body c))) 3 2 7 refl
          (omega (arith, length-le_bytes 2 1, le_1)) (sym le_2)
        ∙ ap ok (of_le-le_bytes 2 (length c.states) v.count_u16)

    serial_read : subarray file 9 41 ≡ c.serial
    unfolding file file_parts
    serial_read =
        subarray-part (file_parts (sha256 (plain_body c))) 4 9 41 refl
          (omega (arith, length-le_bytes 2 1, le_1, le_2)) (omega (arith, v.serial_32))

    value_read : read_uint 8 41 file ≡ ok c.value
    unfolding file file_parts
    value_read =
        read_uint-part (file_parts (sha256 (plain_body c))) 5 8 41 refl
          (omega (arith, length-le_bytes 2 1, le_1, le_2, v.serial_32)) (sym le_8)
        ∙ ap ok (of_le-le_bytes 8 c.value v.value_u64)

    states_read : cut_all 104 (length c.states) file 49 ≡ (c.states, 49 + length c.states * 104)
    unfolding file file_parts
    states_read =
        cut_all-items 104 49 c.states file (flatten c.sigs ++ (sha256 (plain_body c) ++ []))
          v.states_104
          (drop-flatten (file_parts (sha256 (plain_body c))) 6 49
            (omega (arith, length-le_bytes 2 1, le_1, le_2, le_8, v.serial_32)))

    abbrev sigs_at : ℕ
    sigs_at = 49 + length c.states * 104

    sigs_read :
        cut_all 64 (length c.states - 1) file sigs_at ≡ (c.sigs, sigs_at + length c.sigs * 64)
    unfolding file file_parts
    sigs_read = rw (← v.sig_count) (
        cut_all-items 64 sigs_at c.sigs file (sha256 (plain_body c) ++ []) v.sigs_64 (
          drop-flatten (file_parts (sha256 (plain_body c))) 7 sigs_at
            (omega (arith, length-le_bytes 2 1, le_1, le_2, le_8, v.serial_32, states_size))))

    abbrev sum_at : ℕ
    sum_at = sigs_at + length c.sigs * 64

    sum_read : subarray file sum_at (sum_at + 32) ≡ sha256 (plain_body c)
    unfolding file file_parts
    sum_read =
        subarray-part (file_parts (sha256 (plain_body c))) 8 sum_at (sum_at + 32) refl
          (omega
            (arith, length-le_bytes 2 1, le_1, le_2, le_8, v.serial_32, states_size, sigs_size))
          (omega (arith, digest_32 (plain_body c)))

    body_read : subarray file 0 sum_at ≡ (plain_body c)
    unfolding file
    body_read =
        ap (λ b. subarray b 0 sum_at) (sym (file-parts (sha256 (plain_body c))))
        ∙ take-append (sum_at - 0) (plain_body c) (sha256 (plain_body c)) ends
      where
        ends : sum_at - 0 ≡ length (plain_body c)
        ends = omega (
          arith,
          ap length (file-parts (sha256 (plain_body c))),
          length-append (plain_body c) (sha256 (plain_body c)),
          length-file,
          digest_32 (plain_body c),
          v.some_state,
          v.sig_count,
        )

    decoded : decode_coin_core sha256 file ≡ ok c
    unfolding decode_coin_core
    decoded =
        let large : ltb (length file) 49 ≡ false = ground (arith, length-file, v.some_state) in
        let size = (==_iff (length file) (coin_core_size (length c.states))).1 length-file in
        rw (
          large,
          magic_read,
          equals_refl coin_magic,
          version_read,
          count_read,
          size,
          scheme_read,
          value_read,
          states_read,
          sigs_read,
          body_read,
          sum_read,
          equals_refl (sha256 (plain_body c)),
          serial_read,
        )

    pub decode_coin_core-eq : decode_coin_core sha256 (plain_body c ++ sha256 (plain_body c)) ≡ ok c
    unfolding file
    decode_coin_core-eq = rw (file-parts (sha256 (plain_body c))) decoded
