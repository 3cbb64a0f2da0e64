-- ===== src/Coinfile/Writing.antt =====
-- `encodeCoinCore` of sdk/src/coinfile.ts, write by write.
use offline_bearer_protocol.Buffer.{Buffer, alloc, copy, subarray, le_bytes}
use offline_bearer_protocol.Buffer.Fill.{
  Starts, Starts-alloc, Starts-put, Starts-write, Starts-full, write_uint-Starts,
}
use offline_bearer_protocol.Buffer.Words.{length-le_bytes}
use offline_bearer_protocol.Constants.{coin_magic}
use offline_bearer_protocol.Coinfile.{CoinCore, coin_core_size, copy_all, encode_coin_core}
use offline_bearer_protocol.Coinfile.Encoding.{
  Fits, head_parts, body, copy_all-offset, length-flatten-take, copy_all-Starts,
}
use offline_bearer_protocol.Prelude.{
  ℕ, ◌+◌, ◌-◌, ◌*◌, ◌++◌, map, length, take, flatten, ok, ◌≡◌, false, ==_iff, refl, sym, ap, ◌∙◌,
  arith, append_assoc, append-nil, length-append, take-append, ltb,
}

module _ (sha256 : Buffer → Buffer) (digest_32 : (b : Buffer) → length (sha256 b) ≡ 32)
    (c : CoinCore) (f : Fits c) where
  room : ℕ
  room = length c.states * 104 + (length c.sigs * 64 + 32)

  file0 : Buffer
  file0 = copy coin_magic (alloc (coin_core_size (length c.states))) 0

  file1 : Buffer
  file1 = copy (le_bytes 2 1) file0 4

  file2 : Buffer
  file2 = copy (le_bytes 1 c.sig_scheme) file1 6

  file3 : Buffer
  file3 = copy (le_bytes 2 (length c.states)) file2 7

  file4 : Buffer
  file4 = copy (le_bytes 8 c.value) (copy c.serial file3 9) 41

  start0 : Starts coin_magic (45 + room) file0
  unfolding room file0
  start0 =
      Starts-put (Starts-alloc _) _ 0 coin_magic refl (omega (arith, f.some_state, f.sig_count))

  start1 : Starts (coin_magic ++ le_bytes 2 1) (43 + room) file1
  unfolding file1
  start1 = Starts-write start0 2 1 _ 4 refl (omega arith)

  length1 : length (coin_magic ++ le_bytes 2 1) ≡ 6
  length1 = omega (arith, length-append coin_magic (le_bytes 2 1), length-le_bytes 2 1)

  start2 : Starts ((coin_magic ++ le_bytes 2 1) ++ le_bytes 1 c.sig_scheme) (42 + room) file2
  unfolding file2
  start2 = Starts-write start1 1 c.sig_scheme _ 6 (sym length1) (omega arith)

  length2 : length ((coin_magic ++ le_bytes 2 1) ++ le_bytes 1 c.sig_scheme) ≡ 7
  length2 = omega (
    arith,
    length1,
    length-append (coin_magic ++ le_bytes 2 1) (le_bytes 1 c.sig_scheme),
    length-le_bytes 1 c.sig_scheme,
  )

  front3 : Buffer
  front3 = ((coin_magic ++ le_bytes 2 1) ++ le_bytes 1 c.sig_scheme) ++ le_bytes 2 (length c.states)

  start3 : Starts front3 (40 + room) file3
  unfolding file3 front3
  start3 = Starts-write start2 2 (length c.states) _ 7 (sym length2) (omega arith)

  length3 : length front3 ≡ 9
  unfolding front3
  length3 = omega (
    arith,
    length2,
    length-append ((coin_magic ++ le_bytes 2 1) ++ le_bytes 1 c.sig_scheme)
        (le_bytes 2 (length c.states)),
    length-le_bytes 2 (length c.states),
  )

  serial_put : Starts (front3 ++ c.serial) (8 + room) (copy c.serial file3 9)
  serial_put = Starts-put start3 _ 9 c.serial (sym length3) (omega (arith, f.serial_32))

  serial_end : 41 ≡ length (front3 ++ c.serial)
  serial_end = omega (arith, length3, f.serial_32, length-append front3 c.serial)

  head_joined : (front3 ++ c.serial) ++ le_bytes 8 c.value ≡ flatten (head_parts c)
  unfolding front3
  head_joined = simp (append_assoc, append-nil)

  start4 : Starts (flatten (head_parts c)) room file4
  unfolding file4
  start4 = rw head_joined at (Starts-write serial_put 8 c.value room 41 serial_end (omega arith))

  length4 : 49 ≡ length (flatten (head_parts c))
  length4 =
      omega (
        arith,
        serial_end,
        length-append (front3 ++ c.serial) (le_bytes 8 c.value),
        length-le_bytes 8 c.value,
      )
      ∙ ap length head_joined

  file5 : Buffer
  file5 = (copy_all 104 c.states file4 49).0

  start5 :
      Starts
        (flatten (head_parts c) ++ flatten (map (take 104) c.states))
        (length c.sigs * 64 + 32)
        file5
  unfolding file5 room
  start5 = copy_all-Starts 104 _ 49 c.states start4 length4 f.states_104 (omega arith)

  states_end :
      49 + length c.states * 104
      ≡ length (flatten (head_parts c) ++ flatten (map (take 104) c.states))
  states_end = omega (
    arith,
    length4,
    length-append (flatten (head_parts c)) (flatten (map (take 104) c.states)),
    length-flatten-take 104 c.states f.states_104,
  )

  file6 : Buffer
  file6 = (copy_all 64 c.sigs file5 (49 + length c.states * 104)).0

  start6 : Starts (body c) 32 file6
  unfolding file6 body
  start6 = rw append_assoc at (copy_all-Starts 64 32 _ c.sigs start5 states_end f.sigs_64 refl)

  body_end : 49 + length c.states * 104 + length c.sigs * 64 ≡ length (body c)
  unfolding body
  body_end = omega (
    arith,
    length4,
    length-append (flatten (head_parts c))
        (flatten (map (take 104) c.states) ++ flatten (map (take 64) c.sigs)),
    length-append (flatten (map (take 104) c.states)) (flatten (map (take 64) c.sigs)),
    length-flatten-take 104 c.states f.states_104,
    length-flatten-take 64 c.sigs f.sigs_64,
  )

  sealed :
      (o : ℕ)
      → o ≡ 49 + length c.states * 104 + length c.sigs * 64
      → copy (sha256 (subarray file6 0 o)) file6 o ≡ body c ++ sha256 (body c)
  sealed o h =
      let front : subarray file6 0 o ≡ body c =
        ap (λ b. subarray b 0 o) start6.is
        ∙ take-append (o - 0) (body c) start6.rest (omega (arith, body_end)) in
      rw front (
        Starts-full (
          Starts-put start6 0 o (sha256 (body c)) (omega (arith, body_end))
            (omega (arith, digest_32 (body c)))))

  -- The states and signatures as the loops leave them, and the checksum behind them.
  checksummed :
      (let (b5, o) = copy_all 104 c.states file4 49 in
        let (b6, o') = copy_all 64 c.sigs b5 o in copy (sha256 (subarray b6 0 o')) b6 o')
      ≡ body c ++ sha256 (body c)
  unfolding file5 file6
  checksummed =
      rw (copy_all-offset 104 c.states file4 49) (sealed _ (copy_all-offset 64 c.sigs file5 _))

  -- `encodeCoinCore` writes the header, the states and signatures, each cut to its size, and the
  -- hash of all of that.
  pub encode_coin_core-eq : encode_coin_core sha256 c ≡ ok (body c ++ sha256 (body c))
  unfolding encode_coin_core file0 file1 file2 file3 file4
  encode_coin_core-eq =
      let some : ltb (length c.states) 1 ≡ false = ground (arith, f.some_state) in
      let count = (==_iff (length c.sigs) (length c.states - 1)).1 f.sig_count in
      let e1 = write_uint-Starts start0 2 1 (43 + room) 4 refl (omega arith) (omega arith) in
      let e2 =
        write_uint-Starts start1 1 c.sig_scheme (42 + room) 6 (sym length1) (omega arith)
          f.scheme_u8 in
      let e3 =
        write_uint-Starts start2 2 (length c.states) (40 + room) 7 (sym length2) (omega arith)
          f.count_u16 in
      let e4 =
        write_uint-Starts serial_put 8 c.value room 41 serial_end (omega arith) f.value_u64 in
      rw (some, count, f.serial_32, e1, e2, e3, e4) (ap ok checksummed)
