-- ===== src/Precompile/RoundTrip.antt =====
-- The bytes of the precompile's instruction of sdk/src/precompile.ts.
use offline_bearer_protocol.Buffer.{Buffer, alloc, copy, le_bytes, write_uint}
use offline_bearer_protocol.Buffer.Fill.{
  Starts, Starts-alloc, Starts-write, Starts-full, write_uint-Starts,
}
use offline_bearer_protocol.Buffer.Words.{length-le_bytes}
use offline_bearer_protocol.Errors.{Error}
use offline_bearer_protocol.Precompile.{
  OffsetRecord, write_record, write_records, ed25519_verify_ix,
}
use offline_bearer_protocol.Prelude.{
  ℕ, ◌+◌, ◌*◌, ◌^◌, ◌<◌, ◌≤◌, List, [], ◌∷◌, ◌++◌, ◌≡◌, refl, sym, ap, ◌∙◌, subst, length, map,
  flatten, All, Result, ok, ◌>>=◌, ltb, false, ne→==-false, arith, append_assoc, append-nil,
  length-append,
}
use offline_bearer_protocol.Solana.{Solana}

-- Every offset, index and size fits 16 bits.
pub record IsU16 (r : OffsetRecord) : Type 0 where
  pub sig_off_u16 : r.sig_off < 256 ^ 2
  pub sig_ix_u16 : r.sig_ix < 256 ^ 2
  pub pub_off_u16 : r.pub_off < 256 ^ 2
  pub pub_ix_u16 : r.pub_ix < 256 ^ 2
  pub msg_off_u16 : r.msg_off < 256 ^ 2
  pub msg_size_u16 : r.msg_size < 256 ^ 2
  pub msg_ix_u16 : r.msg_ix < 256 ^ 2

-- `Ed25519SignatureOffsets`: seven numbers of 16 bits.
pub record_bytes : OffsetRecord → Buffer
record_bytes r =
    le_bytes 2 r.sig_off
    ++ (le_bytes 2 r.sig_ix
        ++ (le_bytes 2 r.pub_off
            ++ (le_bytes 2 r.pub_ix
                ++ (le_bytes 2 r.msg_off ++ (le_bytes 2 r.msg_size ++ le_bytes 2 r.msg_ix)))))

-- The code succeeds, and leaves a buffer that is filled as far as `front`.
record Fills (front : Buffer) (m : ℕ) (code : Result Error Buffer) : Type 0 where
  next : Buffer
  written : code ≡ ok next
  filled : Starts front m next

Fills-write :
    (w v at m n : ℕ) (front buf : Buffer)
    → Starts front n buf
    → at ≡ length front
    → n ≡ w + m
    → v < 256 ^ w
    → Fills (front ++ le_bytes w v) m (write_uint w v at buf)
Fills-write w v at m n front buf s hat hm hv = record {
  next = copy (le_bytes w v) buf at;
  written = write_uint-Starts s w v m at hat hm hv;
  filled = Starts-write s w v m at hat hm;
}

-- One write behind what is filled, and the code that goes on from it.
Fills-next :
    (w v at m n last : ℕ) (front buf full : Buffer) (k : Buffer → Result Error Buffer)
    → Starts front n buf
    → at ≡ length front
    → n ≡ w + m
    → v < 256 ^ w
    → ((next : Buffer)
        → Starts (front ++ le_bytes w v) m next
        → at + w ≡ length (front ++ le_bytes w v)
        → Fills full last (k next))
    → Fills full last (write_uint w v at buf >>= k)
Fills-next w v at m n last front buf full k s hat hm hv go =
    rw (write_uint-Starts s w v m at hat hm hv) (
      go (copy (le_bytes w v) buf at) (Starts-write s w v m at hat hm)
        (omega (arith, hat, length-append front (le_bytes w v), length-le_bytes w v)))

length-record_bytes : (r : OffsetRecord) → length (record_bytes r) ≡ 14
unfolding record_bytes
length-record_bytes r = simp (length-append, length-le_bytes)

append-record_bytes :
    (front : Buffer) (r : OffsetRecord)
    → (front
        ++ le_bytes 2 r.sig_off
        ++ le_bytes 2 r.sig_ix
        ++ le_bytes 2 r.pub_off
        ++ le_bytes 2 r.pub_ix
        ++ le_bytes 2 r.msg_off
        ++ le_bytes 2 r.msg_size
        ++ le_bytes 2 r.msg_ix)
      ≡ front ++ record_bytes r
unfolding record_bytes
append-record_bytes front r = simp append_assoc

write_record-Fills :
    (r : OffsetRecord) (o m n : ℕ) (front buf : Buffer)
    → IsU16 r
    → Starts front n buf
    → o ≡ length front
    → n ≡ 14 + m
    → Fills (front ++ record_bytes r) m (write_record r o buf)
unfolding write_record
write_record-Fills r o m n front buf u s h hn =
    subst (λ full. Fills full m (write_record r o buf)) (append-record_bytes front r)
      (Fills-next 2 r.sig_off o (12 + m) n m front buf _ _ s h (omega arith) u.sig_off_u16
        λ b1 s1 e1.
          Fills-next 2 r.sig_ix (o + 2) (10 + m) (12 + m) m _ b1 _ _ s1 e1 (omega arith)
            u.sig_ix_u16
            λ b2 s2 e2.
              Fills-next 2 r.pub_off (o + 4) (8 + m) (10 + m) m _ b2 _ _ s2 (omega (arith, e2))
                (omega arith) u.pub_off_u16
                λ b3 s3 e3.
                  Fills-next 2 r.pub_ix (o + 6) (6 + m) (8 + m) m _ b3 _ _ s3 (omega (arith, e3))
                    (omega arith) u.pub_ix_u16
                    λ b4 s4 e4.
                      Fills-next 2 r.msg_off (o + 8) (4 + m) (6 + m) m _ b4 _ _ s4
                        (omega (arith, e4)) (omega arith) u.msg_off_u16
                        λ b5 s5 e5.
                          Fills-next 2 r.msg_size (o + 10) (2 + m) (4 + m) m _ b5 _ _ s5
                            (omega (arith, e5)) (omega arith) u.msg_size_u16
                            λ b6 s6 e6.
                              Fills-write 2 r.msg_ix (o + 12) m (2 + m) _ b6 s6 (omega (arith, e6))
                                (omega arith) u.msg_ix_u16)

write_records-Starts :
    (records : List OffsetRecord) (i n : ℕ) (front buf : Buffer)
    → All IsU16 records
    → Starts front n buf
    → 2 + i * 14 ≡ length front
    → n ≡ length records * 14
    → write_records records i buf ≡ ok (front ++ flatten (map record_bytes records))
unfolding write_records
write_records-Starts [] i n front buf hs s h hn =
    ap ok (Starts-full (rw hn at s) ∙ sym (append-nil front))
write_records-Starts (r ∷ records) i n front buf (u, hs) s h hn =
    let w =
      write_record-Fills r (2 + i * 14) (length records * 14) n front buf u s h (omega arith) in
    ap (λ x. x >>= λ b. write_records records (i + 1) b) w.written
    ∙ write_records-Starts records (i + 1) (length records * 14) (front ++ record_bytes r) w.next hs
        w.filled (omega (arith, h, length-append front (record_bytes r), length-record_bytes r))
        refl
    ∙ ap ok (append_assoc front (record_bytes r) (flatten (map record_bytes records)))

-- From one to twelve records whose numbers fit 16 bits give the content of the precompile's
-- instruction: how many they are, in 16 bits, and then the seven numbers of each, in order.
pub ed25519_verify_ix-eq :
    (net : Solana) (records : List OffsetRecord)
    → 1 ≤ length records
    → length records ≤ 12
    → All IsU16 records
    → ed25519_verify_ix net records
      ≡ ok (record {
        program = net.ed25519_precompile_id;
        keys = [];
        content = le_bytes 2 (length records) ++ flatten (map record_bytes records);
      })
unfolding ed25519_verify_ix
ed25519_verify_ix-eq net records h1 h2 hs =
    let few : ltb 12 (length records) ≡ false = ground arith in
    let b0 = alloc (2 + length records * 14) in
    let s0 = Starts-alloc (2 + length records * 14) in
    let s1 = Starts-write s0 2 (length records) (length records * 14) 0 refl refl in
    rw (
      ne→==-false (length records) 0 (λ e. omega (arith, e)),
      few,
      write_uint-Starts s0 2 (length records) (length records * 14) 0 refl refl (omega arith),
      write_records-Starts records 0 (length records * 14) _ _ hs s1
          (omega (arith, length-le_bytes 2 (length records))) refl,
    )
