-- ===== src/Wrapper/RoundTrip.antt =====
-- The encrypted coin file of sdk/src/wrapper.ts is read back as it was written.
use offline_bearer_protocol.Buffer.{Buffer, alloc, copy, subarray, le_bytes, read_uint}
use offline_bearer_protocol.Buffer.Cuts.{equals_refl}
use offline_bearer_protocol.Buffer.Fill.{
  Starts, Starts-alloc, Starts-put, Starts-write, Starts-full, write_uint-Starts, length-flatten,
  subarray-part, read_uint-part,
}
use offline_bearer_protocol.Buffer.Words.{length-le_bytes, of_le-le_bytes}
use offline_bearer_protocol.Constants.{coin_encrypted_magic}
use offline_bearer_protocol.Errors.{key_hint_mismatch}
use offline_bearer_protocol.Wrapper.{
  Cipher, EncryptedCoinFile, aad, serialize_encrypted, encrypt_coin_file, parse_encrypted,
  decrypt_coin_file,
}
use offline_bearer_protocol.Prelude.{
  ℕ, ◌+◌, ◌^◌, ◌<◌, List, [], ◌∷◌, ◌++◌, ◌≡◌, ◌≢◌, refl, sym, ap, ◌∙◌, length, flatten,
  length-append, append_assoc, append-nil, ok, err, some, ◌>>=◌, ==_iff, ne→==-false, arith,
}

pub record IsEncrypted (e : EncryptedCoinFile) : Type 0 where
  pub hint_u8 : e.key_hint < 256 ^ 1
  pub nonce_12 : length e.nonce ≡ 12
  pub size_u32 : length e.ciphertext < 256 ^ 4
  pub tag_16 : length e.tag ≡ 16

abbrev wrapper_parts : EncryptedCoinFile → List Buffer
wrapper_parts e =
    coin_encrypted_magic
    ∷ le_bytes 2 1
    ∷ le_bytes 1 e.key_hint
    ∷ e.nonce
    ∷ le_bytes 4 (length e.ciphertext)
    ∷ e.ciphertext
    ∷ e.tag
    ∷ []

pub wrapper_bytes : EncryptedCoinFile → Buffer
wrapper_bytes e = flatten (wrapper_parts e)

module _ (e : EncryptedCoinFile) (v : IsEncrypted e) where
  out0 : Buffer
  out0 = copy coin_encrypted_magic (alloc (4 + 2 + 1 + 12 + 4 + length e.ciphertext + 16)) 0

  out1 : Buffer
  out1 = copy (le_bytes 2 1) out0 4

  out2 : Buffer
  out2 = copy (le_bytes 1 e.key_hint) out1 6

  out3 : Buffer
  out3 = copy (le_bytes 4 (length e.ciphertext)) (copy e.nonce out2 7) 19

  le_2 : length (le_bytes 2 1) ≡ 2
  le_2 = length-le_bytes 2 1

  le_1 : length (le_bytes 1 e.key_hint) ≡ 1
  le_1 = length-le_bytes 1 e.key_hint

  le_4 : length (le_bytes 4 (length e.ciphertext)) ≡ 4
  le_4 = length-le_bytes 4 (length e.ciphertext)

  start0 : Starts coin_encrypted_magic (35 + length e.ciphertext) out0
  unfolding out0
  start0 = Starts-put (Starts-alloc _) _ 0 coin_encrypted_magic refl (omega arith)

  start1 : Starts (coin_encrypted_magic ++ le_bytes 2 1) (33 + length e.ciphertext) out1
  unfolding out1
  start1 = Starts-write start0 2 1 _ 4 refl (omega arith)

  end1 : 6 ≡ length (coin_encrypted_magic ++ le_bytes 2 1)
  end1 = omega (arith, le_2, length-append coin_encrypted_magic (le_bytes 2 1))

  front2 : Buffer
  front2 = (coin_encrypted_magic ++ le_bytes 2 1) ++ le_bytes 1 e.key_hint

  start2 : Starts front2 (32 + length e.ciphertext) out2
  unfolding out2 front2
  start2 = Starts-write start1 1 e.key_hint _ 6 end1 (omega arith)

  end2 : 7 ≡ length front2
  unfolding front2
  end2 = omega (
    arith,
    end1,
    le_1,
    length-append (coin_encrypted_magic ++ le_bytes 2 1) (le_bytes 1 e.key_hint),
  )

  nonce_put : Starts (front2 ++ e.nonce) (20 + length e.ciphertext) (copy e.nonce out2 7)
  nonce_put = Starts-put start2 _ 7 e.nonce end2 (omega (arith, v.nonce_12))

  end_nonce : 19 ≡ length (front2 ++ e.nonce)
  end_nonce = omega (arith, end2, v.nonce_12, length-append front2 e.nonce)

  front3 : Buffer
  front3 = (front2 ++ e.nonce) ++ le_bytes 4 (length e.ciphertext)

  start3 : Starts front3 (16 + length e.ciphertext) out3
  unfolding out3 front3
  start3 = Starts-write nonce_put 4 (length e.ciphertext) _ 19 end_nonce (omega arith)

  end3 : 23 ≡ length front3
  unfolding front3
  end3 =
      omega (
        arith,
        end_nonce,
        le_4,
        length-append (front2 ++ e.nonce) (le_bytes 4 (length e.ciphertext)),
      )

  all_put : copy e.tag (copy e.ciphertext out3 23) (23 + length e.ciphertext) ≡ wrapper_bytes e
  unfolding wrapper_bytes
  all_put =
      let ciphertext_put = Starts-put start3 16 23 e.ciphertext end3 (omega arith) in
      let ends : 23 + length e.ciphertext ≡ length (front3 ++ e.ciphertext) =
        omega (arith, end3, length-append front3 e.ciphertext) in
      Starts-full (Starts-put ciphertext_put 0 _ e.tag ends (omega (arith, v.tag_16)))
      ∙ (unfold front3 front2 in simp (append_assoc, append-nil))

  pub serialize_encrypted-eq : serialize_encrypted e ≡ ok (wrapper_bytes e)
  unfolding serialize_encrypted out0 out1 out2 out3
  serialize_encrypted-eq =
      let e1 =
        write_uint-Starts start0 2 1 (33 + length e.ciphertext) 4 refl (omega arith)
          (omega arith) in
      let e2 =
        write_uint-Starts start1 1 e.key_hint (32 + length e.ciphertext) 6 end1 (omega arith)
          v.hint_u8 in
      let e3 =
        write_uint-Starts nonce_put 4 (length e.ciphertext) (16 + length e.ciphertext) 19 end_nonce
          (omega arith) v.size_u32 in
      rw (e1, e2, e3) (ap ok all_put)

  pub parse_encrypted-eq : parse_encrypted (wrapper_bytes e) ≡ ok e
  unfolding parse_encrypted wrapper_bytes
  parse_encrypted-eq =
      let ps = wrapper_parts e in
      let version : read_uint 2 4 (flatten ps) ≡ ok 1 =
        read_uint-part ps 1 2 4 refl refl (sym le_2) ∙ ap ok (of_le-le_bytes 2 1 (omega arith)) in
      let hint : read_uint 1 6 (flatten ps) ≡ ok e.key_hint =
        read_uint-part ps 2 1 6 refl (omega (arith, le_2)) (sym le_1)
        ∙ ap ok (of_le-le_bytes 1 e.key_hint v.hint_u8) in
      let nonce : subarray (flatten ps) 7 19 ≡ e.nonce =
        subarray-part ps 3 7 19 refl (omega (arith, le_2, le_1)) (omega (arith, v.nonce_12)) in
      let size : read_uint 4 19 (flatten ps) ≡ ok (length e.ciphertext) =
        read_uint-part ps 4 4 19 refl (omega (arith, le_2, le_1, v.nonce_12)) (sym le_4)
        ∙ ap ok (of_le-le_bytes 4 (length e.ciphertext) v.size_u32) in
      let ciphertext : subarray (flatten ps) 23 (23 + length e.ciphertext) ≡ e.ciphertext =
        subarray-part ps 5 23 _ refl (omega (arith, le_2, le_1, v.nonce_12, le_4)) refl in
      let tag : subarray (flatten ps) (23 + length e.ciphertext) (23 + length e.ciphertext + 16)
          ≡ e.tag =
        subarray-part ps 6 _ _ refl (omega (arith, le_2, le_1, v.nonce_12, le_4))
          (omega (arith, v.tag_16)) in
      let whole =
        (==_iff (length (flatten ps)) (23 + length e.ciphertext + 16)).1
          (length-flatten ps ∙ omega (arith, le_2, le_1, v.nonce_12, le_4, v.tag_16)) in
      rw (version, equals_refl coin_encrypted_magic, hint, size, whole, nonce, ciphertext, tag)

-- Of an encrypted file whose hint fits a byte, whose nonce has 12 bytes, whose tag has 16 and
-- whose ciphertext is shorter than 4 GB, `parseEncrypted` reads back what `serializeEncrypted` wrote.
pub parse-serialize :
    (e : EncryptedCoinFile) → IsEncrypted e → (serialize_encrypted e >>= parse_encrypted) ≡ ok e
parse-serialize e v = rw (serialize_encrypted-eq e v) (parse_encrypted-eq e v)

-- What node:crypto promises of AES-256-GCM, for a key of 32 and a nonce of 12 bytes.
pub record IsAead (cipher : Cipher) : Type 0 where
  pub keeps_size : (k n a p : Buffer) → length (cipher.encrypt k n a p).0 ≡ length p
  pub tag_16 : (k n a p : Buffer) → length (cipher.encrypt k n a p).1 ≡ 16
  pub opens :
      (k n a p : Buffer)
      → length k ≡ 32
      → length n ≡ 12
      → cipher.decrypt k n a (cipher.encrypt k n a p).0 (cipher.encrypt k n a p).1 ≡ some p

module _ (cipher : Cipher) (aead : IsAead cipher) (nonce plain key : Buffer) (hint : ℕ)
    (key_32 : length key ≡ 32) (nonce_12 : length nonce ≡ 12) (size : length plain < 256 ^ 4)
    (hint_u8 : hint < 256 ^ 1) where
  -- With a cipher that opens what it sealed, encrypting and serializing a coin file of less than
  -- 4 GB with a key of 32 bytes succeeds, and decrypting the result with the same key gives the
  -- coin file under the same hint, and fails under any other.
  pub decrypt-encrypt :
      (other : ℕ)
      → other ≢ hint
      → (b : Buffer) × ((encrypt_coin_file cipher nonce plain key hint >>= serialize_encrypted)
          ≡ ok b)
        × (decrypt_coin_file cipher b key hint ≡ ok plain)
        × (decrypt_coin_file cipher b key other ≡ err key_hint_mismatch)
  unfolding encrypt_coin_file decrypt_coin_file
  decrypt-encrypt other differs =
      let sealed = cipher.encrypt key nonce aad plain in
      let e : EncryptedCoinFile = record {
        key_hint = hint;
        nonce = nonce;
        ciphertext = sealed.0;
        tag = sealed.1;
      } in
      let v : IsEncrypted e = record {
        hint_u8 = hint_u8;
        nonce_12 = nonce_12;
        size_u32 = omega (arith, aead.keeps_size key nonce aad plain, size);
        tag_16 = aead.tag_16 key nonce aad plain;
      } in
      (
        wrapper_bytes e,
        rw (key_32, serialize_encrypted-eq e v) (serialize_encrypted-eq e v),
        rw (
          parse_encrypted-eq e v,
          (==_iff hint hint).1 refl,
          aead.opens key nonce aad plain key_32 nonce_12,
        ),
        rw (parse_encrypted-eq e v, ne→==-false hint other (λ same. differs (sym same))),
      )
