-- ===== src/Wrapper.antt =====
-- sdk/src/wrapper.ts: the encrypted coin file. AES-256-GCM of node:crypto is a parameter, and so
-- is the nonce that `randomBytes` draws.
pub mod RoundTrip
use offline_bearer_protocol.Buffer.{Buffer, alloc, copy, equals, subarray, write_uint, read_uint}
use offline_bearer_protocol.Constants.{coin_encrypted_magic, coinfile_version}
use offline_bearer_protocol.Errors.{
  Error, foreign_error, key_size, encrypted_magic, encrypted_version, encrypted_size,
  key_hint_mismatch,
}
use offline_bearer_protocol.Prelude.{
  ℕ, ◌+◌, [], ◌∷◌, length, Option, none, some, Result, ok, err, guard, ◌>>=◌, ◌>>◌, ◌==◌,
}

-- `encrypt key nonce aad plain` is the ciphertext and the tag of 16 bytes, and
-- `decrypt key nonce aad ciphertext tag` is the plain text, or `none` where a call throws.
pub record Cipher : Type 0 where
  pub encrypt : Buffer → Buffer → Buffer → Buffer → Buffer × Buffer
  pub decrypt : Buffer → Buffer → Buffer → Buffer → Buffer → Option Buffer

pub record EncryptedCoinFile : Type 0 where
  pub key_hint : ℕ
  pub nonce : Buffer
  pub ciphertext : Buffer
  pub tag : Buffer

-- 'OBP-COINFILE-V1'
abbrev pub aad : Buffer
aad =
    b'O' ∷ b'B' ∷ b'P' ∷ b'-' ∷ b'C' ∷ b'O' ∷ b'I' ∷ b'N' ∷ b'F' ∷ b'I' ∷ b'L' ∷ b'E' ∷ b'-' ∷ b'V'
    ∷ b'1' ∷ []

unfoldable pub serialize_encrypted : EncryptedCoinFile → Result Error Buffer
serialize_encrypted e = do
  let out = alloc (4 + 2 + 1 + 12 + 4 + length e.ciphertext + 16)
  o1 ← write_uint 2 coinfile_version 4 (copy coin_encrypted_magic out 0)
  o2 ← write_uint 1 e.key_hint 6 o1
  o3 ← write_uint 4 (length e.ciphertext) 19 (copy e.nonce o2 7)
  ok (copy e.tag (copy e.ciphertext o3 23) (23 + length e.ciphertext))

-- It fills a buffer by the same writes as `serializeEncrypted`, and drops it: they can only throw.
unfoldable pub encrypt_coin_file :
    Cipher → Buffer → Buffer → Buffer → ℕ → Result Error EncryptedCoinFile
unfolding serialize_encrypted
encrypt_coin_file cipher nonce plain_core key key_hint = do
  guard (length key == 32) key_size
  let (ciphertext, tag) = cipher.encrypt key nonce aad plain_core
  let e : EncryptedCoinFile = record {
    key_hint = key_hint;
    nonce = nonce;
    ciphertext = ciphertext;
    tag = tag;
  }
  out ← serialize_encrypted e
  ok e

unfoldable pub parse_encrypted : Buffer → Result Error EncryptedCoinFile
parse_encrypted b = do
  guard (equals coin_encrypted_magic (subarray b 0 4)) encrypted_magic
  version ← read_uint 2 4 b
  guard (version == coinfile_version) encrypted_version
  key_hint ← read_uint 1 6 b
  ct_len ← read_uint 4 19 b
  guard (length b == 23 + ct_len + 16) encrypted_size
  ok (record {
    key_hint = key_hint;
    nonce = subarray b 7 19;
    ciphertext = subarray b 23 (23 + ct_len);
    tag = subarray b (23 + ct_len) (23 + ct_len + 16);
  })

unfoldable pub decrypt_coin_file : Cipher → Buffer → Buffer → ℕ → Result Error Buffer
unfolding parse_encrypted
decrypt_coin_file cipher buf key key_hint = do
  e ← parse_encrypted buf
  guard (e.key_hint == key_hint) key_hint_mismatch
  elim (cipher.decrypt key e.nonce aad e.ciphertext e.tag) [
    | none ↦ err foreign_error
    | some plain ↦ ok plain
  ]
