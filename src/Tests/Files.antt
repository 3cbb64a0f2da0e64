-- ===== src/Tests/Files.antt =====
-- Tests of the coin file and of the encrypted coin file.
use offline_bearer_protocol.Buffer.{Buffer}
use offline_bearer_protocol.Coinfile.{CoinCore, encode_coin_core, decode_coin_core}
use offline_bearer_protocol.Coinfile.RoundTrip.{decode-encode_coin_core, decode-encode_clipped}
use offline_bearer_protocol.Errors.{key_hint_mismatch}
use offline_bearer_protocol.Prelude.{
  ℕ, [], ◌∷◌, ◌≡◌, ◌≢◌, refl, replicate, some, ok, err, ◌>>=◌, arith,
}
use offline_bearer_protocol.Tests.{toy_hash, length-toy_hash, serial_7, toy_state}
use offline_bearer_protocol.Wrapper.{
  Cipher, EncryptedCoinFile, encrypt_coin_file, decrypt_coin_file, serialize_encrypted,
  parse_encrypted,
}
use offline_bearer_protocol.Wrapper.RoundTrip.{IsAead, parse-serialize, decrypt-encrypt}

-- Two states and one signature.
abbrev two_states : CoinCore
two_states = record {
  serial = serial_7;
  value = 5;
  states = toy_state ∷ toy_state ∷ [];
  sigs = replicate 64 9 ∷ [];
  sig_scheme = 0;
}

decode-encode_coin_core_example :
    (encode_coin_core toy_hash two_states >>= decode_coin_core toy_hash) ≡ ok two_states
decode-encode_coin_core_example =
    decode-encode_coin_core toy_hash length-toy_hash two_states (record {
      some_state = omega arith;
      sig_count = refl;
      serial_32 = refl;
      value_u64 = omega arith;
      scheme_u8 = omega arith;
      count_u16 = omega arith;
      states_104 = (refl, (refl, tt));
      sigs_64 = (refl, tt);
    })

-- A signature of 70 bytes, of which the file keeps 64.
abbrev long_sig : CoinCore
long_sig = record {
  serial = serial_7;
  value = 5;
  states = toy_state ∷ toy_state ∷ [];
  sigs = replicate 70 9 ∷ [];
  sig_scheme = 1;
}

decode-encode_clipped_example :
    (encode_coin_core toy_hash long_sig >>= decode_coin_core toy_hash)
    ≡ ok (record long_sig { sigs = replicate 64 9 ∷ [] })
decode-encode_clipped_example = decode-encode_clipped toy_hash length-toy_hash long_sig (record {
  some_state = omega arith;
  sig_count = refl;
  serial_32 = refl;
  value_u64 = omega arith;
  scheme_u8 = omega arith;
  count_u16 = omega arith;
  states_104 = (omega arith, (omega arith, tt));
  sigs_64 = (omega arith, tt);
})

-- The cipher that leaves its text as it is.
abbrev toy_cipher : Cipher
toy_cipher = record {
  encrypt = λ key nonce extra plain. (plain, replicate 16 3);
  decrypt = λ key nonce extra ciphertext tag. some ciphertext;
}

toy_cipher-IsAead : IsAead toy_cipher
toy_cipher-IsAead = record {
  keeps_size = λ k n a p. refl;
  tag_16 = λ k n a p. refl;
  opens = λ k n a p hk hn. refl;
}

one≢two : ◌≢◌ {A = ℕ} 1 2
one≢two e = omega (arith, e)

decrypt-encrypt_example :
    (b : Buffer) × ((encrypt_coin_file toy_cipher (replicate 12 4) toy_state (replicate 32 8) 2
        >>= serialize_encrypted)
      ≡ ok b)
    × (decrypt_coin_file toy_cipher b (replicate 32 8) 2 ≡ ok toy_state)
    × (decrypt_coin_file toy_cipher b (replicate 32 8) 1 ≡ err key_hint_mismatch)
decrypt-encrypt_example =
    decrypt-encrypt toy_cipher toy_cipher-IsAead (replicate 12 4) toy_state (replicate 32 8) 2 refl
      refl (omega arith) (omega arith) 1 one≢two

abbrev toy_file : EncryptedCoinFile
toy_file = record {
  key_hint = 2;
  nonce = replicate 12 4;
  ciphertext = 5 ∷ 6 ∷ [];
  tag = replicate 16 3;
}

parse-serialize_example : (serialize_encrypted toy_file >>= parse_encrypted) ≡ ok toy_file
parse-serialize_example =
    parse-serialize toy_file
      (record { hint_u8 = omega arith; nonce_12 = refl; size_u32 = omega arith; tag_16 = refl })
