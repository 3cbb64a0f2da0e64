-- ===== src/Pq.antt =====
-- sdk/src/pq.ts: ML-DSA-44 for the SDK. The package mldsa-wasm is a parameter, keys being of a type of
-- its own; generating a key pair is left to it.
use offline_bearer_protocol.Buffer.{Buffer}
use offline_bearer_protocol.Errors.{Error, public_key_size}
use offline_bearer_protocol.Prelude.{
  ℕ, length, Result, ok, guard, Bool, false, ◌>>=◌, ◌>>◌, ◌==◌, if◌then◌else◌,
}

abbrev mldsa44_pk_length : ℕ
mldsa44_pk_length = 1312

abbrev mldsa44_sig_length : ℕ
mldsa44_sig_length = 2420

record MlDsa (PublicKey PrivateKey : Type 0) : Type 0 where
  import_key : Buffer → Result Error PublicKey
  export_key : PublicKey → Result Error Buffer
  sign : PrivateKey → Buffer → Result Error Buffer
  verify : PublicKey → Buffer → Buffer → Result Error Bool

record KeyPair (PublicKey PrivateKey : Type 0) : Type 0 where
  public_key : PublicKey
  private_key : PrivateKey

-- `MlDsaVerifier`; the imported key is only kept to save the second import
record MlDsaVerifier : Type 0 where
  raw_pk : Buffer

unfoldable new_verifier : Buffer → Result Error MlDsaVerifier
new_verifier raw_pk = do
  guard (length raw_pk == mldsa44_pk_length) public_key_size
  ok (record { raw_pk = raw_pk })

module _ {PublicKey PrivateKey : Type 0} (mldsa : MlDsa PublicKey PrivateKey) where
  unfoldable verify_pk : Buffer → Buffer → Buffer → Result Error Bool
  verify_pk raw_pk msg sig =
      if length sig == mldsa44_sig_length
      then (mldsa.import_key raw_pk >>= λ k. mldsa.verify k sig msg)
      else ok false

  unfoldable verifier_verify : MlDsaVerifier → Buffer → Buffer → Result Error Bool
  verifier_verify verifier msg sig =
      if length sig == mldsa44_sig_length
      then (mldsa.import_key verifier.raw_pk >>= λ k. mldsa.verify k sig msg)
      else ok false

  unfoldable signer_sign : KeyPair PublicKey PrivateKey → Buffer → Result Error Buffer
  signer_sign kp msg = mldsa.sign kp.private_key msg

  unfoldable signer_verify : KeyPair PublicKey PrivateKey → Buffer → Buffer → Result Error Bool
  signer_verify kp msg sig =
      if length sig == mldsa44_sig_length then mldsa.verify kp.public_key sig msg else ok false

  unfoldable raw_public_key : KeyPair PublicKey PrivateKey → Result Error Buffer
  raw_public_key kp = mldsa.export_key kp.public_key
