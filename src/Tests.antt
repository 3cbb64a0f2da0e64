-- ===== src/Tests.antt =====
-- Test data: a hash function, a signature scheme and a cipher that compute, and small coins.
mod Layout
mod Chain
mod Files
mod Accounts
mod Network
mod Checkin
mod Ledger
mod Run
mod Program
use offline_bearer_protocol.Buffer.{Buffer, IsByte, le_bytes, of_le, equals}
use offline_bearer_protocol.Buffer.Cuts.{equals_refl}
use offline_bearer_protocol.Buffer.Words.{length-le_bytes, le_bytes-IsByte}
use offline_bearer_protocol.Coin.{Curve, Signer}
use offline_bearer_protocol.Coinfile.{CoinCore}
use offline_bearer_protocol.Layout.{CoinState}
use offline_bearer_protocol.Prelude.{
  ℕ, zero, suc, arith, All-append, ◌+◌, ◌*◌, ◌%◌, ◌^◌, List, [], ◌∷◌, ◌++◌, ◌≡◌, refl, All, length,
  replicate, Option, some, ok, ap, true,
}
use offline_bearer_protocol.Solana.{Solana}

-- Not a good hash function, but one of 32 bytes that tells the test data apart.
abbrev pub toy_hash : Buffer → Buffer
toy_hash b = le_bytes 32 (of_le b * 31 + 7)

pub length-toy_hash : (b : Buffer) → length (toy_hash b) ≡ 32
length-toy_hash b = length-le_bytes 32 (of_le b * 31 + 7)

pub toy_hash-IsByte : (b : Buffer) → All IsByte (toy_hash b)
toy_hash-IsByte b = le_bytes-IsByte 32 (of_le b * 31 + 7)

-- A key signs by setting itself behind the message.
abbrev pub toy_curve : Curve
toy_curve = record {
  sign = λ message key. message ++ key;
  verify = λ sig message key. some (equals sig (message ++ key));
}

abbrev pub toy_signer : Buffer → Signer
toy_signer key = record { sign = λ message. ok (message ++ key) }

abbrev pub serial_7 : Buffer
serial_7 = replicate 32 7

abbrev pub alice : Buffer
alice = replicate 32 1

abbrev pub bob : Buffer
bob = replicate 32 2

pub bytes_of : (k b : ℕ) → IsByte b → All IsByte (replicate k b)
bytes_of zero b h = tt
bytes_of (suc k) b h = (h, bytes_of k b h)

abbrev pub toy_state : Buffer
toy_state = serial_7 ++ ((5 ∷ replicate 7 0) ++ (alice ++ replicate 32 0))

pub toy_state-IsByte : All IsByte toy_state
toy_state-IsByte =
    All-append IsByte serial_7 ((5 ∷ replicate 7 0) ++ (alice ++ replicate 32 0))
      (bytes_of 32 7 (omega arith))
      (All-append IsByte (5 ∷ replicate 7 0) (alice ++ replicate 32 0)
        (omega arith, bytes_of 7 0 (omega arith))
        (All-append IsByte alice (replicate 32 0) (bytes_of 32 1 (omega arith))
          (bytes_of 32 0 (omega arith))))

abbrev pub toy_fields : CoinState
toy_fields = record { serial = serial_7; value = 5; owner = alice; prev_hash = replicate 32 0 }

-- A coin of value 5 that Alice holds.
abbrev pub toy_coin : CoinCore
toy_coin = record {
  serial = serial_7;
  value = 5;
  states = toy_state ∷ [];
  sigs = [];
  sig_scheme = 0;
}

-- Program addresses are the seeds put together.
abbrev pub toy_net : Solana
toy_net = record {
  program_id = replicate 32 11;
  ed25519_precompile_id = replicate 32 12;
  token_program_id = replicate 32 13;
  system_program_id = replicate 32 0;
  find_program_address = λ seeds program. (program, 255);
  associated_token_address = λ mint owner. mint ++ owner;
  create_account = λ payer account lamports space owner. record {
    program = replicate 32 0;
    keys = [];
    content = owner;
  };
  assign = λ account owner. record { program = replicate 32 0; keys = []; content = owner };
}
