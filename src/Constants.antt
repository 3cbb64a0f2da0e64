-- ===== src/Constants.antt =====
-- sdk/src/constants.ts.
pub mod SigScheme
use offline_bearer_protocol.Buffer.{Buffer}
use offline_bearer_protocol.Prelude.{ℕ, [], ◌∷◌}

abbrev pub state_length : ℕ
state_length = 104

abbrev pub sig_length : ℕ
sig_length = 64

abbrev pub serial_length : ℕ
serial_length = 32

abbrev pub max_links_per_precompile : ℕ
max_links_per_precompile = 12

-- "OBC1" and "OBE1"
abbrev pub coin_magic : Buffer
coin_magic = b'O' ∷ b'B' ∷ b'C' ∷ b'1' ∷ []

abbrev pub coin_encrypted_magic : Buffer
coin_encrypted_magic = b'O' ∷ b'B' ∷ b'E' ∷ b'1' ∷ []

abbrev pub coinfile_version : ℕ
coinfile_version = 1
