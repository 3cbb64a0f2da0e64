-- ===== src/Constants/SigScheme.antt =====
-- The signature schemes of sdk/src/constants.ts.
use offline_bearer_protocol.Prelude.{ℕ}

abbrev pub ed25519 : ℕ
ed25519 = 0

abbrev pub mldsa44 : ℕ
mldsa44 = 1

abbrev pub slhdsa128f : ℕ
slhdsa128f = 2
