-- ===== src/Program/Status.antt =====
-- The status bytes of programs/obp-core/src/state.rs.
use offline_bearer_protocol.Prelude.{ℕ}

abbrev pub active : ℕ
active = 0

abbrev pub spent : ℕ
spent = 1

abbrev pub receiving : ℕ
receiving = 0

abbrev pub pending : ℕ
pending = 2

abbrev pub rejected : ℕ
rejected = 4

abbrev pub won : ℕ
won = 5

abbrev pub lost : ℕ
lost = 6
