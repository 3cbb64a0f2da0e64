-- ===== src/Program/World/Live.antt =====
-- A check-in that holds the head can be settled, by `settle` of
-- programs/obp-core/src/instructions/checkin.rs.
use offline_bearer_protocol.Buffer.{Buffer}
use offline_bearer_protocol.Program.Context.{Context}
use offline_bearer_protocol.Program.Mint.{World}
