-- ===== src/Rpc.antt =====
-- The indexer's and the SDK's reading of a Soroban RPC server. The server itself is a parameter.
pub mod Contradiction
pub mod Errors
pub mod Paging
pub mod Retry
mod Tests
use circleup.Prelude.{ℕ, String, Option}

-- What the pagination reads of an event.
pub record RpcEvent : Type 0 where
  pub ledger : ℕ
  pub id : Option String
  pub paging_token : Option String
