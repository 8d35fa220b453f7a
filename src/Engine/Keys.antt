-- ===== src/Engine/Keys.antt =====
-- The keys of internal/engine/redis_store.go.
pub mod Distinct
use auctioneer.Base.{◌++◌}
use auctioneer.Text.{Bytes, codes}

pub state_key : Bytes → Bytes
state_key auction_id = codes "auc:{" ++ (auction_id ++ codes "}:state")

pub idem_key : Bytes → Bytes
idem_key auction_id = codes "auc:{" ++ (auction_id ++ codes "}:idem")

unfoldable pub events_key : Bytes → Bytes
events_key auction_id = codes "auc:{" ++ (auction_id ++ codes "}:events")
