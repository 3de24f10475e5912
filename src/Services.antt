-- ===== src/Services.antt =====
-- The services that the code calls and does not implement: the MongoDB collection of jobs and the
-- Redis sorted sets. Each is a record of operations with the documented behaviour as laws, and the
-- development takes both as parameters. `Memory` shows that the laws can be met.
pub mod Mongo
pub mod Redis
pub mod World
pub mod Updates
pub mod Loops
pub mod Memory
use Mongo.{JobCollection}
use Redis.{SortedSets}

pub record Services : Type 1 where
  pub collection : JobCollection
  pub open collection use *
  pub sorted_sets : SortedSets
  pub open sorted_sets use *
