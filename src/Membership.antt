-- ===== src/Membership.antt =====
-- lib/membership/index.js and merge.js: the member list of a node.
pub mod Events
pub mod State
pub mod Checksum
pub mod Merge
pub mod Update
pub mod Local
pub mod Consistency
pub mod Keeps
pub mod View
pub mod Rollup
pub mod Refinement
pub mod Convergence
pub mod Agreement
pub mod Lifecycle
pub mod Stash
