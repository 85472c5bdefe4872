-- ===== src/Ring.antt =====
-- lib/ring: the hash ring, a red-black tree of replica points.
pub mod Sorted
pub mod SortedItems
pub mod RbTree
pub mod Points
pub mod HashRing
