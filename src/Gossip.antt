-- ===== src/Gossip.antt =====
-- lib/gossip: the timed transitions of member statuses, the dissemination of changes and the damper.
pub mod StateTransitions
pub mod Transitions
pub mod Dissemination
pub mod Damper
pub mod PingReq
pub mod Periods
