-- ===== src/Lib.antt =====
-- Ringpop: a cluster of nodes that share a member list by gossip and a hash ring built from it.
--
-- A node holds a member list (Membership); every change of it is an `Update` with an incarnation
-- number and a status. `update` decides which changes are news, writes them to the list, and emits
-- `updated`. The handlers pass those updates on: to the timers that turn a suspect member faulty, a
-- faulty one into a tombstone and evict a tombstone (state transitions), to the changes that pings
-- carry to other nodes (dissemination), and to the ring. Members that change too often are damped
-- (damper). Requests and responses run through middlewares.
--
-- Config models config.js: the values that the modelled parts read, and `Env`, what a node takes
--   from outside: its address, the result of the floating-point decay, the logarithm, and the hash
--   of the package farmhash.
-- Member models lib/membership/member.js and update.js: `new_member` is the constructor `Member`,
--   `new_update` is `Update`, `should_process_gossip` is `Member.shouldProcessGossip`. Member/Damping has
--   `applyUpdate` and `decayDampScore`; Member/Precedence the order behind the gossip rule.
-- Membership models lib/membership/index.js, merge.js and lib/gossip/join-response-merge.js. Its
--   members are objects that the array, the index by address and `localMember` share, so the state
--   has a heap of members and those three hold references (Membership/State). Membership/Checksum
--   has the checksum string, Membership/Update the method `update`, Membership/Local the operations
--   on top of it, Membership/Merge the merge of changesets. Consistency, Keeps, Lifecycle and Stash
--   are about the invariant of the list; View is the abstract member list, which Refinement,
--   Convergence and Agreement are about. Rollup is rollup.js.
-- Gossip models lib/gossip: StateTransitions is state_transitions.js and Transitions the callbacks
--   of its timers, Dissemination is dissemination.js, Damper is damper.js with the fan-out of its
--   requests (Damper/Fanout) and the choice of the members to damp (Damper/Scores).
--   PingReq is ping-req-sender.js: PingReq/Answers has what one answer does and PingReq/Decides the verdict.
--   Periods is index.js, the protocol periods, with the timers that are set and the pings and rounds of ping-reqs
--   that await their callbacks, and the tick of server/admin/gossip.js; Periods/Alive is about all runs of it as
--   a step relation.
-- Handlers models lib/on_membership_event.js.
-- Protocol models server/protocol/ping.js and lib/gossip/ping-sender.js, and how a node's parts run together:
--   `update_node` is `update` with the handlers of its events (Handlers), the calls of the ring that these
--   make and `onRingChanged`. Protocol/Delivery is about that, Protocol/Pings about a ping that arrives,
--   Protocol/CatchUp about a full sync. Protocol/Relay is server/protocol/ping-req.js and damp_req.js.
-- PartitionHealing models lib/partition_healing: healer.js, which PartitionHealing/Harmless and Merge are about, and, in
--   Discovery, discover_provider_healer.js. Its loop runs for one round more than there are targets, which
--   is enough, since a round takes a target away (Discovery/Ends); Discovery/Targets has which hosts are targets.
-- Middleware models lib/middleware/stack.js and tombstone.js.
-- Server models server/protocol/join.js and `validateHostPort` of lib/util.js.
-- Ring models lib/ring: RbTree is the red-black tree of rbtree.js, HashRing the ring of index.js and Points
--   its replica points and comparator. The loops of the tree keep the nodes that they passed as a list of
--   frames, nearest first. RbTree/Insert is `insert`, whose references to the grandparent and above are out
--   of date for a round after a rotation, or two after a double one: a repair then would be `none`. It
--   runs for three rounds a level of the tree and three more, which is enough. RbTree/Remove is `remove`,
--   RbTree/Cursor the iterator and the bounds. Sorted and SortedItems have the sorted lists that the
--   tree is compared with, RbTree/Colors the rule of the colors.
-- RequestProxy models lib/request-proxy/send.js: the attempts at a proxied request. `send` runs for one attempt
--   more than there are retries, which is enough, since each retry is counted (RequestProxy/Retries).
--   Inflight is index.js: the checks of a request (Inflight/Owners) and the count of those in flight
--   (Inflight/Bounds).
-- Backoff models lib/backoff.js; a theorem about a caller who keeps retrying runs it for one round more
--   than there are retries, which is enough.
-- SelfEvict models lib/self-evict.js: Hooks is about `registerHooks`, Phases about all runs of the
--   self-eviction as a step relation, over ticks and the answers of hooks and pings.
-- Common has the lists, dictionaries, strings and numbers that these share. Examples holds tests.
--
-- Time, random draws, identifiers of updates and the results of requests are arguments. Fields that
-- may be absent are options. Numbers are natural: incarnation numbers and scores are not negative.
-- `-` on them stops at 0, which differs from the code only where the clock runs backwards. A JavaScript
-- object used as a map is an association list in the order of insertion; keys that look like
-- array indices, which JavaScript puts first, do not occur, since the keys are addresses.
-- Strings are compared by character codes, which is JavaScript's order while all of them are below
-- 2^16. Loops over lists, and down a tree in `remove` and `lowerBound`, need no fuel.
--
-- Not modelled: the iterator of the members; `lookupN`; the joins that a starting node sends; the HTTP requests
-- and responses of the request proxy; and logging, statistics, tracing and the network.
pub mod Common
pub mod Config
pub mod Member
pub mod Membership
pub mod Gossip
pub mod Middleware
pub mod Server
pub mod Ring
pub mod Handlers
pub mod Backoff
pub mod SelfEvict
pub mod PartitionHealing
pub mod Protocol
pub mod RequestProxy
pub mod Examples
