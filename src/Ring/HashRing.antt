-- ===== src/Ring/HashRing.antt =====
-- lib/ring/index.js: the hash ring.
--
-- The replica points of the servers lie in a red-black tree. `none` stands for an `insert` of the tree that
-- stops on an unusable reference. The events that a call emits are given in order.
pub mod Replicas
pub mod Servers
pub mod Lookup
use Prim.Native.Nat.Ordering.{lt, eq, gt}
use ringpop_node.Common.{
  ℕ, zero, suc, String, Bool, true, false, not, ◌&&◌, ◌||◌, List, [], ◌∷◌, ◌++◌, Option, none, some,
  Dict, lookup, insert, delete, keys, length, get_or, codes, compare_words, if◌then◌else◌,
}
use ringpop_node.Config.{Env}
use ringpop_node.Ring.RbTree.{Tree}
use ringpop_node.Ring.RbTree.Insert.{insert as insert_entry}
use ringpop_node.Ring.RbTree.Remove.{remove as remove_entry}
use ringpop_node.Ring.RbTree.Cursor.{Iterator, key, min_entry, upper_bound}
use ringpop_node.Ring.Points.{ReplicaPoint, comparator, new_replica_point, key_last}

pub record HashRing : Type 0 where
  pub replica_points : ℕ
  pub rbtree : Tree ReplicaPoint
  pub servers : Dict Bool
  pub checksum : Option ℕ

pub data RingEvent : Type 0 where
  added : String → RingEvent
  removed : String → RingEvent
  checksum_computed : ℕ → Option ℕ → RingEvent
  ring_changed : List String → List String → RingEvent

unfoldable pub is_server : String → Dict Bool → Bool
is_server name servers = get_or (lookup name servers) false

unfoldable pub has_server : String → HashRing → Bool
unfolding is_server
has_server name ring = is_server name ring.servers

unfoldable pub get_server_count : HashRing → ℕ
get_server_count ring = length (keys ring.servers)

-- The loops over the replicas from `i` on.
unfoldable pub insert_replicas :
    Env → String → ℕ → ℕ → Tree ReplicaPoint → Option (Tree ReplicaPoint)
unfolding new_replica_point
insert_replicas env server i zero t = some t
insert_replicas env server i (suc n) t =
    elim (insert_entry (key_last (new_replica_point env server i)) (new_replica_point env server i)
      t) [ none ↦ none | some (t', made) ↦ insert_replicas env server (suc i) n t' ]

unfoldable pub remove_replicas : Env → String → ℕ → ℕ → Tree ReplicaPoint → Tree ReplicaPoint
unfolding new_replica_point
remove_replicas env server i zero t = t
remove_replicas env server i (suc n) t =
    remove_replicas env server (suc i) n
      (remove_entry (comparator (new_replica_point env server i)) t).0

unfoldable pub add_server_replicas : Env → String → HashRing → Option HashRing
unfolding insert_replicas
add_server_replicas env server ring =
    elim (insert_replicas env server 0 ring.replica_points ring.rbtree) [
      | none ↦ none
      | some t ↦ some (record ring { rbtree = t; servers = insert server true ring.servers })
    ]

unfoldable pub remove_server_replicas : Env → String → HashRing → HashRing
unfolding remove_replicas
remove_server_replicas env server ring = record ring {
  rbtree = remove_replicas env server 0 ring.replica_points ring.rbtree;
  servers = delete server ring.servers;
}

-- `serverNames.sort().join(';')`.
insert_name : String → List String → List String
insert_name name [] = name ∷ []
insert_name name (x ∷ xs) = elim (compare_words (codes x) (codes name)) [
  | lt ↦ x ∷ insert_name name xs
  | eq ↦ name ∷ x ∷ xs
  | gt ↦ name ∷ x ∷ xs
]

sort_names : List String → List String
unfolding insert_name
sort_names [] = []
sort_names (name ∷ names) = insert_name name (sort_names names)

join_names : List String → List ℕ
join_names [] = []
join_names (name ∷ []) = codes name
join_names (name ∷ next ∷ names) = codes name ++ b';' ∷ join_names (next ∷ names)

unfoldable pub compute_checksum : Env → HashRing → HashRing × RingEvent
unfolding sort_names join_names
compute_checksum env ring =
    let checksum = env.hash_func (join_names (sort_names (keys ring.servers))) in
    (record ring { checksum = some checksum }, checksum_computed checksum ring.checksum)

unfoldable pub add_server : Env → String → HashRing → Option (HashRing × List RingEvent)
unfolding has_server add_server_replicas compute_checksum
add_server env name ring =
    if has_server name ring then some (ring, []) else elim (add_server_replicas env name ring) [
      | none ↦ none
      | some ring' ↦
          (let (counted, event) = compute_checksum env ring' in
            some (counted, event ∷ added name ∷ []))
    ]

unfoldable pub remove_server : Env → String → HashRing → HashRing × List RingEvent
unfolding has_server remove_server_replicas compute_checksum
remove_server env name ring =
    if not (has_server name ring)
    then (ring, [])
    else let (counted, event) = compute_checksum env (remove_server_replicas env name ring) in
      (counted, event ∷ removed name ∷ [])

-- The two loops of `addRemoveServers`; the flag tells whether a server was added, or removed.
unfoldable pub add_servers : Env → List String → Bool → HashRing → Option (HashRing × Bool)
unfolding has_server add_server_replicas
add_servers env [] changed ring = some (ring, changed)
add_servers env (server ∷ servers) changed ring = elim (has_server server ring) [
  | true ↦ add_servers env servers changed ring
  | false ↦ elim (add_server_replicas env server ring) [
    | none ↦ none
    | some ring' ↦ add_servers env servers true ring'
  ]
]

unfoldable pub remove_servers : Env → List String → Bool → HashRing → HashRing × Bool
unfolding has_server remove_server_replicas
remove_servers env [] changed ring = (ring, changed)
remove_servers env (server ∷ servers) changed ring = elim (has_server server ring) [
  | true ↦ remove_servers env servers true (remove_server_replicas env server ring)
  | false ↦ remove_servers env servers changed ring
]

-- The end of `addRemoveServers`.
unfoldable pub announce :
    Env → List String → List String → HashRing → Bool → HashRing × List RingEvent × Bool
unfolding compute_checksum
announce env to_add to_remove ring ring_changed' =
    if ring_changed'
    then (let (counted, event) = compute_checksum env ring in
        (counted, event ∷ ring_changed to_add to_remove ∷ [], true))
    else (ring, [], false)

unfoldable pub add_remove_servers :
    Env → List String → List String → HashRing → Option (HashRing × List RingEvent × Bool)
unfolding add_servers remove_servers announce
add_remove_servers env to_add to_remove ring = elim (add_servers env to_add false ring) [
  | none ↦ none
  | some (ring', added_servers) ↦
      (let (ring'', removed_servers) = remove_servers env to_remove false ring' in
        some (announce env to_add to_remove ring'' (added_servers || removed_servers)))
]

-- The replica point that `lookup` and `lookupN` look for.
unfoldable pub lookup_point : ℕ → ReplicaPoint
lookup_point hash = record { hash = hash; address = ""; index = 0 }

-- `{hash: hash}` as the key, which may compare equal to a point of the empty address only.
unfoldable pub upper_bound_of : Env → String → HashRing → Option (Iterator ReplicaPoint)
unfolding lookup_point upper_bound
upper_bound_of env str ring =
    let point = lookup_point (env.hash_func (codes str)) in
    upper_bound (comparator point) (key_last point) ring.rbtree

-- The value of an entry, if there is one.
abbrev pub value_of : Option ReplicaPoint → Option String
value_of none = none
value_of (some p) = some p.address

-- `lookup`: the outer option stands for the loop of `upperBound`, the inner one for `null`.
unfoldable pub lookup_server : Env → String → HashRing → Option (Option String)
unfolding upper_bound_of min_entry
lookup_server env str ring = elim (upper_bound_of env str ring) [
  | none ↦ none
  | some iter ↦ elim (value_of (key iter)) [
    | some res ↦ some (some res)
    | none ↦ some (value_of (min_entry ring.rbtree))
  ]
]
