-- ===== src/Ring/HashRing/Lookup.antt =====
-- Which server owns a key: the one of the first replica point at or after the key's hash.
use Prim.Native.Nat.Ordering.{gt}
use ringpop_node.Common.{
  ℕ, zero, suc, ◌<◌, String, true, ◌≡◌, ◌≢◌, refl, sym, ap, subst, ◌∙◌, inl, List, [], ◌∷◌, Option,
  none, some, codes, compare_words, if◌then◌else◌, ltb, In, arith,
}
use ringpop_node.Config.{Env}
use ringpop_node.Ring.Sorted.{IsSorted, IsCut}
use ringpop_node.Ring.RbTree.{in_order}
use ringpop_node.Ring.RbTree.Cursor.{Iterator, lower_bound, upper_bound, min_entry}
use ringpop_node.Ring.RbTree.Cursor.Walk.{head, remaining, key_lem, min_entry_lem}
use ringpop_node.Ring.RbTree.Cursor.Bounds.{from_key, lower_bound_lem, upper_bound-lower_bound}
use ringpop_node.Ring.Points.{
  ReplicaPoint, comparator, new_replica_point, Before, comparator-IsCut, reversed_comparator,
}
use ringpop_node.Ring.HashRing.{
  HashRing, has_server, lookup_point, upper_bound_of, value_of, lookup_server,
}
use ringpop_node.Ring.HashRing.Replicas.{IsReplica}
use ringpop_node.Ring.HashRing.Servers.{IsRing}

-- The points whose hash is not below the given one.
abbrev pub from_hash : ℕ → List ReplicaPoint → List ReplicaPoint
from_hash hash [] = []
from_hash hash (p ∷ ps) = if ltb p.hash hash then from_hash hash ps else p ∷ ps

-- The owner of a hash among points in order, wrapping around at the end.
abbrev pub owner : ℕ → List ReplicaPoint → Option String
owner hash ps = elim (value_of (head (from_hash hash ps))) [
  | some server ↦ some server
  | none ↦ value_of (head ps)
]

empty_first : (w : List ℕ) → compare_words [] w ≢ gt
unfolding compare_words
empty_first [] h = cc
empty_first (n ∷ w) h = cc

from_key-lookup_point :
    (hash : ℕ) (ps : List ReplicaPoint)
    → from_key (comparator (lookup_point hash)) ps ≡ from_hash hash ps
unfolding from_key comparator lookup_point
from_key-lookup_point hash [] = refl
from_key-lookup_point hash (p ∷ ps) =
    ground (arith, from_key-lookup_point hash ps, empty_first (codes p.address))

upper_bound_of_lem :
    (env : Env) (str : String) (ring : HashRing)
    → IsSorted Before (in_order ring.rbtree)
    → (iter : Iterator ReplicaPoint) × (upper_bound_of env str ring ≡ some iter)
      × (remaining iter ≡ from_hash (env.hash_func (codes str)) (in_order ring.rbtree))
unfolding upper_bound_of
upper_bound_of_lem env str ring sorted =
    let point = lookup_point (env.hash_func (codes str)) in
    let cut = subst (IsCut Before) (sym (reversed_comparator point)) (comparator-IsCut point) in
    (
      lower_bound (comparator point) ring.rbtree,
      subst
          (λ after.
            upper_bound (comparator point) after ring.rbtree
            ≡ some (lower_bound (comparator point) ring.rbtree))
          (reversed_comparator point)
          (upper_bound-lower_bound Before (comparator point) cut ring.rbtree sorted),
      lower_bound_lem Before (comparator point) cut ring.rbtree sorted
          ∙ from_key-lookup_point (env.hash_func (codes str)) (in_order ring.rbtree),
    )

from_hash_inv :
    (hash : ℕ) (ps : List ReplicaPoint) (q : ReplicaPoint) → In q (from_hash hash ps) → In q ps
from_hash_inv hash [] q h = h
from_hash_inv hash (p ∷ ps) q h = ground (arith, from_hash_inv hash ps q)

owner-In :
    (ps : List ReplicaPoint) (p : ReplicaPoint) (hash : ℕ)
    → In p ps
    → (q : ReplicaPoint) × In q ps × (owner hash ps ≡ some q.address)
owner-In [] p hash h = absurd h
owner-In (x ∷ xs) p hash h = go (from_hash hash (x ∷ xs)) (from_hash_inv hash (x ∷ xs))
  where
    go :
        (qs : List ReplicaPoint)
        → ((q : ReplicaPoint) → In q qs → In q (x ∷ xs))
        → (q : ReplicaPoint) × In q (x ∷ xs)
          × (elim (value_of (head qs)) [ some server ↦ some server | none ↦ some x.address ]
              ≡ some q.address)
    go [] sub = (x, inl refl, refl)
    go (q ∷ qs) sub = (q, sub q (inl refl), refl)

first-IsReplica :
    (env : Env) (server : String) (n : ℕ)
    → 0 < n
    → IsReplica env server 0 n (new_replica_point env server 0)
first-IsReplica env server zero h = absurd (omega (arith, h))
first-IsReplica env server (suc n) h = inl refl

module _ (env : Env) (str : String) (ring : HashRing) (valid : IsRing env ring) where
  -- On a valid ring `lookup` returns the server of the first replica point in order whose hash is not
  -- below that of the string, or of the first of all points if there is none, or `null` if
  -- the tree is empty.
  pub lookup_server-owner :
      lookup_server env str ring ≡ some (owner (env.hash_func (codes str)) (in_order ring.rbtree))
  unfolding lookup_server
  lookup_server-owner =
      let (iter, r, q) = upper_bound_of_lem env str ring valid.sorted in
      rw (r, lookup_server)
        (subst
          (λ k.
            elim (value_of k) [
              | some res ↦ some (some res)
              | none ↦ some (value_of (min_entry ring.rbtree))
            ]
            ≡ some (owner (env.hash_func (codes str)) (in_order ring.rbtree)))
          (sym (key_lem iter ∙ ap head q))
          (go (value_of (head (from_hash (env.hash_func (codes str)) (in_order ring.rbtree))))))
    where
      go :
          (o : Option String)
          → elim o [ some res ↦ some (some res) | none ↦ some (value_of (min_entry ring.rbtree)) ]
            ≡ some (elim o [
              | some server ↦ some server
              | none ↦ value_of (head (in_order ring.rbtree))
            ])
      go (some res) = refl
      go none = ap (λ k. some (value_of k)) (min_entry_lem ring.rbtree)

  -- On a valid ring with a server and replica points, `lookup` returns a server of the ring.
  pub lookup_server-IsServer :
      (server : String)
      → has_server server ring ≡ true
      → 0 < ring.replica_points
      → (owning : String) × (lookup_server env str ring ≡ some (some owning))
        × (has_server owning ring ≡ true)
  unfolding has_server new_replica_point
  lookup_server-IsServer server h positive =
      let (p, k, _) =
        valid.has (new_replica_point env server 0)
          (h, first-IsReplica env server ring.replica_points positive) in
      let (q, i, r) = owner-In (in_order ring.rbtree) p (env.hash_func (codes str)) k in
      (q.address, lookup_server-owner ∙ ap some r, (valid.only q i).0)
