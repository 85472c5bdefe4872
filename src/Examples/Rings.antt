-- ===== src/Examples/Rings.antt =====
-- Tests of the tree, over numbers, and of the ring, with two servers of one replica point each.
use Prim.Native.Nat.{Ordering, compare}
use Prim.Native.Nat.Ordering.{eq}
use ringpop_node.Common.{
  ◌⊎◌, ℕ, ◌+◌, ◌<◌, ◌≡◌, refl, sym, ap, subst, ◌∙◌, inl, inr, String, Bool, true, false, not, ◌&&◌,
  ◌||◌, List, [], ◌∷◌, ◌++◌, none, some, lookup, In, arith, codes, eq_iff,
}
use ringpop_node.Config.{Env}
use ringpop_node.Membership.Checksum.{decimal}
use ringpop_node.Ring.Sorted.{IsCut, put, take_out, misses}
use ringpop_node.Ring.RbTree.{Tree, leaf, node, in_order}
use ringpop_node.Ring.RbTree.Colors.{IsRbTree}
use ringpop_node.Ring.RbTree.Insert.{insert}
use ringpop_node.Ring.RbTree.Insert.Total.{insert-IsRbTree}
use ringpop_node.Ring.RbTree.Remove.{remove}
use ringpop_node.Ring.RbTree.Remove.InOrder.{reversed, remove-TakesOut}
use ringpop_node.Ring.RbTree.Remove.Colored.{remove-IsRbTree}
use ringpop_node.Ring.RbTree.Cursor.{Iterator, key, upper_bound}
use ringpop_node.Ring.RbTree.Cursor.Walk.{remaining, head}
use ringpop_node.Ring.RbTree.Cursor.Bounds.{from_key, upper_bound_lem}
use ringpop_node.Ring.Points.{ReplicaPoint, comparator, comparator_refl, new_replica_point}
use ringpop_node.Ring.HashRing.{
  HashRing, RingEvent, is_server, has_server, add_remove_servers, lookup_server,
}
use ringpop_node.Ring.HashRing.Servers.{IsRing, is_listed, add_remove_servers-IsRing}
use ringpop_node.Ring.HashRing.Lookup.{owner, lookup_server-owner}
use ringpop_node.Examples.Data.{env}

abbrev key_is : ℕ → ℕ → Ordering
key_is n x = compare x n

abbrev is_key : ℕ → ℕ → Ordering
is_key n x = compare n x

key_is-IsCut : (n : ℕ) → IsCut (λ x y. x < y) (key_is n)
key_is-IsCut n = record {
  below = λ x y h k. ground arith;
  below_eq = λ x y h k. ground arith;
  above = λ x y h k. ground arith;
  above_eq = λ x y h k. ground arith;
}

is_key-IsCut : (n : ℕ) → IsCut (λ x y. x < y) (λ x. reversed (is_key n x))
is_key-IsCut n = record {
  below = λ x y h k. ground arith;
  below_eq = λ x y h k. ground arith;
  above = λ x y h k. ground arith;
  above_eq = λ x y h k. ground arith;
}

abbrev tree : Tree ℕ
tree = node false 3 (node true 1 leaf leaf) (node true 5 leaf leaf)

tree-IsRbTree : IsRbTree tree
tree-IsRbTree = ((1, ((refl, refl, refl, refl), (refl, refl, refl, refl))), refl)

insert-IsRbTree_example :
    (t' : Tree ℕ) × (made : Bool) × (insert (key_is 4) 4 tree ≡ some (t', made))
    × IsRbTree t'
    × (in_order t' ≡ put (key_is 4) 4 (in_order tree))
    × (made ≡ misses (key_is 4) (in_order tree))
insert-IsRbTree_example =
    insert-IsRbTree (λ x y. x < y) (key_is 4) 4 tree (key_is-IsCut 4) tree-IsRbTree
      ((omega arith, (omega arith, tt)), ((omega arith, tt), (tt, tt)))

remove-TakesOut_example :
    (in_order (remove (is_key 3) tree).0 ≡ take_out (λ x. reversed (is_key 3 x)) (in_order tree))
    × ((remove (is_key 3) tree).1 ≡ not (misses (λ x. reversed (is_key 3 x)) (in_order tree)))
remove-TakesOut_example =
    remove-TakesOut (λ x y. x < y) (is_key 3) (is_key-IsCut 3) tree
      ((omega arith, (omega arith, tt)), ((omega arith, tt), (tt, tt)))

remove-IsRbTree_example : IsRbTree (remove (is_key 3) tree).0
remove-IsRbTree_example = remove-IsRbTree (is_key 3) tree tree-IsRbTree

upper_bound_example :
    (iter : Iterator ℕ) × (upper_bound (is_key 3) (λ x. reversed (is_key 3 x)) tree ≡ some iter)
    × (remaining iter ≡ from_key (is_key 3) (in_order tree))
    × (key iter ≡ head (from_key (is_key 3) (in_order tree)))
    × ((xs : List ℕ) (x : ℕ) (ys : List ℕ)
        → in_order tree ≡ xs ++ x ∷ ys
        → is_key 3 x ≡ eq
        → key iter ≡ some x)
upper_bound_example =
    upper_bound_lem (λ x y. x < y) (is_key 3) (is_key-IsCut 3) tree
      ((omega arith, (omega arith, tt)), ((omega arith, tt), (tt, tt)))

-- The hash of a string is the sum of its codes.
abbrev pub total : List ℕ → ℕ
total [] = 0
total (n ∷ ns) = n + total ns

abbrev pub ring_env : Env
ring_env = record env { hash_func = total }

abbrev pub ring : HashRing
ring = record {
  replica_points = 1;
  rbtree =
      node false (record { hash = 252; address = "a:1"; index = 0 }) leaf
        (node true (record { hash = 253; address = "b:1"; index = 0 }) leaf leaf);
  servers = ("a:1", true) ∷ ("b:1", true) ∷ [];
  checksum = none;
}

servers_of : (name : String) → is_server name ring.servers ≡ true → In name ("a:1" ∷ "b:1" ∷ [])
unfolding is_server lookup
servers_of name h = ground (arith, eq_iff "a:1" name, eq_iff "b:1" name)

point_of : String → ReplicaPoint
point_of address = new_replica_point ring_env address 0

points_are :
    (p : ReplicaPoint)
    → In p (in_order ring.rbtree)
    → (is_server p.address ring.servers ≡ true) × ((p ≡ point_of p.address) ⊎ ⊥)
unfolding point_of is_server lookup new_replica_point decimal
points_are p (inl e) =
    subst (λ q. (is_server q.address ring.servers ≡ true) × ((q ≡ point_of q.address) ⊎ ⊥)) (sym e)
      (refl, inl refl)
points_are p (inr (inl e)) =
    subst (λ q. (is_server q.address ring.servers ≡ true) × ((q ≡ point_of q.address) ⊎ ⊥)) (sym e)
      (refl, inl refl)
points_are p (inr (inr bad)) = absurd bad

has_point :
    (q : ReplicaPoint)
    → In q.address ("a:1" ∷ "b:1" ∷ [])
    → q ≡ point_of q.address
    → (p : ReplicaPoint) × In p (in_order ring.rbtree) × (comparator p q ≡ eq)
unfolding point_of new_replica_point decimal
has_point q (inl a) e = (
  point_of "a:1",
  inl refl,
  subst (λ r. comparator (point_of "a:1") r ≡ eq) (sym (e ∙ ap point_of a))
      (comparator_refl (point_of "a:1")),
)
has_point q (inr (inl b)) e = (
  point_of "b:1",
  inr (inl refl),
  subst (λ r. comparator (point_of "b:1") r ≡ eq) (sym (e ∙ ap point_of b))
      (comparator_refl (point_of "b:1")),
)
has_point q (inr (inr bad)) e = absurd bad

pub ring-IsRing : IsRing ring_env ring
unfolding comparator point_of
ring-IsRing = record {
  is_tree = ((1, (refl, (refl, refl, refl, refl))), refl);
  sorted = ((refl, tt), (tt, tt));
  only = points_are;
  has =
      λ q k. has_point q (servers_of q.address k.0) (elim k.1 [ inl e ↦ e | inr bad ↦ absurd bad ]);
}

add_remove_servers-IsRing_example :
    (ring' : HashRing) × (events : List RingEvent) × (changed : Bool) × (add_remove_servers ring_env
        ("c:1" ∷ [])
        ("a:1" ∷ [])
        ring
      ≡ some (ring', events, changed))
    × IsRing ring_env ring'
    × ((name : String)
        → has_server name ring' ≡ (
            (has_server name ring || is_listed name ("c:1" ∷ []))
            && not (is_listed name ("a:1" ∷ []))))
add_remove_servers-IsRing_example =
    add_remove_servers-IsRing ring_env ("c:1" ∷ []) ("a:1" ∷ []) ring ring-IsRing

lookup_server-owner_example :
    lookup_server ring_env "key" ring ≡ some (owner (total (codes "key")) (in_order ring.rbtree))
lookup_server-owner_example = lookup_server-owner ring_env "key" ring ring-IsRing
