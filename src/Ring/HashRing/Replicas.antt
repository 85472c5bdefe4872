-- ===== src/Ring/HashRing/Replicas.antt =====
-- Which replica points the tree holds after the loops of `addServerReplicas` and `removeServerReplicas`.
use Prim.Native.Nat.Ordering.{eq}
use ringpop_node.Common.{
  ℕ, zero, suc, String, Bool, ◌≡◌, ◌≢◌, refl, sym, ap, subst, ◌∙◌, ◌⊎◌, inl, inr, some, In,
}
use ringpop_node.Config.{Env}
use ringpop_node.Ring.Sorted.{IsSorted, IsCut, put, take_out}
use ringpop_node.Ring.SortedItems.{
  In-put_inv, In-put, put_has, In-take_out_inv, In-take_out, take_out_gone, IsSorted-take_out,
  IsSorted-put,
}
use ringpop_node.Ring.RbTree.{Tree, in_order}
use ringpop_node.Ring.RbTree.Colors.{IsRbTree}
use ringpop_node.Ring.RbTree.Insert.{insert}
use ringpop_node.Ring.RbTree.Insert.Total.{insert-IsRbTree}
use ringpop_node.Ring.RbTree.Remove.{remove}
use ringpop_node.Ring.RbTree.Remove.InOrder.{remove-TakesOut}
use ringpop_node.Ring.RbTree.Remove.Colored.{remove-IsRbTree}
use ringpop_node.Ring.Points.{
  ReplicaPoint, comparator, new_replica_point, Before, comparator_refl, comparator_alike_left,
  comparator-IsCut, key_last, reversed_comparator, flip,
}
use ringpop_node.Ring.HashRing.{insert_replicas, remove_replicas}

-- A sorted red-black tree that holds the wanted points and no other, of those that compare equal one.
pub record Holds (Wanted : ReplicaPoint → Type 0) (t : Tree ReplicaPoint) : Type 0 where
  pub is_tree : IsRbTree t
  pub sorted : IsSorted Before (in_order t)
  pub only : (p : ReplicaPoint) → In p (in_order t) → Wanted p
  pub has :
      (q : ReplicaPoint) → Wanted q → (p : ReplicaPoint) × In p (in_order t) × (comparator p q ≡ eq)

pub Holds-same :
    (Old New : ReplicaPoint → Type 0) (t : Tree ReplicaPoint)
    → ((p : ReplicaPoint) → Old p → New p)
    → ((p : ReplicaPoint) → New p → Old p)
    → Holds Old t
    → Holds New t
Holds-same Old New t to from h = record {
  is_tree = h.is_tree;
  sorted = h.sorted;
  only = λ p k. to p (h.only p k);
  has = λ q k. h.has q (from q k);
}

Holds-put :
    (Wanted : ReplicaPoint → Type 0) (e : ReplicaPoint) (t t' : Tree ReplicaPoint)
    → Holds Wanted t
    → IsRbTree t'
    → in_order t' ≡ put (key_last e) e (in_order t)
    → Holds (λ p. Wanted p ⊎ (p ≡ e)) t'
Holds-put Wanted e t t' h tree q = record {
  is_tree = tree;
  sorted = subst (IsSorted Before) (sym q) (
      IsSorted-put (key_last e) Before (comparator-IsCut e) e (λ x k. k) (λ x k. flip x e k)
        (in_order t) h.sorted);
  only = λ p k. was_put p (subst (In p) q k);
  has = λ p wanted. has p wanted;
}
  where
    was_put : (p : ReplicaPoint) → In p (put (key_last e) e (in_order t)) → Wanted p ⊎ (p ≡ e)
    was_put p k = elim (In-put_inv (key_last e) e p (in_order t) k) [
      | inl s ↦ inr s
      | inr old ↦ inl (h.only p old)
    ]

    has :
        (p : ReplicaPoint)
        → Wanted p ⊎ (p ≡ e)
        → (x : ReplicaPoint) × In x (in_order t') × (comparator x p ≡ eq)
    has p (inl wanted) =
        let (x, k, s) = h.has p wanted in
        (x, subst (In x) (sym q) (In-put (key_last e) e x (in_order t) k), s)
    has p (inr s) =
        let (x, k, r) = put_has (key_last e) e (comparator_refl e) (in_order t) in
        (x, subst (In x) (sym q) k, subst (λ y. comparator x y ≡ eq) (sym s) r)

Holds-insert :
    (Wanted : ReplicaPoint → Type 0) (e : ReplicaPoint) (t : Tree ReplicaPoint)
    → Holds Wanted t
    → (t' : Tree ReplicaPoint) × (made : Bool) × (insert (key_last e) e t ≡ some (t', made))
      × Holds (λ p. Wanted p ⊎ (p ≡ e)) t'
Holds-insert Wanted e t h =
    let (t', made, r, tree, q, _) =
      insert-IsRbTree Before (key_last e) e t (comparator-IsCut e) h.is_tree h.sorted in
    (t', made, r, Holds-put Wanted e t t' h tree q)

remove-sorted :
    (e : ReplicaPoint) (t : Tree ReplicaPoint)
    → IsSorted Before (in_order t)
    → in_order (remove (comparator e) t).0 ≡ take_out (key_last e) (in_order t)
remove-sorted e t sorted =
    (remove-TakesOut Before (comparator e)
      (subst (IsCut Before) (sym (reversed_comparator e)) (comparator-IsCut e)) t sorted).0
    ∙ ap (λ cmp. take_out cmp (in_order t)) (reversed_comparator e)

Holds-remove :
    (Wanted : ReplicaPoint → Type 0) (e : ReplicaPoint) (t : Tree ReplicaPoint)
    → Holds Wanted t
    → Holds (λ p. Wanted p × (comparator p e ≢ eq)) (remove (comparator e) t).0
Holds-remove Wanted e t h = record {
  is_tree = remove-IsRbTree (comparator e) t h.is_tree;
  sorted =
      subst (IsSorted Before) (sym q)
        (IsSorted-take_out (key_last e) Before (comparator-IsCut e) (in_order t) h.sorted);
  only = λ p k. (
    h.only p (In-take_out_inv (key_last e) p (in_order t) (subst (In p) q k)),
    take_out_gone (key_last e) Before (comparator-IsCut e) (in_order t) h.sorted p
        (subst (In p) q k),
  );
  has = λ p wanted. still p wanted.0 wanted.1;
}
  where
    q : in_order (remove (comparator e) t).0 ≡ take_out (key_last e) (in_order t)
    q = remove-sorted e t h.sorted

    still :
        (p : ReplicaPoint)
        → Wanted p
        → comparator p e ≢ eq
        → (x : ReplicaPoint) × In x (in_order (remove (comparator e) t).0) × (comparator x p ≡ eq)
    still p wanted apart =
        let (x, k, s) = h.has p wanted in
        (
          x,
          subst (In x) (sym q) (
              In-take_out (key_last e) x
                (λ same. apart (sym (comparator_alike_left x p e s) ∙ same)) (in_order t) k),
          s,
        )

module _ (env : Env) (server : String) where
  -- One of the server's points from the `i`-th on, and a point that is none of them.
  abbrev pub IsReplica : ℕ → ℕ → ReplicaPoint → Type 0
  IsReplica i zero p = ⊥
  IsReplica i (suc n) p = (p ≡ new_replica_point env server i) ⊎ IsReplica (suc i) n p

  abbrev pub IsApart : ℕ → ℕ → ReplicaPoint → Type 0
  IsApart i zero p = Unit
  IsApart i (suc n) p = (comparator p (new_replica_point env server i) ≢ eq) × IsApart (suc i) n p

  pub Holds-insert_replicas :
      (Wanted : ReplicaPoint → Type 0) (i n : ℕ) (t : Tree ReplicaPoint)
      → Holds Wanted t
      → (t' : Tree ReplicaPoint) × (insert_replicas env server i n t ≡ some t')
        × Holds (λ p. Wanted p ⊎ IsReplica i n p) t'
  unfolding insert_replicas
  Holds-insert_replicas Wanted i zero t h = (
    t,
    refl,
    Holds-same Wanted (λ p. Wanted p ⊎ IsReplica i zero p) t (λ p k. inl k)
        (λ p k. elim k [ inl w ↦ w | inr bad ↦ absurd bad ]) h,
  )
  Holds-insert_replicas Wanted i (suc n) t h =
      let e = new_replica_point env server i in
      let (t1, made, r, h1) = Holds-insert Wanted e t h in
      let (t2, r2, h2) = Holds-insert_replicas (λ p. Wanted p ⊎ (p ≡ e)) (suc i) n t1 h1 in
      (
        t2,
        rw (r, insert_replicas) r2,
        Holds-same (λ p. (Wanted p ⊎ (p ≡ e)) ⊎ IsReplica (suc i) n p)
            (λ p. Wanted p ⊎ IsReplica i (suc n) p) t2
            (λ p k. elim k [
              | inl (inl w) ↦ inl w
              | inl (inr s) ↦ inr (inl s)
              | inr l ↦ inr (inr l)
            ])
            (λ p k. elim k [
              | inl w ↦ inl (inl w)
              | inr (inl s) ↦ inl (inr s)
              | inr (inr l) ↦ inr l
            ])
            h2,
      )

  pub Holds-remove_replicas :
      (Wanted : ReplicaPoint → Type 0) (i n : ℕ) (t : Tree ReplicaPoint)
      → Holds Wanted t
      → Holds (λ p. Wanted p × IsApart i n p) (remove_replicas env server i n t)
  unfolding remove_replicas
  Holds-remove_replicas Wanted i zero t h =
      Holds-same Wanted (λ p. Wanted p × IsApart i zero p) t (λ p k. (k, tt)) (λ p k. k.0) h
  Holds-remove_replicas Wanted i (suc n) t h =
      let e = new_replica_point env server i in
      Holds-same (λ p. (Wanted p × (comparator p e ≢ eq)) × IsApart (suc i) n p)
        (λ p. Wanted p × IsApart i (suc n) p) (remove_replicas env server i (suc n) t)
        (λ p k. (k.0.0, (k.0.1, k.1))) (λ p k. ((k.0, k.1.0), k.1.1))
        (Holds-remove_replicas (λ p. Wanted p × (comparator p e ≢ eq)) (suc i) n
          (remove (comparator e) t).0 (Holds-remove Wanted e t h))
