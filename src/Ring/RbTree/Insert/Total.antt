-- ===== src/Ring/RbTree/Insert/Total.antt =====
-- `insert` returns for a red-black tree, and gives one.
use Prim.Native.Nat.{Ordering}
use ringpop_node.Common.{
  ℕ, zero, suc, ◌*◌, ◌≡◌, refl, inl, inr, Bool, false, List, [], Option, none, some, arith,
}
use ringpop_node.Ring.RbTree.{Tree, leaf, node, Frame, with_color, in_order}
use ringpop_node.Ring.RbTree.Colors.{IsRb, IsRb-black, IsRbTree, is_red-black}
use mathlib.Core.List.{append-nil}
use ringpop_node.Ring.Sorted.{IsSorted, IsCut, put, misses}
use ringpop_node.Ring.RbTree.Insert.InOrder.{Puts, insert-Puts, IsPlaced, total, Goes, round-Goes}
use ringpop_node.Ring.RbTree.Insert.{Round, stop, descend, round, insert_loop, insert, height}
use ringpop_node.Ring.RbTree.Insert.Standing.{CanGo, GoesOn}
use ringpop_node.Ring.RbTree.Insert.Ready.{round-GoesOn}

module _ {E : Type 0} where
  module _ (cmp : E → Ordering) (e : E) where
    no_round : (stale : ℕ) (path : List (Frame E)) (t : Tree E) → ¬ CanGo cmp 0 stale path t
    no_round zero path t (inl v) = omega (arith, v.enough)
    no_round zero path t (inr v) = omega (arith, v.enough)
    no_round (suc zero) path t v = omega (arith, v.enough)
    no_round (suc (suc zero)) path t v = elim v.on [
      | inl (c, calm, le) ↦ omega (arith, le)
      | inr (c, calm, le) ↦ omega (arith, le)
    ]
    no_round (suc (suc (suc n))) path t v = v

    -- The loop returns, with a red-black tree.
    abbrev Returns : Option (Tree E × Bool) → Type 0
    Returns none = ⊥
    Returns (some (t, made)) = (m : ℕ) × IsRb m t

    module _ (Before : E → E → Type 0) (cut : IsCut Before cmp) (all : List E)
        (sorted : IsSorted Before all) where
      insert_loop-Returns :
          (fuel stale : ℕ) (path : List (Frame E)) (t : Tree E)
          → CanGo cmp fuel stale path t
          → total path t ≡ all
          → IsPlaced cmp path
          → Returns (insert_loop cmp e fuel stale path t)
      unfolding insert_loop
      insert_loop-Returns zero stale path t v q placed = absurd (no_round stale path t v)
      insert_loop-Returns (suc fuel) stale path t v q placed =
          go (round cmp e stale path t) (round-GoesOn cmp e fuel stale path t v placed)
            (round-Goes Before cmp cut e stale path t all q sorted placed)
            (λ s p u w k. insert_loop-Returns fuel s p u w k.0 k.1)
        where
          go :
              (r : Option (Round E))
              → GoesOn cmp fuel r
              → Goes cmp e all r
              → ((s : ℕ) (p : List (Frame E)) (u : Tree E)
                  → CanGo cmp fuel s p u
                  → (total p u ≡ all) × IsPlaced cmp p
                  → Returns (insert_loop cmp e fuel s p u))
              → Returns (elim r [
                | none ↦ none
                | some (stop t' made) ↦ some (t', made)
                | some (descend stale' path' t') ↦ insert_loop cmp e fuel stale' path' t'
              ])
          go none w k rest = absurd w
          go (some (stop t' made)) w k rest = w
          go (some (descend s p u)) w k rest = rest s p u w k

    abbrev GivesRbTree : Option (Tree E × Bool) → Type 0
    GivesRbTree none = ⊥
    GivesRbTree (some (t, made)) = IsRbTree t

    insert-Returns :
        (t : Tree E) (Before : E → E → Type 0)
        → IsCut Before cmp
        → IsSorted Before (in_order t)
        → IsRbTree t
        → GivesRbTree (insert cmp e t)
    unfolding insert
    insert-Returns leaf Before cut sorted v = ((1, (refl, refl)), refl)
    insert-Returns (node red x l r) Before cut sorted v =
        go (insert_loop cmp e (3 * suc (height (node red x l r))) 0 [] (node red x l r)) (
          insert_loop-Returns Before cut (in_order (node red x l r)) sorted
            (3 * suc (height (node red x l r))) 0 [] (node red x l r)
            (inl (record {
              blacks = v.0.0;
              tree = v.0.1;
              way = tt;
              red_node = inl v.1;
              red_parent = inl refl;
              enough = omega arith;
            }))
            (append-nil (in_order (node red x l r))) (tt, tt))
      where
        go :
            (r' : Option (Tree E × Bool))
            → Returns r'
            → GivesRbTree
                (elim r' [ none ↦ none | some (t, made) ↦ some (with_color false t, made) ])
        go none k = absurd k
        go (some (t, made)) k = (IsRb-black k.0 t k.1, is_red-black t)

  -- On a red-black tree whose entries are sorted, `insert` returns a red-black tree whose entries are
  -- the old ones with the new one in its place, or the old ones if the key is there; the flag
  -- tells which.
  pub insert-IsRbTree :
      (Before : E → E → Type 0) (cmp : E → Ordering) (e : E) (t : Tree E)
      → IsCut Before cmp
      → IsRbTree t
      → IsSorted Before (in_order t)
      → (t' : Tree E) × (made : Bool) × (insert cmp e t ≡ some (t', made))
        × IsRbTree t'
        × (in_order t' ≡ put cmp e (in_order t))
        × (made ≡ misses cmp (in_order t))
  insert-IsRbTree Before cmp e t cut v sorted =
      go (insert cmp e t) refl (insert-Returns cmp e t Before cut sorted v)
        (insert-Puts Before cmp cut e t sorted)
    where
      go :
          (r : Option (Tree E × Bool))
          → insert cmp e t ≡ r
          → GivesRbTree cmp e r
          → Puts Before cmp cut e (in_order t) r
          → (t' : Tree E) × (made : Bool) × (insert cmp e t ≡ some (t', made))
            × IsRbTree t'
            × (in_order t' ≡ put cmp e (in_order t))
            × (made ≡ misses cmp (in_order t))
      go none h k q = absurd k
      go (some (t', made)) h k q = (t', made, h, k, q.0, q.1)
