-- ===== src/Ring/RbTree/Insert/Violated.antt =====
-- The repair of a red node under a red parent, and where the loop stands after it.
use Prim.Native.Nat.{Ordering, max}
use Prim.Native.Nat.Ordering.{lt, gt}
use ringpop_node.Common.{
  ℕ, suc, ◌+◌, ◌*◌, ◌≤◌, ◌≡◌, refl, inl, inr, Bool, true, false, not, List, ◌∷◌, Option, none, some,
  arith, if◌then◌else◌,
}
use ringpop_node.Ring.RbTree.{Tree, leaf, node, Frame, is_red, get_child, branch, rebuild}
use ringpop_node.Ring.RbTree.Colors.{IsRb, IsRbPath, ByColor, IsRb-branch, IsRb-rebuild}
use ringpop_node.Ring.RbTree.Insert.InOrder.{IsPlaced, IsPlaced-tail, entry-IsPlaced}
use ringpop_node.Ring.RbTree.Insert.{stop, repair, step_frame, go_down, height, same_dir}
use ringpop_node.Ring.RbTree.Insert.Standing.{is_calm, black_around, GoesOn}
use ringpop_node.Ring.RbTree.Insert.Plain.{go_down_cases}

module _ {E : Type 0} where
  module _ (cmp : E → Ordering) (e : E) where
    -- What stands above a node that is to be repaired: the red parent and the black grandparent.
    pub record IsViolated (n : ℕ) (p g : Frame E) (path : List (Frame E)) : Type 0 where
      pub parent_other : IsRb n p.other
      pub parent_black : is_red p.other ≡ false
      pub uncle : IsRb n g.other
      pub uncle_black : is_red g.other ≡ false
      pub way : IsRbPath (suc n) path
      pub parent_key : cmp p.entry ≡ (if p.dir then lt else gt)
      pub grandparent_key : cmp g.entry ≡ (if g.dir then lt else gt)

    pub violated :
        (n : ℕ) (p g : Frame E) (path : List (Frame E))
        → IsRbPath n (p ∷ g ∷ path)
        → p.red ≡ true
        → black_around (g ∷ path) ≡ true
        → IsPlaced cmp (p ∷ g ∷ path)
        → IsViolated n p g path
    violated n p g path way red around placed = record {
      parent_other = way.0;
      parent_black = parent.0;
      uncle = parent.2.0;
      uncle_black = ground (arith, around);
      way = above g.red _ _ (ground (arith, around)) parent.2.1;
      parent_key = entry-IsPlaced cmp p (g ∷ path) placed;
      grandparent_key = entry-IsPlaced cmp g path (IsPlaced-tail cmp p (g ∷ path) placed);
    }
      where
        below : (red : Bool) (Red Black : Type 0) → red ≡ true → ByColor red Red Black → Red
        below true Red Black h k = k
        below false Red Black h k = absurd (ground (arith, h))

        above : (red : Bool) (Red Black : Type 0) → red ≡ false → ByColor red Red Black → Black
        above false Red Black h k = k
        above true Red Black h k = absurd (ground (arith, h))

        parent : (is_red p.other ≡ false) × (g.red ≡ false) × IsRbPath n (g ∷ path)
        parent = below p.red _ _ red way.1

    -- The three shapes after a repair.
    pub repair_cases :
        (P : Option (List (Frame E) × Tree E × ℕ) → Type 0) (p g : Frame E) (path : List (Frame E))
        (red : Bool) (x : E) (l r : Tree E)
        → P (
            some (
              record p { red = false; other = branch g.dir true g.entry p.other g.other } ∷ path,
              node red x l r,
              1,
            ))
        → (p.dir ≡ true
            → g.dir ≡ false
            → P (
                some (
                  path,
                  node false x (node true p.entry p.other l) (node true g.entry r g.other),
                  2,
                )))
        → (p.dir ≡ false
            → g.dir ≡ true
            → P (
                some (
                  path,
                  node false x (node true g.entry g.other l) (node true p.entry r p.other),
                  2,
                )))
        → P (repair 0 (p ∷ g ∷ path) (node red x l r))
    unfolding repair same_dir
    repair_cases P p g path red x l r outer right left = go p.dir g.dir outer right left
      where
        go :
            (d k : Bool)
            → P (
                some (
                  record p { red = false; other = branch k true g.entry p.other g.other } ∷ path,
                  node red x l r,
                  1,
                ))
            → (d ≡ true
                → k ≡ false
                → P (
                    some (
                      path,
                      node false x (node true p.entry p.other l) (node true g.entry r g.other),
                      2,
                    )))
            → (d ≡ false
                → k ≡ true
                → P (
                    some (
                      path,
                      node false x (node true g.entry g.other l) (node true p.entry r p.other),
                      2,
                    )))
            → P (
                if same_dir d k
                then some (
                  record p { red = false; other = branch k true g.entry p.other g.other } ∷ path,
                  node red x l r,
                  1,
                )
                else some (
                  path,
                  branch k false x
                      (branch k true p.entry p.other (get_child k (node red x l r)))
                      (branch k true g.entry (get_child (not k) (node red x l r)) g.other),
                  2,
                ))
        go true true outer right left = outer
        go true false outer right left = right refl refl
        go false true outer right left = left refl refl
        go false false outer right left = outer

    -- The way down to the repaired node after a single rotation.
    pub outer-IsRbPath :
        (n : ℕ) (p g : Frame E) (path : List (Frame E))
        → IsViolated n p g path
        → IsRbPath n
            (record p { red = false; other = branch g.dir true g.entry p.other g.other } ∷ path)
    outer-IsRbPath n p g path v = (
      (IsRb-branch n g.dir g.entry p.other g.other v.parent_other v.uncle).1 v.parent_black
          v.uncle_black,
      v.way,
    )

    -- A new node, repaired.
    pub made-GoesOn :
        (fuel : ℕ) (p g : Frame E) (path : List (Frame E))
        → IsViolated 0 p g path
        → GoesOn cmp fuel (elim (repair 0 (p ∷ g ∷ path) (node true e leaf leaf)) [
          | none ↦ none
          | some (path', t', stale') ↦ some (stop (rebuild path' t') true)
        ])
    made-GoesOn fuel p g path v =
        repair_cases
          (λ fixed. GoesOn cmp fuel (elim fixed [
            | none ↦ none
            | some (path', t', stale') ↦ some (stop (rebuild path' t') true)
          ]))
          p g path true e leaf leaf
          (IsRb-rebuild 0
            (record p { red = false; other = branch g.dir true g.entry p.other g.other } ∷ path)
            (node true e leaf leaf) (refl, refl, refl, refl) (outer-IsRbPath 0 p g path v) refl)
          (λ _ _.
            IsRb-rebuild 1 path _
              ((v.parent_other, refl, v.parent_black, refl), (refl, v.uncle, refl, v.uncle_black))
              v.way refl)
          (λ _ _.
            IsRb-rebuild 1 path _
              ((v.uncle, refl, v.uncle_black, refl), (refl, v.parent_other, refl, v.parent_black))
              v.way refl)

    -- The loop at the root of a double rotation.
    pub inner-GoesOn :
        (fuel n : ℕ) (path : List (Frame E)) (x a b : E) (u l r w : Tree E)
        → IsRbPath (suc n) path
        → IsRb n u
        → is_red u ≡ false
        → IsRb n w
        → is_red w ≡ false
        → IsRb n l
        → IsRb n r
        → is_calm l ≡ true
        → is_calm r ≡ true
        → (is_red l ≡ false) × (is_red r ≡ false)
        → 2 * suc (max (height l) (height r)) + 1 ≤ suc fuel
        → cmp a ≡ lt
        → cmp b ≡ gt
        → GoesOn cmp fuel (go_down cmp 2 path (node false x (node true a u l) (node true b r w)))
    inner-GoesOn fuel n path x a b u l r w way hu bu hw bw hl hr cl cr reds le ka kb =
        go_down_cases cmp e (GoesOn cmp fuel) 2 path false x (node true a u l) (node true b r w)
          (IsRb-rebuild (suc n) path _ ((hu, hl, bu, reds.0), (hr, hw, reds.1, bw)) way refl)
          (λ _.
            unfold step_frame in
            (record {
              blacks = n;
              entry = b;
              left = r;
              right = w;
              shape = refl;
              lefts = hr;
              rights = hw;
              reds = (reds.1, bw);
              way = ((hu, hl, bu, reds.0), way);
              parent = refl;
              on = inr (kb, cr, omega (arith, le));
            }))
          (λ _.
            unfold step_frame in
            (record {
              blacks = n;
              entry = a;
              left = u;
              right = l;
              shape = refl;
              lefts = hu;
              rights = hl;
              reds = (bu, reds.0);
              way = ((hr, hw, reds.1, bw), way);
              parent = refl;
              on = inl (ka, cl, omega (arith, le));
            }))
