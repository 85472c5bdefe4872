-- ===== src/Ring/RbTree/Remove/Pushed.antt =====
-- Pushing a red node down keeps what the loop of `remove` stands on.
use ringpop_node.Common.{
  ℕ, zero, suc, ◌≡◌, refl, sym, subst, ◌⊎◌, inl, inr, Bool, true, false, List, [], ◌∷◌,
  if◌then◌else◌, arith,
}
use ringpop_node.Ring.RbTree.{Tree, leaf, node, Frame, is_red, branch, parent_red}
use ringpop_node.Ring.RbTree.Colors.{ByColor, IsRb, IsRbPath, is_red-branch}
use ringpop_node.Ring.RbTree.Remove.{borrow, borrow_from, lower, push, new_frame}
use ringpop_node.Ring.RbTree.Remove.Lowered.{
  IsLowered, CanRemove, above_lowered, get_child-IsRb, get_child_black, borrow-IsRbPath,
}

module _ {E : Type 0} where
  -- The sibling is black: the parent's red goes down to the node.
  pub lowered :
      (m : ℕ) (dir found : Bool) (path : List (Frame E)) (x : E) (child other : Tree E)
      → IsRb m child
      → is_red child ≡ false
      → IsRb m other
      → is_red other ≡ false
      → IsRbPath (suc m) path
      → (path ≡ []) ⊎ IsLowered path
      → CanRemove
          (record { dir = dir; red = (borrow_from path).1; found = found; entry = x; other = other }
            ∷ (borrow_from path).0)
          child
  unfolding borrow_from
  lowered m dir found [] x child other h black k other_black way pushed = record {
    blacks = m;
    tree = h;
    way = (k, way);
    link = ground (arith, black);
    pushed = inr (inr (other_black, inr refl));
  }
  lowered m dir found (f ∷ path) x child other h black k other_black way (inl e) =
      absurd (ground (arith, e))
  lowered m dir found (f ∷ path) x child other h black k other_black way (inr low) =
      let (sibling, above, top) = above_lowered (suc m) f path way low.1 in
      let (up, up_black, red) = borrow-IsRbPath m f path f.other sibling low.0 above top in
      record {
        blacks = m;
        tree = h;
        way = (
          k,
          subst
              (λ c.
                ByColor c
                  ((is_red other ≡ false)
                    × (parent_red (borrow f path f.other).0 ≡ false)
                    × IsRbPath m (borrow f path f.other).0)
                  (IsRbPath (suc m) (borrow f path f.other).0))
              (sym red) (other_black, up_black, up),
        );
        link = ground (arith, black);
        pushed = inr (inr (other_black, inl red));
      }

  -- The red node is pushed down.
  pub lower-CanRemove :
      (m : ℕ) (dir found : Bool) (path : List (Frame E)) (x : E) (child other : Tree E)
      → IsRb m child
      → is_red child ≡ false
      → IsRb m other
      → IsRbPath (suc m) path
      → (path ≡ []) ⊎ IsLowered path
      → CanRemove (lower dir found path x other) child
  unfolding lower new_frame
  lower-CanRemove m dir found path x child (node true y a b) h black k way pushed =
      let (near, far) = get_child-IsRb m dir y a b k.0 k.1 in
      let (near_black, far_black) = get_child_black dir y a b k.2 k.3 in
      record {
        blacks = m;
        tree = h;
        way = (near, (near_black, refl, (far, way)));
        link = ground (arith, black);
        pushed = inr (inr (near_black, inl refl));
      }
  lower-CanRemove m dir found path x child leaf h black k way pushed =
      lowered m dir found path x child leaf h black k refl way pushed
  lower-CanRemove m dir found path x child (node false y a b) h black k way pushed =
      lowered m dir found path x child (node false y a b) h black k refl way pushed

  -- A red node's children, and a black one's.
  pub red_children :
      (n : ℕ) (dir : Bool) (x : E) (child other : Tree E)
      → IsRb n (branch dir true x child other)
      → IsRb n child × IsRb n other × (is_red child ≡ false) × (is_red other ≡ false)
  red_children n true x child other h = (h.1, h.0, h.3, h.2)
  red_children n false x child other h = h

  pub black_children :
      (n : ℕ) (dir : Bool) (x : E) (child other : Tree E)
      → IsRb n (branch dir false x child other)
      → (m : ℕ) × (n ≡ suc m) × IsRb m child × IsRb m other
  black_children zero true x child other h = absurd h
  black_children zero false x child other h = absurd h
  black_children (suc m) true x child other h = (m, refl, h.1, h.0)
  black_children (suc m) false x child other h = (m, refl, h.0, h.1)

  pub push_red :
      (dir found : Bool) (path : List (Frame E)) (x : E) (child other : Tree E)
      → CanRemove path (branch dir true x child other)
      → CanRemove
          (record { dir = dir; red = true; found = found; entry = x; other = other } ∷ path)
          child
  push_red dir found path x child other can =
      let (h, k, child_black, other_black) = red_children can.blacks dir x child other can.tree in
      record {
        blacks = can.blacks;
        tree = h;
        way = (
          k,
          (other_black, ground (arith, can.link, is_red-branch dir true x child other), can.way),
        );
        link = ground (arith, child_black);
        pushed = inr (inr (other_black, inl refl));
      }

  pub push_black :
      (dir found : Bool) (path : List (Frame E)) (x : E) (child other : Tree E)
      → CanRemove path (branch dir false x child other)
      → CanRemove (push dir found path false x child other) child
  unfolding push
  push_black dir found path x child other can = go (is_red child) refl
    where
      children : (m : ℕ) × (can.blacks ≡ suc m) × IsRb m child × IsRb m other
      children = black_children can.blacks dir x child other can.tree

      way : IsRbPath (suc children.0) path
      way = subst (λ n. IsRbPath n path) children.1 can.way

      pushed : (path ≡ []) ⊎ IsLowered path
      pushed = elim can.pushed [
        | inl e ↦ inl e
        | inr (inl e) ↦ absurd (ground (arith, e, is_red-branch dir false x child other))
        | inr (inr low) ↦ inr low
      ]

      go :
          (red : Bool)
          → is_red child ≡ red
          → CanRemove
              (if red
                then record { dir = dir; red = false; found = found; entry = x; other = other }
                  ∷ path
                else lower dir found path x other)
              child
      go true e = record {
        blacks = children.0;
        tree = children.2;
        way = (children.3, way);
        link = ground (arith);
        pushed = inr (inl e);
      }
      go false e =
          lower-CanRemove children.0 dir found path x child other children.2 e children.3 way pushed

  pub push-CanRemove :
      (dir found red : Bool) (path : List (Frame E)) (x : E) (child other : Tree E)
      → CanRemove path (branch dir red x child other)
      → CanRemove (push dir found path red x child other) child
  unfolding push
  push-CanRemove dir found true path x child other can = push_red dir found path x child other can
  push-CanRemove dir found false path x child other can =
      push_black dir found path x child other can
