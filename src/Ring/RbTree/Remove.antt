-- ===== src/Ring/RbTree/Remove.antt =====
-- lib/ring/rbtree.js: `remove`. A node is pushed down red until it is the one to splice out.
pub mod Paths
pub mod InOrder
pub mod Lowered
pub mod Pushed
pub mod Colored
use Prim.Native.Nat.{Ordering}
use Prim.Native.Nat.Ordering.{lt, eq, gt}
use ringpop_node.Common.{Bool, true, false, not, ◌&&◌, ◌||◌, List, [], ◌∷◌, if◌then◌else◌}
use ringpop_node.Ring.RbTree.{
  Tree, leaf, node, Frame, is_red, get_child, branch, with_color, rebuild,
}

module _ {E : Type 0} where
  new_frame : Bool → Bool → E → Tree E → Frame E
  new_frame dir red x other = record {
    dir = dir;
    red = red;
    found = false;
    entry = x;
    other = other;
  }

  -- The rotation that brings the sibling, or its near child if that is red, above the parent.
  unfoldable pub rotate_up : Frame E → List (Frame E) → E → Tree E → Tree E → List (Frame E)
  unfolding new_frame
  rotate_up f path s (node true t a b) far =
      record f { red = false; other = get_child f.dir (node true t a b) }
      ∷ new_frame f.dir true t (branch f.dir false s (get_child (not f.dir) (node true t a b)) far)
      ∷ path
  rotate_up f path s near far =
      record f { red = false; other = near } ∷ new_frame f.dir true s (with_color false far) ∷ path

  -- The sibling's case: the way down and whether the node, black until now, is red. `lastDir` is the
  -- direction of the parent's frame; the frame that a rotation adds is the new child of `gp`.
  unfoldable pub borrow : Frame E → List (Frame E) → Tree E → List (Frame E) × Bool
  unfolding rotate_up
  borrow f path leaf = (f ∷ path, false)
  borrow f path (node c s a b) =
      if not (is_red (get_child (not f.dir) (node c s a b)))
        && not (is_red (get_child f.dir (node c s a b)))
      then (record f { red = false; other = node true s a b } ∷ path, true)
      else (
        rotate_up f path s (get_child f.dir (node c s a b)) (get_child (not f.dir) (node c s a b)),
        true,
      )

  unfoldable pub borrow_from : List (Frame E) → List (Frame E) × Bool
  unfolding borrow
  borrow_from [] = ([], false)
  borrow_from (f ∷ path) = borrow f path f.other

  -- A black node with a black child on the way and this other child.
  unfoldable pub lower : Bool → Bool → List (Frame E) → E → Tree E → List (Frame E)
  unfolding borrow_from new_frame
  lower dir found path x (node true y a b) =
      record {
        dir = dir;
        red = true;
        found = found;
        entry = x;
        other = get_child dir (node true y a b);
      }
      ∷ new_frame dir false y (get_child (not dir) (node true y a b))
      ∷ path
  lower dir found path x other =
      let (above, red) = borrow_from path in
      record { dir = dir; red = red; found = found; entry = x; other = other } ∷ above

  -- "pretend to push the red node down": the way down to the child that the loop goes to.
  unfoldable pub push : Bool → Bool → List (Frame E) → Bool → E → Tree E → Tree E → List (Frame E)
  unfolding lower
  push dir found path red x child other =
      if red || is_red child
      then record { dir = dir; red = red; found = found; entry = x; other = other } ∷ path
      else lower dir found path x other

  -- `found.key = node.key`, where `found` is the last node with the key.
  unfoldable pub replace_found : E → List (Frame E) → List (Frame E)
  replace_found e [] = []
  replace_found e (f ∷ path) =
      if f.found then record f { entry = e } ∷ path else f ∷ replace_found e path

  unfoldable pub any_found : List (Frame E) → Bool
  any_found [] = false
  any_found (f ∷ path) = f.found || any_found path

  is_leaf : Tree E → Bool
  is_leaf leaf = true
  is_leaf (node c x l r) = false

  -- The child that takes the place of the node: `node.getChild(node.left === null)`.
  pub spliced : Frame E → Tree E
  unfolding is_leaf
  spliced f =
      let last = branch f.dir f.red f.entry leaf f.other in
      get_child (is_leaf (get_child false last)) last

  -- After the loop, at the node of the first frame.
  unfoldable pub splice : List (Frame E) → Tree E × Bool
  unfolding spliced replace_found any_found
  splice [] = (leaf, false)
  splice (f ∷ path) =
      if f.found
      then (rebuild path (spliced f), true)
      else if any_found path
      then (rebuild (replace_found f.entry path) (spliced f), true)
      else (rebuild (f ∷ path) leaf, false)

  -- The loop; `cmp x` is `comparator(key, x.key)`. At a missing child the loop has ended.
  unfoldable pub remove_loop : (E → Ordering) → List (Frame E) → Tree E → Tree E × Bool
  unfolding splice push
  remove_loop cmp path leaf = splice path
  remove_loop cmp path (node red x l r) = elim (cmp x) [
    | gt ↦ remove_loop cmp (push true false path red x r l) r
    | eq ↦ remove_loop cmp (push false true path red x l r) l
    | lt ↦ remove_loop cmp (push false false path red x l r) l
  ]

  -- `remove`: the tree, with a black root, and whether the key was found.
  unfoldable pub remove : (E → Ordering) → Tree E → Tree E × Bool
  unfolding remove_loop
  remove cmp leaf = (leaf, false)
  remove cmp (node red x l r) =
      let (t, found) = remove_loop cmp [] (node red x l r) in (with_color false t, found)
