-- ===== src/Ring/RbTree/Cursor.antt =====
-- lib/ring/rbtree.js: `lowerBound`, `upperBound`, `min` and the iterator.
--
-- The ancestors of the cursor are frames, nearest first. A missing cursor is a leaf. `this.cursor.right
-- === save` is the direction in which the ancestor was passed.
pub mod Walk
pub mod Bounds
use Prim.Native.Nat.{Ordering}
use Prim.Native.Nat.Ordering.{lt, eq, gt}
use ringpop_node.Common.{
  ℕ, zero, suc, Bool, true, false, List, [], ◌∷◌, ◌++◌, length, Option, none, some, if◌then◌else◌,
}
use ringpop_node.Ring.RbTree.{Tree, leaf, node, Frame, branch, in_order, entries_right}

pub record Iterator (E : Type 0) : Type 0 where
  pub tree : Tree E
  pub ancestors : List (Frame E)
  pub cursor : Tree E

module _ {E : Type 0} where
  unfoldable pub iterator : Tree E → Iterator E
  iterator t = record { tree = t; ancestors = []; cursor = leaf }

  abbrev pub entry_of : Tree E → Option E
  entry_of leaf = none
  entry_of (node red x l r) = some x

  abbrev pub key : Iterator E → Option E
  key it = entry_of it.cursor

  passed : Bool → Bool → E → Tree E → Frame E
  passed dir red x other = record { dir = dir; red = red; found = false; entry = x; other = other }

  unfoldable pub min_node : Tree E → List (Frame E) → List (Frame E) × Tree E
  unfolding passed
  min_node leaf path = (path, leaf)
  min_node (node red x leaf r) path = (path, node red x leaf r)
  min_node (node red x (node c y a b) r) path =
      min_node (node c y a b) (passed false red x r ∷ path)

  -- "no greater node in subtree, go up to parent".
  unfoldable pub go_up : List (Frame E) → Tree E → List (Frame E) × Tree E
  go_up [] t = ([], leaf)
  go_up (f ∷ path) t =
      let parent = branch f.dir f.red f.entry t f.other in
      let above = go_up path parent in if f.dir then above else (path, parent)

  step_from : Tree E → List (Frame E) → Tree E → List (Frame E) × Tree E
  unfolding min_node go_up passed
  step_from root path leaf = min_node root path
  step_from root path (node red x l leaf) = go_up path (node red x l leaf)
  step_from root path (node red x l (node c y a b)) =
      min_node (node c y a b) (passed true red x l ∷ path)

  unfoldable pub next : Iterator E → Iterator E
  unfolding step_from
  next it =
      let (path, t) = step_from it.tree it.ancestors it.cursor in
      record it { ancestors = path; cursor = t }

  -- The loop back over the ancestors; `cmp x` is `comparator(key, x.key)`.
  unfoldable pub go_back : (E → Ordering) → List (Frame E) → Tree E → List (Frame E) × Tree E
  go_back cmp [] t = ([], leaf)
  go_back cmp (f ∷ path) t =
      let parent = branch f.dir f.red f.entry t f.other in
      let above = go_back cmp path parent in elim (cmp f.entry) [ lt ↦ (path, parent) | _ ↦ above ]

  unfoldable pub find_from : (E → Ordering) → List (Frame E) → Tree E → List (Frame E) × Tree E
  unfolding go_back passed
  find_from cmp path leaf = go_back cmp path leaf
  find_from cmp path (node red x l r) = elim (cmp x) [
    | eq ↦ (path, node red x l r)
    | gt ↦ find_from cmp (passed true red x l ∷ path) r
    | lt ↦ find_from cmp (passed false red x r ∷ path) l
  ]

  unfoldable pub lower_bound : (E → Ordering) → Tree E → Iterator E
  unfolding find_from iterator
  lower_bound cmp t =
      let (path, cursor) = find_from cmp [] t in
      record (iterator t) { ancestors = path; cursor = cursor }

  -- The loop of `upperBound`; `after x` is `comparator(x.key, key)`.
  unfoldable pub advance : (E → Ordering) → ℕ → Iterator E → Option (Iterator E)
  unfolding next
  advance after zero it = none
  advance after (suc fuel) it =
      let rest = advance after fuel (next it) in
      elim (key it) [ none ↦ some it | some x ↦ elim (after x) [ lt ↦ rest | _ ↦ some it ] ]

  unfoldable pub upper_bound : (E → Ordering) → (E → Ordering) → Tree E → Option (Iterator E)
  unfolding lower_bound advance
  upper_bound cmp after t = advance after (suc (length (in_order t))) (lower_bound cmp t)

  unfoldable pub min_entry : Tree E → Option E
  min_entry leaf = none
  min_entry (node red x leaf r) = some x
  min_entry (node red x (node c y a b) r) = min_entry (node c y a b)
