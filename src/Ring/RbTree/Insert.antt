-- ===== src/Ring/RbTree/Insert.antt =====
-- lib/ring/rbtree.js: `insert`.
pub mod InOrder
pub mod Standing
pub mod Plain
pub mod Violated
pub mod Flipped
pub mod Ready
pub mod Total
use ringpop_node.Common.{
  ℕ, zero, suc, ◌+◌, ◌*◌, ◌-◌, Bool, true, false, not, ◌&&◌, ◌||◌, List, [], ◌∷◌, ◌++◌, Option,
  none, some, if◌then◌else◌, ◌≡◌, refl, ap, ◌∙◌, sym, ◌==◌,
}
use Prim.Native.Nat.{Ordering, max}
use Prim.Native.Nat.Ordering.{lt, eq, gt}
use ringpop_node.Ring.RbTree.{
  Tree, leaf, node, Frame, is_red, get_child, branch, with_color, rebuild, parent_red, in_order,
  entries_left, entries_right, in_order-rebuild,
}

-- How a round of the loop ends: with the tree and whether a node was made, or at a child.
pub data Round (E : Type 0) : Type 0 where
  stop : Tree E → Bool → Round E
  descend : ℕ → List (Frame E) → Tree E → Round E

same_dir : Bool → Bool → Bool
same_dir true b = b
same_dir false b = not b

module _ {E : Type 0} where
  -- A missing node is made, and a node with two red children flips its color with theirs. The flag
  -- tells whether the node is new.
  unfoldable pub place : E → Tree E → Tree E × Bool
  place e leaf = (node true e leaf leaf, true)
  place e (node red x l r) =
      if is_red l && is_red r
      then (node true x (with_color false l) (with_color false r), false)
      else (node red x l r, false)

  -- The rotations that repair a red node under a red parent. After one, the source's `gp` and
  -- `ggp` name nodes that are no longer above the node: for one more round after a single rotation,
  -- for two after a double one. `none` stands for a repair with such references, or without a
  -- grandparent.
  unfoldable pub repair : ℕ → List (Frame E) → Tree E → Option (List (Frame E) × Tree E × ℕ)
  unfolding same_dir
  repair zero (p ∷ g ∷ path) (node red x l r) =
      if same_dir p.dir g.dir
      then some (
        record p { red = false; other = branch g.dir true g.entry p.other g.other } ∷ path,
        node red x l r,
        1,
      )
      else some (
        path,
        branch g.dir false x (branch g.dir true p.entry p.other (get_child g.dir (node red x l r)))
            (branch g.dir true g.entry (get_child (not g.dir) (node red x l r)) g.other),
        2,
      )
  repair _ _ _ = none

  -- One round of the loop up to the comparison; the number is how many rounds the references
  -- stay unusable.
  unfoldable pub fix : ℕ → List (Frame E) → Tree E → Option (List (Frame E) × Tree E × ℕ)
  unfolding repair
  fix stale path t =
      if is_red t && parent_red path then repair stale path t else some (path, t, stale - 1)

  unfoldable pub step_frame : Bool → Bool → E → Tree E → Frame E
  step_frame dir red x other = record {
    dir = dir;
    red = red;
    found = false;
    entry = x;
    other = other;
  }

  -- The comparison at a node that is not new; `cmp x` is `comparator(x.key, key)`.
  unfoldable pub go_down : (E → Ordering) → ℕ → List (Frame E) → Tree E → Option (Round E)
  unfolding step_frame
  go_down cmp stale path leaf = none
  go_down cmp stale path (node red x l r) = elim (cmp x) [
    | eq ↦ some (stop (rebuild path (node red x l r)) false)
    | lt ↦ some (descend stale (step_frame true red x l ∷ path) r)
    | gt ↦ some (descend stale (step_frame false red x r ∷ path) l)
  ]

  -- One round of the loop. The comparator gives 0 for a key and itself, so that a new node is the last.
  unfoldable pub round : (E → Ordering) → E → ℕ → List (Frame E) → Tree E → Option (Round E)
  unfolding place fix go_down
  round cmp e stale path t = elim (fix stale path (place e t).0) [
    | none ↦ none
    | some (path', t', stale') ↦ elim (place e t).1 [
      | true ↦ some (stop (rebuild path' t') true)
      | false ↦ go_down cmp stale' path' t'
    ]
  ]

  unfoldable pub insert_loop :
      (E → Ordering) → E → ℕ → ℕ → List (Frame E) → Tree E → Option (Tree E × Bool)
  unfolding round
  insert_loop cmp e zero stale path t = none
  insert_loop cmp e (suc fuel) stale path t = elim (round cmp e stale path t) [
    | none ↦ none
    | some (stop t' made) ↦ some (t', made)
    | some (descend stale' path' t') ↦ insert_loop cmp e fuel stale' path' t'
  ]

  abbrev pub height : Tree E → ℕ
  height leaf = 0
  height (node red x l r) = suc (max (height l) (height r))

  -- `insert`: the tree, with a black root, and whether a node was made.
  unfoldable pub insert : (E → Ordering) → E → Tree E → Option (Tree E × Bool)
  unfolding insert_loop
  insert cmp e leaf = some (node false e leaf leaf, true)
  insert cmp e (node red x l r) =
      elim (insert_loop cmp e (3 * suc (height (node red x l r))) 0 [] (node red x l r)) [
        | none ↦ none
        | some (t, made) ↦ some (with_color false t, made)
      ]
