-- ===== src/Ring/RbTree.antt =====
-- lib/ring/rbtree.js: the tree, its rotations and the way from the root to the node that a loop
-- stands at. An entry is a node's key and value. A direction is `true` for right, as in `getChild`.
--
-- The loops of the source walk down and keep references to the last nodes that they passed. Here the
-- nodes that were passed are frames, nearest first: a frame is such a node without the child that the loop went to.
pub mod Insert
pub mod Colors
pub mod Remove
pub mod Cursor
use ringpop_node.Common.{
  ℕ, zero, suc, ◌+◌, Bool, true, false, not, ◌&&◌, ◌||◌, List, [], ◌∷◌, ◌++◌, Option, none, some,
  if◌then◌else◌, ◌≡◌, refl, ap, ◌∙◌, sym,
}
use mathlib.Core.List.{append_assoc, append-nil}

pub data Tree (E : Type 0) : Type 0 where
  leaf : Tree E
  node : Bool → E → Tree E → Tree E → Tree E

-- `found` marks the node that `remove` is to splice out.
pub record Frame (E : Type 0) : Type 0 where
  pub dir : Bool
  pub red : Bool
  pub found : Bool
  pub entry : E
  pub other : Tree E

module _ {E : Type 0} where
  abbrev pub is_red : Tree E → Bool
  is_red leaf = false
  is_red (node red e l r) = red

  abbrev pub get_child : Bool → Tree E → Tree E
  get_child dir leaf = leaf
  get_child true (node red e l r) = r
  get_child false (node red e l r) = l

  -- A node by its child in a direction and its other child.
  abbrev pub branch : Bool → Bool → E → Tree E → Tree E → Tree E
  branch true red e child other = node red e other child
  branch false red e child other = node red e child other

  abbrev pub with_color : Bool → Tree E → Tree E
  with_color red leaf = leaf
  with_color red (node _ e l r) = node red e l r

  -- The tree in which the loop stands at a subtree.
  abbrev pub rebuild : List (Frame E) → Tree E → Tree E
  rebuild [] t = t
  rebuild (f ∷ path) t = rebuild path (branch f.dir f.red f.entry t f.other)

  abbrev pub parent_red : List (Frame E) → Bool
  parent_red [] = false
  parent_red (f ∷ path) = f.red

  -- The entries in order, and those before and after the subtree at the end of a path.
  abbrev pub in_order : Tree E → List E
  in_order leaf = []
  in_order (node red e l r) = in_order l ++ e ∷ in_order r

  abbrev pub entries_left : List (Frame E) → List E
  entries_left [] = []
  entries_left (f ∷ path) =
      if f.dir then entries_left path ++ (in_order f.other ++ f.entry ∷ []) else entries_left path

  abbrev pub entries_right : List (Frame E) → List E
  entries_right [] = []
  entries_right (f ∷ path) =
      if f.dir then entries_right path else f.entry ∷ (in_order f.other ++ entries_right path)

  pub in_order-rebuild :
      (path : List (Frame E)) (t : Tree E)
      → in_order (rebuild path t) ≡ entries_left path ++ (in_order t ++ entries_right path)
  in_order-rebuild [] t = sym (append-nil (in_order t))
  in_order-rebuild (f ∷ path) t =
      in_order-rebuild path (branch f.dir f.red f.entry t f.other) ∙ turn f.dir
    where
      turn :
          (dir : Bool)
          → entries_left path
              ++ (in_order (branch dir f.red f.entry t f.other) ++ entries_right path)
            ≡ (if dir
                then entries_left path ++ (in_order f.other ++ f.entry ∷ [])
                else entries_left path)
              ++ (in_order t
                  ++ (if dir
                      then entries_right path
                      else f.entry ∷ (in_order f.other ++ entries_right path)))
      turn true = simp (append_assoc)
      turn false = simp (append_assoc)

  -- How the entries stand when the loop goes right, left, or stops at an entry.
  pub step_right :
      (as' bs cs ds : List E) (x : E)
      → (as' ++ (bs ++ x ∷ [])) ++ (cs ++ ds) ≡ as' ++ ((bs ++ x ∷ cs) ++ ds)
  step_right as' bs cs ds x = simp (append_assoc)

  pub step_left :
      (as' bs cs ds : List E) (x : E)
      → as' ++ (bs ++ x ∷ (cs ++ ds)) ≡ as' ++ ((bs ++ x ∷ cs) ++ ds)
  step_left as' bs cs ds x = simp (append_assoc)

  pub around_entry :
      (as' bs cs ds : List E) (x : E)
      → as' ++ ((bs ++ x ∷ cs) ++ ds) ≡ (as' ++ bs) ++ x ∷ (cs ++ ds)
  around_entry as' bs cs ds x = simp (append_assoc)

  pub in_order-with_color : (red : Bool) (t : Tree E) → in_order (with_color red t) ≡ in_order t
  in_order-with_color red leaf = refl
  in_order-with_color red (node c e l r) = refl
