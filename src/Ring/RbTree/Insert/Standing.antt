-- ===== src/Ring/RbTree/Insert/Standing.antt =====
-- Where the loop of `insert` can stand.
use Prim.Native.Nat.{Ordering}
use Prim.Native.Nat.Ordering.{lt, gt}
use ringpop_node.Common.{
  ℕ, zero, suc, ◌+◌, ◌*◌, ◌≤◌, ◌≡◌, ◌⊎◌, Bool, true, false, not, ◌&&◌, List, [], ◌∷◌, Option, none,
  some,
}
use ringpop_node.Ring.RbTree.{Tree, leaf, node, Frame, is_red, parent_red}
use ringpop_node.Ring.RbTree.Colors.{IsRb, IsRbPath}
use ringpop_node.Ring.RbTree.Insert.{Round, stop, descend, height}

module _ {E : Type 0} where
  -- A black node that has not two red children: a round passes it without a change.
  abbrev pub is_calm : Tree E → Bool
  is_calm leaf = false
  is_calm (node red x l r) = not red && not (is_red l && is_red r)

  -- The parent is there and black, and so is the sibling.
  abbrev pub black_around : List (Frame E) → Bool
  black_around [] = false
  black_around (f ∷ path) = not f.red && not (is_red f.other)

  -- Below a red parent: the grandparent is there, and the parent's sibling is black.
  abbrev pub has_uncle : List (Frame E) → Bool
  has_uncle [] = false
  has_uncle (p ∷ path) = black_around path

  -- Where the loop can stand, with so many rounds left.
  pub record IsReady (fuel : ℕ) (path : List (Frame E)) (t : Tree E) : Type 0 where
    pub blacks : ℕ
    pub tree : IsRb blacks t
    pub way : IsRbPath blacks path
    pub red_node : (is_red t ≡ false) ⊎ (black_around path ≡ true)
    pub red_parent : (parent_red path ≡ false) ⊎ (has_uncle path ≡ true)
    pub enough : 2 * height t + 1 ≤ fuel

  pub record IsPassed (fuel : ℕ) (path : List (Frame E)) (t : Tree E) : Type 0 where
    pub blacks : ℕ
    pub tree : IsRb blacks t
    pub way : IsRbPath blacks path
    pub calm : is_calm t ≡ true
    pub enough : 2 * height t + 1 ≤ fuel

  -- After a double rotation the loop goes back to a red node, whose child on the way is calm.
  pub record IsTurned (cmp : E → Ordering) (fuel : ℕ) (path : List (Frame E)) (t : Tree E)
      : Type 0 where
    pub blacks : ℕ
    pub entry : E
    pub left : Tree E
    pub right : Tree E
    pub shape : t ≡ node true entry left right
    pub lefts : IsRb blacks left
    pub rights : IsRb blacks right
    pub reds : (is_red left ≡ false) × (is_red right ≡ false)
    pub way : IsRbPath blacks path
    pub parent : parent_red path ≡ false
    pub on :
        ((cmp entry ≡ lt) × (is_calm right ≡ true) × (2 * height right + 2 ≤ fuel))
        ⊎ ((cmp entry ≡ gt) × (is_calm left ≡ true) × (2 * height left + 2 ≤ fuel))

  abbrev pub CanGo : (E → Ordering) → ℕ → ℕ → List (Frame E) → Tree E → Type 0
  CanGo cmp fuel zero path t = IsReady fuel path t ⊎ IsPassed fuel path t
  CanGo cmp fuel (suc zero) path t = IsPassed fuel path t
  CanGo cmp fuel (suc (suc zero)) path t = IsTurned cmp fuel path t
  CanGo cmp fuel (suc (suc (suc n))) path t = ⊥

  -- A round that ends with a red-black tree, or goes on where the loop can stand.
  abbrev pub GoesOn : (E → Ordering) → ℕ → Option (Round E) → Type 0
  GoesOn cmp fuel none = ⊥
  GoesOn cmp fuel (some (stop t made)) = (m : ℕ) × IsRb m t
  GoesOn cmp fuel (some (descend stale path t)) = CanGo cmp fuel stale path t
