-- ===== src/Ring/RbTree/Colors.antt =====
-- The colors of a red-black tree: no red node has a red child, and every way down from a node passes
-- the same number of black nodes.
use ringpop_node.Common.{ℕ, zero, suc, ◌≡◌, refl, Bool, true, false, ◌&&◌, List, [], ◌∷◌, arith}
use ringpop_node.Ring.RbTree.{
  Tree, leaf, node, Frame, is_red, branch, with_color, rebuild, parent_red,
}

abbrev pub ByColor : Bool → Type 0 → Type 0 → Type 0
ByColor true Red Black = Red
ByColor false Red Black = Black

module _ {E : Type 0} where
  -- A tree with so many black nodes on every way down.
  abbrev pub IsRb : ℕ → Tree E → Type 0
  IsRb n leaf = n ≡ 0
  IsRb n (node true x l r) = IsRb n l × IsRb n r × (is_red l ≡ false) × (is_red r ≡ false)
  IsRb zero (node false x l r) = ⊥
  IsRb (suc n) (node false x l r) = IsRb n l × IsRb n r

  -- A way down to a subtree that has so many black nodes.
  abbrev pub IsRbPath : ℕ → List (Frame E) → Type 0
  IsRbPath n [] = Unit
  IsRbPath n (f ∷ path) =
      IsRb n f.other
      × ByColor f.red ((is_red f.other ≡ false) × (parent_red path ≡ false) × IsRbPath n path)
          (IsRbPath (suc n) path)

  pub IsRb-branch :
      (n : ℕ) (dir : Bool) (x : E) (t u : Tree E)
      → IsRb n t
      → IsRb n u
      → IsRb (suc n) (branch dir false x t u)
        × ((is_red t ≡ false) → (is_red u ≡ false) → IsRb n (branch dir true x t u))
  IsRb-branch n true x t u h k = ((k, h), λ a b. (k, h, b, a))
  IsRb-branch n false x t u h k = ((h, k), λ a b. (h, k, a, b))

  pub is_red-branch : (dir red : Bool) (x : E) (t u : Tree E) → is_red (branch dir red x t u) ≡ red
  is_red-branch true red x t u = refl
  is_red-branch false red x t u = refl

  -- The tree of a way down, whose end is no red node under a red one.
  pub IsRb-rebuild :
      (n : ℕ) (path : List (Frame E)) (t : Tree E)
      → IsRb n t
      → IsRbPath n path
      → (is_red t && parent_red path) ≡ false
      → (m : ℕ) × IsRb m (rebuild path t)
  IsRb-rebuild n [] t h k c = (n, h)
  IsRb-rebuild n (f ∷ path) t h k c = go f.red k c (λ m u. IsRb-rebuild m path u)
    where
      go :
          (red : Bool)
          → IsRb n f.other
            × ByColor red
                ((is_red f.other ≡ false) × (parent_red path ≡ false) × IsRbPath n path)
                (IsRbPath (suc n) path)
          → (is_red t && red) ≡ false
          → ((m : ℕ) (u : Tree E)
              → IsRb m u
              → IsRbPath m path
              → (is_red u && parent_red path) ≡ false
              → (m' : ℕ) × IsRb m' (rebuild path u))
          → (m : ℕ) × IsRb m (rebuild path (branch f.dir red f.entry t f.other))
      go true (o, (b, p, rest)) c up =
          up n (branch f.dir true f.entry t f.other)
            ((IsRb-branch n f.dir f.entry t f.other h o).1 (ground (arith, c)) b) rest
            (ground (arith, p))
      go false (o, rest) c up =
          up (suc n) (branch f.dir false f.entry t f.other)
            (IsRb-branch n f.dir f.entry t f.other h o).0 rest
            (ground (arith, is_red-branch f.dir false f.entry t f.other))

  -- A black root makes the tree a red-black tree again.
  pub IsRb-black : (n : ℕ) (t : Tree E) → IsRb n t → (m : ℕ) × IsRb m (with_color false t)
  IsRb-black n leaf h = (n, h)
  IsRb-black n (node true x l r) h = (suc n, (h.0, h.1))
  IsRb-black (suc n) (node false x l r) h = (suc n, h)
  IsRb-black zero (node false x l r) h = absurd h

  -- A red-black tree, whose root is black.
  abbrev pub IsRbTree : Tree E → Type 0
  IsRbTree t = ((n : ℕ) × IsRb n t) × (is_red t ≡ false)

  pub is_red-black : (t : Tree E) → is_red (with_color false t) ≡ false
  is_red-black leaf = refl
  is_red-black (node red x l r) = refl
