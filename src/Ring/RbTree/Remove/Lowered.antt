-- ===== src/Ring/RbTree/Remove/Lowered.antt =====
-- Where the loop of `remove` stands, and how a node that it passes gets red from above.
use ringpop_node.Common.{
  ℕ, suc, ◌≡◌, refl, sym, subst, ◌⊎◌, inl, inr, Bool, true, false, not, ◌&&◌, List, [], ◌∷◌,
  if◌then◌else◌, arith,
}
use ringpop_node.Ring.RbTree.{Tree, leaf, node, Frame, is_red, get_child, with_color, parent_red}
use ringpop_node.Ring.RbTree.Colors.{
  ByColor, IsRb, IsRbPath, IsRb-branch, is_red-branch, is_red-black,
}
use ringpop_node.Ring.RbTree.Remove.{rotate_up, borrow, new_frame}

module _ {E : Type 0} where
  -- The parent was pushed down red, or is the root, and the sibling is black.
  abbrev pub IsLowered : List (Frame E) → Type 0
  IsLowered [] = ⊥
  IsLowered (f ∷ path) = (is_red f.other ≡ false) × ((f.red ≡ true) ⊎ (path ≡ []))

  -- Where the loop stands: at the root, at a red node, or below a lowered parent.
  pub record CanRemove (path : List (Frame E)) (t : Tree E) : Type 0 where
    pub blacks : ℕ
    pub tree : IsRb blacks t
    pub way : IsRbPath blacks path
    pub link : (is_red t && parent_red path) ≡ false
    pub pushed : (path ≡ []) ⊎ ((is_red t ≡ true) ⊎ IsLowered path)

  -- The way above a lowered parent, which is as good as red.
  pub above_lowered :
      (n : ℕ) (f : Frame E) (path : List (Frame E))
      → IsRbPath n (f ∷ path)
      → (f.red ≡ true) ⊎ (path ≡ [])
      → IsRb n f.other × IsRbPath n path × (parent_red path ≡ false)
  above_lowered n f path way h = let (rest, p) = go f.red way.1 h in (way.0, rest, p)
    where
      go :
          (red : Bool)
          → ByColor red
              ((is_red f.other ≡ false) × (parent_red path ≡ false) × IsRbPath n path)
              (IsRbPath (suc n) path)
          → (red ≡ true) ⊎ (path ≡ [])
          → IsRbPath n path × (parent_red path ≡ false)
      go true (b, p, rest) h = (rest, p)
      go false rest (inl e) = absurd (ground (arith, e))
      go false rest (inr e) = subst (λ p. IsRbPath n p × (parent_red p ≡ false)) (sym e) (tt, refl)

  pub get_child-IsRb :
      (n : ℕ) (dir : Bool) (x : E) (a b : Tree E)
      → IsRb n a
      → IsRb n b
      → IsRb n (get_child dir (node true x a b)) × IsRb n (get_child (not dir) (node true x a b))
  get_child-IsRb n true x a b h k = (k, h)
  get_child-IsRb n false x a b h k = (h, k)

  pub get_child_black :
      (dir : Bool) (x : E) (a b : Tree E)
      → is_red a ≡ false
      → is_red b ≡ false
      → (is_red (get_child dir (node true x a b)) ≡ false)
        × (is_red (get_child (not dir) (node true x a b)) ≡ false)
  get_child_black true x a b h k = (k, h)
  get_child_black false x a b h k = (h, k)

  pub red_up : (n : ℕ) (t : Tree E) → IsRb n t → is_red t ≡ true → IsRb (suc n) (with_color false t)
  red_up n leaf h k = absurd (ground (arith, k))
  red_up n (node true x l r) h k = (h.0, h.1)
  red_up n (node false x l r) h k = absurd (ground (arith, k))

  -- The way to a node that became red, after the sibling's rotation.
  pub rotate_up-IsRbPath :
      (m : ℕ) (f : Frame E) (path : List (Frame E)) (s : E) (near far : Tree E)
      → IsRb m near
      → IsRb m far
      → (is_red near ≡ true) ⊎ (is_red far ≡ true)
      → IsRbPath (suc m) path
      → parent_red path ≡ false
      → IsRbPath m (rotate_up f path s near far)
        × (parent_red (rotate_up f path s near far) ≡ false)
  unfolding rotate_up new_frame
  rotate_up-IsRbPath m f path s (node true t a b) far h k some_red way top =
      let (c, d) = get_child-IsRb m f.dir t a b h.0 h.1 in
      (
        (
          c,
          (
            (IsRb-branch m f.dir s (get_child (not f.dir) (node true t a b)) far d k).0,
            (is_red-branch f.dir false s (get_child (not f.dir) (node true t a b)) far, top, way),
          ),
        ),
        refl,
      )
  rotate_up-IsRbPath m f path s leaf far h k some_red way top =
      ((h, (red_up m far k (ground (arith, some_red)), (is_red-black far, top, way))), refl)
  rotate_up-IsRbPath m f path s (node false t a b) far h k some_red way top =
      ((h, (red_up m far k (ground (arith, some_red)), (is_red-black far, top, way))), refl)

  abbrev pub Borrowed : ℕ → List (Frame E) × Bool → Type 0
  Borrowed m (path, red) = IsRbPath m path × (parent_red path ≡ false) × (red ≡ true)

  pub borrow_children :
      (m : ℕ) (f : Frame E) (path : List (Frame E)) (s : E) (a b near far : Tree E)
      → IsRb m near
      → IsRb m far
      → IsRbPath (suc m) path
      → parent_red path ≡ false
      → ((is_red near ≡ false) → (is_red far ≡ false) → IsRb m (node true s a b))
      → Borrowed m (
          if not (is_red far) && not (is_red near)
          then (record f { red = false; other = node true s a b } ∷ path, true)
          else (rotate_up f path s near far, true))
  borrow_children m f path s a b near far h k way top whole =
      go (not (is_red far) && not (is_red near)) refl
    where
      go :
          (both : Bool)
          → (not (is_red far) && not (is_red near)) ≡ both
          → Borrowed m (
              if both
              then (record f { red = false; other = node true s a b } ∷ path, true)
              else (rotate_up f path s near far, true))
      go true both = ((whole (ground (arith, both)) (ground (arith, both)), way), refl, refl)
      go false both =
          let (up, black) =
            rotate_up-IsRbPath m f path s near far h k (some_red (is_red near) (is_red far) both)
              way top in
          (up, black, refl)
        where
          some_red : (n f : Bool) → (not f && not n) ≡ false → (n ≡ true) ⊎ (f ≡ true)
          some_red true f e = inl refl
          some_red false true e = inr refl
          some_red false false e = absurd (ground (arith, e))

  pub borrow-IsRbPath :
      (m : ℕ) (f : Frame E) (path : List (Frame E)) (t : Tree E)
      → IsRb (suc m) t
      → is_red t ≡ false
      → IsRbPath (suc m) path
      → parent_red path ≡ false
      → Borrowed m (borrow f path t)
  unfolding borrow
  borrow-IsRbPath m f path leaf h black way top = absurd (ground (arith, h))
  borrow-IsRbPath m f path (node true s a b) h black way top = absurd (ground (arith, black))
  borrow-IsRbPath m f path (node false s a b) h black way top = go f.dir
    where
      go :
          (dir : Bool)
          → Borrowed m (
              if not (is_red (get_child (not dir) (node false s a b)))
                && not (is_red (get_child dir (node false s a b)))
              then (record f { red = false; other = node true s a b } ∷ path, true)
              else (
                rotate_up f path s
                    (get_child dir (node false s a b))
                    (get_child (not dir) (node false s a b)),
                true,
              ))
      go true = borrow_children m f path s a b b a h.1 h.0 way top (λ x y. (h.0, h.1, y, x))
      go false = borrow_children m f path s a b a b h.0 h.1 way top (λ x y. (h.0, h.1, x, y))
