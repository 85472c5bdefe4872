-- ===== src/Ring/RbTree/Remove/Colored.antt =====
-- `remove` keeps the colors of a red-black tree.
use Prim.Native.Nat.{Ordering}
use Prim.Native.Nat.Ordering.{lt, eq, gt}
use ringpop_node.Common.{
  ℕ, suc, ◌≡◌, refl, sym, subst, ◌∙◌, inl, inr, Bool, true, false, List, [], ◌∷◌, if◌then◌else◌,
  arith,
}
use ringpop_node.Ring.RbTree.{Tree, leaf, node, Frame, is_red, rebuild, parent_red}
use ringpop_node.Ring.RbTree.Colors.{
  ByColor, IsRb, IsRbPath, IsRb-rebuild, IsRb-black, IsRbTree, is_red-black,
}
use ringpop_node.Ring.RbTree.Remove.{
  push, replace_found, any_found, spliced, splice, remove_loop, remove,
}
use ringpop_node.Ring.RbTree.Remove.InOrder.{spliced_lem}
use ringpop_node.Ring.RbTree.Remove.Lowered.{CanRemove, above_lowered}
use ringpop_node.Ring.RbTree.Remove.Pushed.{push-CanRemove}

module _ {E : Type 0} where
  replace_found-IsRbPath :
      (n : ℕ) (e : E) (path : List (Frame E))
      → IsRbPath n path
      → IsRbPath n (replace_found e path) × (parent_red (replace_found e path) ≡ parent_red path)
  unfolding replace_found
  replace_found-IsRbPath n e [] h = (tt, refl)
  replace_found-IsRbPath n e (f ∷ path) h =
      go f.found f.red h (λ m way. replace_found-IsRbPath m e path way)
    where
      go :
          (found red : Bool)
          → IsRb n f.other
            × ByColor red
                ((is_red f.other ≡ false) × (parent_red path ≡ false) × IsRbPath n path)
                (IsRbPath (suc n) path)
          → ((m : ℕ)
              → IsRbPath m path
              → IsRbPath m (replace_found e path)
                × (parent_red (replace_found e path) ≡ parent_red path))
          → IsRbPath n (
              if found
              then record f { red = red; entry = e } ∷ path
              else record f { red = red } ∷ replace_found e path)
            × (parent_red (
                  if found
                  then record f { red = red; entry = e } ∷ path
                  else record f { red = red } ∷ replace_found e path)
                ≡ red)
      go true red h rest = (h, refl)
      go false true h rest =
          let (way, top) = rest n h.1.2 in ((h.0, (h.1.0, top ∙ h.1.1, way)), refl)
      go false false h rest = ((h.0, (rest (suc n) h.1).0), refl)

  spliced_out :
      (n : ℕ) (f : Frame E) (path : List (Frame E))
      → IsRb n f.other
      → is_red f.other ≡ false
      → IsRbPath n path
      → (m : ℕ) × IsRb m (rebuild path (spliced f))
  spliced_out n f path h black way =
      subst (λ t. (m : ℕ) × IsRb m (rebuild path t)) (sym (spliced_lem f))
        (IsRb-rebuild n path f.other h way (ground (arith, black)))

  splice-IsRb : (path : List (Frame E)) → CanRemove path leaf → (m : ℕ) × IsRb m (splice path).0
  unfolding splice
  splice-IsRb [] can = (0, refl)
  splice-IsRb (f ∷ path) can = elim can.pushed [
    | inl e ↦ absurd (ground (arith, e))
    | inr (inl e) ↦ absurd (ground (arith, e))
    | inr (inr low) ↦
        go (above_lowered can.blacks f path can.way low.1) low.0 f.found (any_found path)
  ]
    where
      go :
          IsRb can.blacks f.other × IsRbPath can.blacks path × (parent_red path ≡ false)
          → is_red f.other ≡ false
          → (found any : Bool)
          → (m : ℕ) × IsRb m
              (if◌then◌else◌ {A = Tree E × Bool} found
                (rebuild path (spliced f), true)
                (if any
                  then (rebuild (replace_found f.entry path) (spliced f), true)
                  else (rebuild (f ∷ path) leaf, false))).0
      go (h, way, top) black true any = spliced_out can.blacks f path h black way
      go (h, way, top) black false true =
          spliced_out can.blacks f (replace_found f.entry path) h black
            (replace_found-IsRbPath can.blacks f.entry path way).0
      go (h, way, top) black false false =
          IsRb-rebuild can.blacks (f ∷ path) leaf can.tree can.way can.link

  remove_loop-IsRb :
      (cmp : E → Ordering) (t : Tree E) (path : List (Frame E))
      → CanRemove path t
      → (m : ℕ) × IsRb m (remove_loop cmp path t).0
  unfolding remove_loop
  remove_loop-IsRb cmp leaf path can = splice-IsRb path can
  remove_loop-IsRb cmp (node red x l r) path can =
      go (cmp x)
        (remove_loop-IsRb cmp r (push true false path red x r l)
          (push-CanRemove true false red path x r l can))
        (remove_loop-IsRb cmp l (push false true path red x l r)
          (push-CanRemove false true red path x l r can))
        (remove_loop-IsRb cmp l (push false false path red x l r)
          (push-CanRemove false false red path x l r can))
    where
      Rb : Tree E × Bool → Type 0
      Rb (t, removed) = (m : ℕ) × IsRb m t

      go :
          (o : Ordering)
          → Rb (remove_loop cmp (push true false path red x r l) r)
          → Rb (remove_loop cmp (push false true path red x l r) l)
          → Rb (remove_loop cmp (push false false path red x l r) l)
          → Rb (elim o [
            | gt ↦ remove_loop cmp (push true false path red x r l) r
            | eq ↦ remove_loop cmp (push false true path red x l r) l
            | lt ↦ remove_loop cmp (push false false path red x l r) l
          ])
      go gt right here left = right
      go eq right here left = here
      go lt right here left = left

  -- Removing from a red-black tree leaves a red-black tree, whether the key is in it or not, and
  -- whatever order the comparisons show.
  pub remove-IsRbTree : (cmp : E → Ordering) (t : Tree E) → IsRbTree t → IsRbTree (remove cmp t).0
  unfolding remove
  remove-IsRbTree cmp leaf h = h
  remove-IsRbTree cmp (node red x l r) ((n, h), black) =
      let (m, k) = remove_loop-IsRb cmp (node red x l r) [] (record {
        blacks = n;
        tree = h;
        way = tt;
        link = ground (arith, black);
        pushed = inl refl;
      }) in
      (
        IsRb-black m (remove_loop cmp [] (node red x l r)).0 k,
        is_red-black (remove_loop cmp [] (node red x l r)).0,
      )
