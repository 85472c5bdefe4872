-- ===== src/Ring/RbTree/Insert/Flipped.antt =====
-- A round that flips colors or makes the new node.
use Prim.Native.Nat.{Ordering, max}
use Prim.Native.Nat.Ordering.{lt, gt}
use ringpop_node.Common.{
  ℕ, suc, ◌+◌, ◌*◌, ◌≤◌, ◌≡◌, refl, sym, ap, subst, ◌∙◌, ◌⊎◌, inl, inr, true, false, List, [], ◌∷◌,
  Option, none, some, arith, Bool-cases, if◌then◌else◌,
}
use ringpop_node.Ring.RbTree.{
  Tree, leaf, node, Frame, is_red, branch, with_color, rebuild, parent_red,
}
use ringpop_node.Ring.RbTree.Colors.{IsRb, IsRbPath, IsRb-rebuild}
use ringpop_node.Ring.RbTree.Insert.InOrder.{IsPlaced}
use ringpop_node.Ring.RbTree.Insert.{stop, place, repair, fix, step_frame, go_down, round, height}
use ringpop_node.Ring.RbTree.Insert.Standing.{is_calm, has_uncle, IsReady, GoesOn}
use ringpop_node.Ring.RbTree.Insert.Plain.{go_down_cases}
use ringpop_node.Ring.RbTree.Insert.Violated.{
  IsViolated, violated, repair_cases, outer-IsRbPath, made-GoesOn, inner-GoesOn,
}

module _ {E : Type 0} where
  module _ (cmp : E → Ordering) (e : E) where
    -- A node whose color was flipped, repaired.
    pub flipped-GoesOn :
        (fuel n : ℕ) (p g : Frame E) (path : List (Frame E)) (x : E) (l r : Tree E)
        → IsViolated cmp e n p g path
        → IsRb n l
        → IsRb n r
        → is_calm l ≡ true
        → is_calm r ≡ true
        → (is_red l ≡ false) × (is_red r ≡ false)
        → 2 * suc (max (height l) (height r)) + 1 ≤ suc fuel
        → GoesOn cmp fuel (elim (repair 0 (p ∷ g ∷ path) (node true x l r)) [
          | none ↦ none
          | some (path', t', stale') ↦ go_down cmp stale' path' t'
        ])
    flipped-GoesOn fuel n p g path x l r v hl hr cl cr reds le =
        repair_cases cmp e
          (λ fixed.
            GoesOn cmp fuel
              (elim fixed [ none ↦ none | some (path', t', stale') ↦ go_down cmp stale' path' t' ]))
          p g path true x l r outer
          (λ d k.
            inner-GoesOn cmp e fuel n path x p.entry g.entry p.other l r g.other v.way
              v.parent_other v.parent_black v.uncle v.uncle_black hl hr cl cr reds le
              (v.parent_key ∙ ap (λ b. if b then lt else gt) d)
              (v.grandparent_key ∙ ap (λ b. if b then lt else gt) k))
          (λ d k.
            inner-GoesOn cmp e fuel n path x g.entry p.entry g.other l r p.other v.way v.uncle
              v.uncle_black v.parent_other v.parent_black hl hr cl cr reds le
              (v.grandparent_key ∙ ap (λ b. if b then lt else gt) k)
              (v.parent_key ∙ ap (λ b. if b then lt else gt) d))
      where
        above : List (Frame E)
        above = record p { red = false; other = branch g.dir true g.entry p.other g.other } ∷ path

        outer : GoesOn cmp fuel (go_down cmp 1 above (node true x l r))
        outer =
            go_down_cases cmp e (GoesOn cmp fuel) 1 above true x l r
              (IsRb-rebuild n above (node true x l r) (hl, hr, reds.0, reds.1)
                (outer-IsRbPath cmp e n p g path v) refl)
              (λ _.
                unfold step_frame in
                (record {
                  blacks = n;
                  tree = hr;
                  way = (hl, (reds.0, refl, outer-IsRbPath cmp e n p g path v));
                  calm = cr;
                  enough = omega (arith, le);
                }))
              (λ _.
                unfold step_frame in
                (record {
                  blacks = n;
                  tree = hl;
                  way = (hr, (reds.1, refl, outer-IsRbPath cmp e n p g path v));
                  calm = cl;
                  enough = omega (arith, le);
                }))

    -- Where a repair is needed, it finds what it needs.
    pub violation :
        (n : ℕ) (path : List (Frame E))
        → IsRbPath n path
        → (parent_red path ≡ false) ⊎ (has_uncle path ≡ true)
        → IsPlaced cmp path
        → parent_red path ≡ true
        → (p : Frame E) × (g : Frame E) × (rest : List (Frame E)) × (path ≡ p ∷ g ∷ rest)
          × IsViolated cmp e n p g rest
    violation n [] way uncle placed red = absurd (ground (arith, red))
    violation n (p ∷ []) way uncle placed red = absurd (ground (arith, red, uncle))
    violation n (p ∷ g ∷ rest) way uncle placed red =
        (p, g, rest, refl, violated cmp e n p g rest way red (ground (arith, red, uncle)) placed)

    pub fix_red :
        (path : List (Frame E)) (x : E) (l r : Tree E)
        → parent_red path ≡ true
        → fix 0 path (node true x l r) ≡ repair 0 path (node true x l r)
    unfolding fix
    fix_red path x l r h = rw (h, fix) refl

    -- The round at a missing node.
    pub leaf-GoesOn :
        (fuel : ℕ) (path : List (Frame E))
        → IsReady (suc fuel) path leaf
        → IsPlaced cmp path
        → GoesOn cmp fuel (round cmp e 0 path leaf)
    unfolding round place
    leaf-GoesOn fuel path v placed = elim (Bool-cases (parent_red path)) [
      | inr black ↦
          unfold fix in
          rw (black, round, place)
            (IsRb-rebuild v.blacks path (node true e leaf leaf) (v.tree, v.tree, refl, refl) v.way
              (ground (arith, black)))
      | inl red ↦
          (let (p, g, rest, split, w) = violation v.blacks path v.way v.red_parent placed red in
            subst
              (λ (fixed : Option (List (Frame E) × Tree E × ℕ)). GoesOn cmp fuel (elim fixed [
                | none ↦ none
                | some (path', t', stale') ↦ some (stop (rebuild path' t') true)
              ]))
              (sym (fix_red path e leaf leaf red))
              (subst
                (λ (above : List (Frame E)).
                  GoesOn cmp fuel (elim (repair 0 above (node true e leaf leaf)) [
                    | none ↦ none
                    | some (path', t', stale') ↦ some (stop (rebuild path' t') true)
                  ]))
                (sym split)
                (made-GoesOn cmp e fuel p g rest
                  (subst (λ n. IsViolated cmp e n p g rest) v.tree w))))
    ]

    -- A red child that was turned black.
    pub blackened :
        (n : ℕ) (t : Tree E)
        → IsRb n t
        → is_red t ≡ true
        → IsRb (suc n) (with_color false t)
          × (is_calm (with_color false t) ≡ true)
          × (is_red (with_color false t) ≡ false)
          × (height (with_color false t) ≡ height t)
    blackened n leaf h k = absurd (ground (arith, k))
    blackened n (node true x l r) h k = ((h.0, h.1), ground (arith, h.2), refl, refl)
    blackened n (node false x l r) h k = absurd (ground (arith, k))
