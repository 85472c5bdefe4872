-- ===== src/Ring/RbTree/Insert/Ready.antt =====
-- A round goes on from wherever the loop can stand.
use Prim.Native.Nat.{Ordering, max}
use ringpop_node.Common.{
  ℕ, zero, suc, ◌+◌, ◌*◌, ◌≤◌, ◌≡◌, refl, sym, ap, subst, ◌∙◌, ◌⊎◌, inl, inr, Bool, true, false,
  ◌&&◌, List, arith, Bool-cases,
}
use ringpop_node.Ring.RbTree.{Tree, leaf, node, Frame, is_red, with_color, parent_red}
use ringpop_node.Ring.RbTree.Colors.{IsRb, IsRbPath, IsRb-rebuild}
use ringpop_node.Ring.RbTree.Insert.InOrder.{IsPlaced}
use ringpop_node.Ring.RbTree.Insert.{place, repair, step_frame, round, height}
use ringpop_node.Ring.RbTree.Insert.Standing.{is_calm, has_uncle, IsReady, CanGo, GoesOn}
use ringpop_node.Ring.RbTree.Insert.Plain.{
  place_plain, go_on, round_placed, round_plain, go_down_cases, black-GoesOn, passed-GoesOn,
  turned-GoesOn,
}
use ringpop_node.Ring.RbTree.Insert.Flipped.{
  flipped-GoesOn, violation, fix_red, leaf-GoesOn, blackened,
}

module _ {E : Type 0} where
  module _ (cmp : E → Ordering) (e : E) where
    -- The round at a node with two red children.
    pub both_red-GoesOn :
        (fuel n : ℕ) (path : List (Frame E)) (x : E) (l r : Tree E)
        → IsRb n l
        → IsRb n r
        → IsRbPath (suc n) path
        → (parent_red path ≡ false) ⊎ (has_uncle path ≡ true)
        → IsPlaced cmp path
        → is_red l ≡ true
        → is_red r ≡ true
        → 2 * suc (max (height l) (height r)) + 1 ≤ suc fuel
        → GoesOn cmp fuel (round cmp e 0 path (node false x l r))
    both_red-GoesOn fuel n path x l r hl hr way uncle placed rl rr le = go (parent_red path) refl
      where
        left :
            IsRb (suc n) (with_color false l)
            × (is_calm (with_color false l) ≡ true)
            × (is_red (with_color false l) ≡ false)
            × (height (with_color false l) ≡ height l)
        left = blackened cmp e n l hl rl

        right :
            IsRb (suc n) (with_color false r)
            × (is_calm (with_color false r) ≡ true)
            × (is_red (with_color false r) ≡ false)
            × (height (with_color false r) ≡ height r)
        right = blackened cmp e n r hr rr

        flipped : Tree E
        flipped = node true x (with_color false l) (with_color false r)

        placed_flipped : place e (node false x l r) ≡ (flipped, false)
        placed_flipped = unfold place in rw (rl, rr) refl

        room :
            2 * suc (max (height (with_color false l)) (height (with_color false r))) + 1 ≤ suc fuel
        room = omega (arith, left.3, right.3, le)

        go :
            (above : Bool)
            → parent_red path ≡ above
            → GoesOn cmp fuel (round cmp e 0 path (node false x l r))
        go false black =
            subst (GoesOn cmp fuel)
              (sym (
                round_plain cmp e 0 path (node false x l r) flipped placed_flipped
                  (ground (arith, black))))
              (go_down_cases cmp e (GoesOn cmp fuel) 0 path true x (with_color false l)
                (with_color false r)
                (IsRb-rebuild (suc n) path flipped (left.0, right.0, left.2, right.2) way
                  (ground (arith, black)))
                (λ _.
                  unfold step_frame in
                  (inr (record {
                    blacks = suc n;
                    tree = right.0;
                    way = (left.0, (left.2, black, way));
                    calm = right.1;
                    enough = omega (arith, room);
                  })))
                (λ _.
                  unfold step_frame in
                  (inr (record {
                    blacks = suc n;
                    tree = left.0;
                    way = (right.0, (right.2, black, way));
                    calm = left.1;
                    enough = omega (arith, room);
                  }))))
        go true red =
            let (p, g, rest, split, w) = violation cmp e (suc n) path way uncle placed red in
            subst (GoesOn cmp fuel)
              (sym (
                round_placed cmp e 0 path (node false x l r) flipped placed_flipped
                ∙ (ap (go_on cmp e)
                      (fix_red cmp e path x (with_color false l) (with_color false r) red)
                    ∙ ap (λ above. go_on cmp e (repair 0 above flipped)) split)))
              (flipped-GoesOn cmp e fuel (suc n) p g rest x (with_color false l)
                (with_color false r) w left.0 right.0 left.1 right.1 (left.2, right.2) room)

    pub ready-GoesOn :
        (fuel : ℕ) (path : List (Frame E)) (t : Tree E)
        → IsReady (suc fuel) path t
        → IsPlaced cmp path
        → GoesOn cmp fuel (round cmp e 0 path t)
    ready-GoesOn fuel path leaf v placed = leaf-GoesOn cmp e fuel path v placed
    ready-GoesOn fuel path (node true x l r) v placed =
        subst (GoesOn cmp fuel)
          (sym (
            round_plain cmp e 0 path (node true x l r) (node true x l r)
              (place_plain cmp e true x l r (ground (arith, v.tree))) (ground (arith, v.red_node))))
          (go_down_cases cmp e (GoesOn cmp fuel) 0 path true x l r
            (IsRb-rebuild v.blacks path (node true x l r) v.tree v.way (ground (arith, v.red_node)))
            (λ _.
              unfold step_frame in
              (inl (record {
                blacks = v.blacks;
                tree = v.tree.1;
                way = (v.tree.0, (v.tree.2, ground (arith, v.red_node), v.way));
                red_node = inl v.tree.3;
                red_parent = inr (ground (arith, v.red_node));
                enough = omega (arith, v.enough);
              })))
            (λ _.
              unfold step_frame in
              (inl (record {
                blacks = v.blacks;
                tree = v.tree.0;
                way = (v.tree.1, (v.tree.3, ground (arith, v.red_node), v.way));
                red_node = inl v.tree.2;
                red_parent = inr (ground (arith, v.red_node));
                enough = omega (arith, v.enough);
              }))))
    ready-GoesOn fuel path (node false x l r) v placed = elim (Bool-cases (is_red l && is_red r)) [
      | inl both ↦ two v.blacks v.tree v.way both
      | inr one ↦
          subst (GoesOn cmp fuel)
            (sym (
              round_plain cmp e 0 path (node false x l r) (node false x l r)
                (place_plain cmp e false x l r one) (ground arith)))
            (black-GoesOn cmp e fuel path x l r v.blacks v.tree v.way one v.enough)
    ]
      where
        two :
            (n : ℕ)
            → IsRb n (node false x l r)
            → IsRbPath n path
            → (is_red l && is_red r) ≡ true
            → GoesOn cmp fuel (round cmp e 0 path (node false x l r))
        two zero h way both = absurd h
        two (suc n) h way both =
            both_red-GoesOn fuel n path x l r h.0 h.1 way v.red_parent placed (ground (arith, both))
              (ground (arith, both)) v.enough

    pub round-GoesOn :
        (fuel stale : ℕ) (path : List (Frame E)) (t : Tree E)
        → CanGo cmp (suc fuel) stale path t
        → IsPlaced cmp path
        → GoesOn cmp fuel (round cmp e stale path t)
    round-GoesOn fuel zero path t (inl v) placed = ready-GoesOn fuel path t v placed
    round-GoesOn fuel zero path t (inr v) placed = passed-GoesOn cmp e fuel 0 path t refl v
    round-GoesOn fuel (suc zero) path t v placed = passed-GoesOn cmp e fuel 1 path t refl v
    round-GoesOn fuel (suc (suc zero)) path t v placed = turned-GoesOn cmp e fuel path t v
    round-GoesOn fuel (suc (suc (suc n))) path t v placed = absurd v
