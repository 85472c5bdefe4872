-- ===== src/Ring/RbTree/Insert/Plain.antt =====
-- A round of `insert` that repairs nothing.
use Prim.Native.Nat.{Ordering, max}
use Prim.Native.Nat.Ordering.{lt, eq, gt}
use ringpop_node.Common.{
  ℕ, zero, suc, ◌+◌, ◌*◌, ◌-◌, ◌≤◌, ◌≡◌, refl, sym, ap, subst, ◌∙◌, inl, inr, Bool, true, false,
  ◌&&◌, List, ◌∷◌, Option, none, some, arith,
}
use ringpop_node.Ring.RbTree.{Tree, leaf, node, Frame, is_red, rebuild, parent_red}
use ringpop_node.Ring.RbTree.Colors.{IsRb, IsRbPath, IsRb-rebuild}
use ringpop_node.Ring.RbTree.Insert.{
  Round, stop, descend, place, fix, step_frame, go_down, round, height,
}
use ringpop_node.Ring.RbTree.Insert.Standing.{IsPassed, IsTurned, GoesOn}

module _ {E : Type 0} where
  module _ (cmp : E → Ordering) (e : E) where
    pub place_plain :
        (red : Bool) (x : E) (l r : Tree E)
        → (is_red l && is_red r) ≡ false
        → place e (node red x l r) ≡ (node red x l r, false)
    unfolding place
    place_plain red x l r h = rw (h, place) refl

    abbrev pub go_on : Option (List (Frame E) × Tree E × ℕ) → Option (Round E)
    go_on fixed = elim fixed [
      | none ↦ none
      | some (path', t', stale') ↦ go_down cmp stale' path' t'
    ]

    pub round_placed :
        (stale : ℕ) (path : List (Frame E)) (t t' : Tree E)
        → place e t ≡ (t', false)
        → round cmp e stale path t ≡ go_on (fix stale path t')
    unfolding round
    round_placed stale path t t' h =
        ap
          (λ (placing : Tree E × Bool). elim (fix stale path placing.0) as (λ x. Option (Round E)) [
            | none ↦ none
            | some (path', u, stale') ↦ elim placing.1 as (λ x. Option (Round E)) [
              | true ↦ some (stop (rebuild path' u) true)
              | false ↦ go_down cmp stale' path' u
            ]
          ])
          h

    -- A round that makes and repairs nothing is the comparison.
    pub round_plain :
        (stale : ℕ) (path : List (Frame E)) (t t' : Tree E)
        → place e t ≡ (t', false)
        → (is_red t' && parent_red path) ≡ false
        → round cmp e stale path t ≡ go_down cmp (stale - 1) path t'
    round_plain stale path t t' h k = round_placed stale path t t' h ∙ ap go_on fixed
      where
        fixed : fix stale path t' ≡ some (path, t', stale - 1)
        fixed = unfold fix in rw k refl

    pub go_down_cases :
        (P : Option (Round E) → Type 0) (stale : ℕ) (path : List (Frame E)) (red : Bool) (x : E)
        (l r : Tree E)
        → P (some (stop (rebuild path (node red x l r)) false))
        → (cmp x ≡ lt → P (some (descend stale (step_frame true red x l ∷ path) r)))
        → (cmp x ≡ gt → P (some (descend stale (step_frame false red x r ∷ path) l)))
        → P (go_down cmp stale path (node red x l r))
    unfolding go_down
    go_down_cases P stale path red x l r on_eq on_lt on_gt = go (cmp x) on_lt on_gt
      where
        go :
            (o : Ordering)
            → (o ≡ lt → P (some (descend stale (step_frame true red x l ∷ path) r)))
            → (o ≡ gt → P (some (descend stale (step_frame false red x r ∷ path) l)))
            → P (elim o as (λ x. Option (Round E)) [
              | eq ↦ some (stop (rebuild path (node red x l r)) false)
              | lt ↦ some (descend stale (step_frame true red x l ∷ path) r)
              | gt ↦ some (descend stale (step_frame false red x r ∷ path) l)
            ])
        go lt on_lt on_gt = on_lt refl
        go eq on_lt on_gt = on_eq
        go gt on_lt on_gt = on_gt refl

    pub black-GoesOn :
        (fuel : ℕ) (path : List (Frame E)) (x : E) (l r : Tree E) (n : ℕ)
        → IsRb n (node false x l r)
        → IsRbPath n path
        → (is_red l && is_red r) ≡ false
        → 2 * suc (max (height l) (height r)) + 1 ≤ suc fuel
        → GoesOn cmp fuel (go_down cmp 0 path (node false x l r))
    unfolding step_frame
    black-GoesOn fuel path x l r zero h way reds le = absurd h
    black-GoesOn fuel path x l r (suc n) h way reds le =
        go_down_cases (GoesOn cmp fuel) 0 path false x l r
          (IsRb-rebuild (suc n) path (node false x l r) h way (ground arith))
          (λ _. inl (record {
            blacks = n;
            tree = h.1;
            way = (h.0, way);
            red_node = ground (arith, reds);
            red_parent = inl refl;
            enough = omega (arith, le);
          }))
          (λ _. inl (record {
            blacks = n;
            tree = h.0;
            way = (h.1, way);
            red_node = ground (arith, reds);
            red_parent = inl refl;
            enough = omega (arith, le);
          }))

    -- Below a black node that is passed the loop is ready.
    pub passed-GoesOn :
        (fuel stale : ℕ) (path : List (Frame E)) (t : Tree E)
        → stale - 1 ≡ 0
        → IsPassed (suc fuel) path t
        → GoesOn cmp fuel (round cmp e stale path t)
    passed-GoesOn fuel stale path leaf le v = absurd (ground (arith, v.calm))
    passed-GoesOn fuel stale path (node true x l r) le v = absurd (ground (arith, v.calm))
    passed-GoesOn fuel stale path (node false x l r) le v =
        subst (GoesOn cmp fuel)
          (sym (
            round_plain stale path (node false x l r) (node false x l r)
              (place_plain false x l r (ground (arith, v.calm))) (ground arith)))
          (rw le
            (black-GoesOn fuel path x l r v.blacks v.tree v.way (ground (arith, v.calm)) v.enough))

    pub turned-GoesOn :
        (fuel : ℕ) (path : List (Frame E)) (t : Tree E)
        → IsTurned cmp (suc fuel) path t
        → GoesOn cmp fuel (round cmp e 2 path t)
    turned-GoesOn fuel path t v =
        subst (λ u. GoesOn cmp fuel (round cmp e 2 path u)) (sym v.shape)
          (subst (GoesOn cmp fuel)
            (sym (
              round_plain 2 path (node true v.entry v.left v.right)
                (node true v.entry v.left v.right)
                (place_plain true v.entry v.left v.right (ground (arith, v.reds)))
                (ground (arith, v.parent))))
            (go_down_cases (GoesOn cmp fuel) 1 path true v.entry v.left v.right
              (IsRb-rebuild v.blacks path (node true v.entry v.left v.right) whole v.way
                (ground (arith, v.parent)))
              (λ h. elim v.on [
                | inl (c, calm, le) ↦
                    unfold step_frame in
                    (record {
                      blacks = v.blacks;
                      tree = v.rights;
                      way = (v.lefts, (v.reds.0, v.parent, v.way));
                      calm = calm;
                      enough = omega (arith, le);
                    })
                | inr (c, calm, le) ↦ absurd (ground (arith, h, c))
              ])
              (λ h. elim v.on [
                | inl (c, calm, le) ↦ absurd (ground (arith, h, c))
                | inr (c, calm, le) ↦
                    unfold step_frame in
                    (record {
                      blacks = v.blacks;
                      tree = v.lefts;
                      way = (v.rights, (v.reds.1, v.parent, v.way));
                      calm = calm;
                      enough = omega (arith, le);
                    })
              ])))
      where
        whole : IsRb v.blacks (node true v.entry v.left v.right)
        whole = (v.lefts, v.rights, v.reds.0, v.reds.1)
