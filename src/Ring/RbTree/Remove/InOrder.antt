-- ===== src/Ring/RbTree/Remove/InOrder.antt =====
-- `remove` takes the entry with the key out of the entries in order, and no other.
use Prim.Native.Nat.{Ordering}
use Prim.Native.Nat.Ordering.{lt, eq, gt}
use mathlib.Core.List.{append_assoc, append-nil}
use ringpop_node.Common.{
  ◌≡◌, refl, sym, ap, subst, ◌∙◌, Bool, true, false, not, ◌||◌, List, [], ◌∷◌, ◌++◌, if◌then◌else◌,
  arith, All, All-imp,
}
use ringpop_node.Ring.Sorted.{
  IsSorted, IsCut, Below, Above, take_out, misses, All-append, All-append_inv, IsSorted-append_inv,
  Before-entry, take_out-found, take_out-absent, misses_lt, misses_gt, misses-append, misses_found,
}
use ringpop_node.Ring.RbTree.{
  in_order-with_color, step_right, step_left, around_entry, Tree, leaf, node, Frame, get_child,
  branch, rebuild, in_order, entries_left, entries_right, in_order-rebuild,
}
use ringpop_node.Ring.RbTree.Colors.{ByColor}
use ringpop_node.Ring.RbTree.Remove.{
  push, replace_found, any_found, spliced, splice, is_leaf, remove_loop, remove,
}
use ringpop_node.Ring.RbTree.Remove.Paths.{Tail, push-SameAround}

abbrev pub reversed : Ordering → Ordering
reversed lt = gt
reversed eq = eq
reversed gt = lt

pub reversed-lt : (o : Ordering) → reversed o ≡ lt → o ≡ gt
reversed-lt lt h = cc
reversed-lt eq h = cc
reversed-lt gt h = refl

module _ {E : Type 0} where
  pub spliced_lem : (f : Frame E) → spliced f ≡ f.other
  unfolding spliced is_leaf
  spliced_lem f = go f.dir f.other
    where
      go :
          (dir : Bool) (t : Tree E)
          → get_child
              (is_leaf (get_child false (branch dir f.red f.entry leaf t)))
              (branch dir f.red f.entry leaf t)
            ≡ t
      go true leaf = refl
      go true (node c x a b) = refl
      go false t = refl

  replaced :
      (e : E) (path : List (Frame E)) (after : List E)
      → Tail path after
      → (entries_left (replace_found e path) ≡ entries_left path)
        × (entries_right (replace_found e path) ≡ e ∷ after)
        × (any_found path ≡ true)
  unfolding replace_found any_found
  replaced e [] after h = absurd h
  replaced e (f ∷ path) after h = go f.found f.dir h (λ k. replaced e path after k)
    where
      Goal : Bool → Bool → Type 0
      Goal found dir =
          (entries_left (
              if found
              then record f { found = found; dir = dir; entry = e } ∷ path
              else record f { found = found; dir = dir } ∷ replace_found e path)
            ≡ entries_left (record f { found = found; dir = dir } ∷ path))
          × (entries_right (
                if found
                then record f { found = found; dir = dir; entry = e } ∷ path
                else record f { found = found; dir = dir } ∷ replace_found e path)
              ≡ e ∷ after)
          × ((found || any_found path) ≡ true)

      go :
          (found dir : Bool)
          → ByColor found
              ((dir ≡ false) × (after ≡ in_order f.other ++ entries_right path))
              ((dir ≡ true) × Tail path after)
          → (Tail path after
              → (entries_left (replace_found e path) ≡ entries_left path)
                × (entries_right (replace_found e path) ≡ e ∷ after)
                × (any_found path ≡ true))
          → Goal found dir
      go true true h rest = absurd (ground (arith, h.0))
      go true false h rest = (refl, ap (λ xs. e ∷ xs) (sym h.1), refl)
      go false true h rest =
          (let (l, r, a) = rest h.1 in
            (ap (λ xs. xs ++ (in_order f.other ++ f.entry ∷ [])) l, r, a))
      go false false h rest = absurd (ground (arith, h.0))

  moved : (xs ys zs : List E) (x : E) → (xs ++ (ys ++ x ∷ [])) ++ zs ≡ xs ++ (ys ++ x ∷ zs)
  moved xs ys zs x = simp (append_assoc)

  -- After the key was found: its entry is left out.
  splice_found :
      (path : List (Frame E)) (after : List E)
      → Tail path after
      → (in_order (splice path).0 ≡ entries_left path ++ after) × ((splice path).1 ≡ true)
  unfolding splice
  splice_found [] after h = absurd h
  splice_found (f ∷ path) after h = go f.found f.dir h
    where
      Goal : Bool → Bool → Tree E × Bool → Type 0
      Goal found dir (t, removed) =
          (in_order t
            ≡ (if dir
                then entries_left path ++ (in_order f.other ++ f.entry ∷ [])
                else entries_left path)
              ++ after)
          × (removed ≡ true)

      go :
          (found dir : Bool)
          → ByColor found
              ((dir ≡ false) × (after ≡ in_order f.other ++ entries_right path))
              ((dir ≡ true) × Tail path after)
          → Goal found dir (
              if found
              then (rebuild path (spliced f), true)
              else if any_found path
              then (rebuild (replace_found f.entry path) (spliced f), true)
              else (rebuild (f ∷ path) leaf, false))
      go true true h = absurd (ground (arith, h.0))
      go true false h = (
        in_order-rebuild path (spliced f)
            ∙ (ap (λ t. entries_left path ++ (in_order t ++ entries_right path)) (spliced_lem f)
                ∙ ap (λ xs. entries_left path ++ xs) (sym h.1)),
        refl,
      )
      go false false h = absurd (ground (arith, h.0))
      go false true h =
          let (l, r, a) = replaced f.entry path after h.1 in
          rw a (
            in_order-rebuild (replace_found f.entry path) (spliced f)
                ∙ (ap
                      (λ t.
                        entries_left (replace_found f.entry path)
                        ++ (in_order t ++ entries_right (replace_found f.entry path)))
                      (spliced_lem f)
                    ∙ (ap
                          (λ xs.
                            xs ++ (in_order f.other ++ entries_right (replace_found f.entry path)))
                          l
                        ∙ (ap (λ xs. entries_left path ++ (in_order f.other ++ xs)) r
                            ∙ sym (moved (entries_left path) (in_order f.other) after f.entry)))),
            refl,
          )

  -- Below an entry with the key, all are less: the loop goes right to the end.
  remove_below :
      (cmp : E → Ordering) (t : Tree E) (path : List (Frame E)) (after : List E)
      → Tail path after
      → All (λ x. cmp x ≡ gt) (in_order t)
      → (in_order (remove_loop cmp path t).0 ≡ entries_left path ++ (in_order t ++ after))
        × ((remove_loop cmp path t).1 ≡ true)
  unfolding remove_loop
  remove_below cmp leaf path after h below = splice_found path after h
  remove_below cmp (node red x l r) path after h below =
      let (ls, rs) = All-append_inv (λ x. cmp x ≡ gt) (in_order l) (x ∷ in_order r) below in
      let same = push-SameAround true false path red x r l in
      let (q, removed) =
        remove_below cmp r (push true false path red x r l) after (same.tail after (refl, h))
          rs.1 in
      rw (rs.0, remove_loop)
        (
          q
              ∙ (ap (λ xs. xs ++ (in_order r ++ after)) same.left
                  ∙ step_right (entries_left path) (in_order l) (in_order r) after x),
          removed,
        )

  splice_none :
      (path : List (Frame E)) → any_found path ≡ false → splice path ≡ (rebuild path leaf, false)
  unfolding splice any_found
  splice_none [] h = refl
  splice_none (f ∷ path) h = rw (found_first, found_rest) refl
    where
      found_first : f.found ≡ false
      found_first = ground (arith, h)

      found_rest : any_found path ≡ false
      found_rest = ground (arith, h)

  -- What the loop does to all the entries.
  abbrev TakesOut : (E → Ordering) → List E → Tree E × Bool → Type 0
  TakesOut cmp all (t, removed) = (in_order t ≡ take_out cmp all) × (removed ≡ not (misses cmp all))

  module _ (Before : E → E → Type 0) (cmp : E → Ordering)
      (cut : IsCut Before (λ x. reversed (cmp x))) where
    abbrev key : E → Ordering
    key x = reversed (cmp x)

    remove_loop-TakesOut :
        (t : Tree E) (path : List (Frame E)) (all : List E)
        → entries_left path ++ (in_order t ++ entries_right path) ≡ all
        → IsSorted Before all
        → All (Below key) (entries_left path)
        → All (Above key) (entries_right path)
        → any_found path ≡ false
        → TakesOut key all (remove_loop cmp path t)
    unfolding remove_loop
    remove_loop-TakesOut leaf path all q sorted below above none_found =
        rw (splice_none path none_found) (
          in_order-rebuild path leaf
              ∙ (sym (take_out-absent key (entries_left path) (entries_right path) below above)
                  ∙ ap (take_out key) q),
          sym (
              ap (λ xs. not (misses key xs)) (sym q)
              ∙ ground (
                arith,
                misses-append key (entries_left path) (entries_right path),
                misses_lt key (entries_left path) below,
                misses_gt key (entries_right path) above,
              )),
        )
    remove_loop-TakesOut (node red x l r) path all q sorted below above none_found =
        go (cmp x) refl (λ p q' b a n. remove_loop-TakesOut r p all q' sorted b a n)
          (λ p q' b a n. remove_loop-TakesOut l p all q' sorted b a n)
      where
        parts : IsSorted Before (in_order l ++ x ∷ in_order r)
        parts =
            (IsSorted-append_inv Before (in_order l ++ x ∷ in_order r) (entries_right path)
              (IsSorted-append_inv Before (entries_left path) _
                (subst (IsSorted Before) (sym q) sorted)).1).0

        Rest : Tree E → Type 0
        Rest t =
            (p : List (Frame E))
            → entries_left p ++ (in_order t ++ entries_right p) ≡ all
            → All (Below key) (entries_left p)
            → All (Above key) (entries_right p)
            → any_found p ≡ false
            → TakesOut key all (remove_loop cmp p t)

        go :
            (o : Ordering)
            → cmp x ≡ o
            → Rest r
            → Rest l
            → TakesOut key all (elim o as (λ x. Tree E × Bool) [
              | gt ↦ remove_loop cmp (push true false path red x r l) r
              | eq ↦ remove_loop cmp (push false true path red x l r) l
              | lt ↦ remove_loop cmp (push false false path red x l r) l
            ])
        go gt o on_right on_left =
            let same = push-SameAround true false path red x r l in
            on_right (push true false path red x r l)
              (ap (λ xs. xs ++ (in_order r ++ entries_right (push true false path red x r l)))
                  same.left
                ∙ (ap (λ xs. (entries_left path ++ (in_order l ++ x ∷ [])) ++ (in_order r ++ xs))
                      same.right
                    ∙ (step_right (entries_left path) (in_order l) (in_order r) (entries_right path)
                          x
                        ∙ q)))
              (subst (All (Below key)) (sym same.left) (
                All-append (Below key) (entries_left path) _ below (
                  All-append (Below key) (in_order l) (x ∷ [])
                    (All-imp (λ y b. cut.below y x b (ap reversed o)) (in_order l)
                      (Before-entry Before (in_order l) x (in_order r) parts))
                    (ap reversed o, tt))))
              (subst (All (Above key)) (sym same.right) above)
              (same.found ∙ unfold any_found in none_found)
        go lt o on_right on_left =
            let same = push-SameAround false false path red x l r in
            on_left (push false false path red x l r)
              (ap (λ xs. xs ++ (in_order l ++ entries_right (push false false path red x l r)))
                  same.left
                ∙ (ap (λ xs. entries_left path ++ (in_order l ++ xs)) same.right
                    ∙ (step_left (entries_left path) (in_order l) (in_order r) (entries_right path)
                          x
                        ∙ q)))
              (subst (All (Below key)) (sym same.left) below)
              (subst (All (Above key)) (sym same.right) (
                ap reversed o,
                All-append (Above key) (in_order r) (entries_right path)
                    (All-imp (λ y b. cut.above x y b (ap reversed o)) (in_order r)
                      (IsSorted-append_inv Before (in_order l) (x ∷ in_order r) parts).1.0)
                    above,
              ))
              (same.found ∙ unfold any_found in none_found)
        go eq o on_right on_left =
            let same = push-SameAround false true path red x l r in
            let after = in_order r ++ entries_right path in
            let less : All (λ y. cmp y ≡ gt) (in_order l) =
              All-imp (λ y b. reversed-lt (cmp y) (cut.below_eq y x b (ap reversed o))) (in_order l)
                (Before-entry Before (in_order l) x (in_order r) parts) in
            let (r', removed) =
              remove_below cmp l (push false true path red x l r) after
                (same.tail after (refl, refl)) less in
            let split =
              around_entry (entries_left path) (in_order l) (in_order r) (entries_right path) x in
            let under : All (Below key) (entries_left path ++ in_order l) =
              All-append (Below key) (entries_left path) (in_order l) below
                (All-imp (λ y e. ap reversed e) (in_order l) less) in
            (
              r'
                  ∙ (ap (λ xs. xs ++ (in_order l ++ after)) same.left
                      ∙ (sym (append_assoc (entries_left path) (in_order l) after)
                          ∙ (sym (
                                take_out-found key (entries_left path ++ in_order l) x after under
                                  (ap reversed o))
                              ∙ ap (take_out key) (sym split ∙ q)))),
              removed
                  ∙ sym (
                      ap (λ xs. not (misses key xs)) (sym q ∙ split)
                      ∙ ap not (
                          misses_found key (entries_left path ++ in_order l) x after
                            (ap reversed o))),
            )

    -- On sorted entries `remove` takes out the entry with the key and no other, and tells whether it
    -- was there.
    pub remove-TakesOut :
        (t : Tree E)
        → IsSorted Before (in_order t)
        → (in_order (remove cmp t).0 ≡ take_out (λ x. reversed (cmp x)) (in_order t))
          × ((remove cmp t).1 ≡ not (misses (λ x. reversed (cmp x)) (in_order t)))
    unfolding remove
    remove-TakesOut leaf sorted = unfold take_out misses in (refl, refl)
    remove-TakesOut (node red x l r) sorted =
        let (q, removed) =
          remove_loop-TakesOut (node red x l r) [] (in_order (node red x l r))
            (append-nil (in_order (node red x l r))) sorted tt tt (unfold any_found in refl) in
        (in_order-with_color false (remove_loop cmp [] (node red x l r)).0 ∙ q, removed)
