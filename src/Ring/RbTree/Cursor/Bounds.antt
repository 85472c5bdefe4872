-- ===== src/Ring/RbTree/Cursor/Bounds.antt =====
-- Where `lowerBound` and `upperBound` stand.
use Prim.Native.Nat.{Ordering}
use Prim.Native.Nat.Ordering.{lt, eq, gt}
use mathlib.Core.List.{append-nil}
use ringpop_node.Common.{
  ◌≡◌, ◌≢◌, refl, sym, ap, subst, ◌∙◌, ◌⊎◌, inl, inr, Bool, true, false, List, [], ◌∷◌, ◌++◌,
  length, Option, none, some, if◌then◌else◌, arith, All, All-imp,
}
use ringpop_node.Ring.Sorted.{IsSorted, IsCut, IsSorted-append_inv, Before-entry}
use ringpop_node.Ring.RbTree.{Tree, leaf, node, Frame, branch, in_order, entries_right}
use ringpop_node.Ring.RbTree.Remove.InOrder.{reversed, reversed-lt}
use ringpop_node.Ring.RbTree.Cursor.{
  iterator, key, passed, go_up, next, go_back, find_from, lower_bound, advance, upper_bound,
  Iterator,
}
use ringpop_node.Ring.RbTree.Cursor.Walk.{
  entries_from, remaining, head, key_lem, regroup, go_up_lem,
}

module _ {E : Type 0} where
  -- The entries of a list from the first that the key does not come after.
  unfoldable pub from_key : (E → Ordering) → List E → List E
  from_key cmp [] = []
  from_key cmp (x ∷ xs) = elim (cmp x) [ gt ↦ from_key cmp xs | _ ↦ x ∷ xs ]

  from_key-gt :
      (cmp : E → Ordering) (x : E) (xs : List E)
      → cmp x ≡ gt
      → from_key cmp (x ∷ xs) ≡ from_key cmp xs
  unfolding from_key
  from_key-gt cmp x xs h = rw (h, from_key) refl

  from_key-eq :
      (cmp : E → Ordering) (x : E) (xs : List E) → cmp x ≡ eq → from_key cmp (x ∷ xs) ≡ x ∷ xs
  unfolding from_key
  from_key-eq cmp x xs h = rw (h, from_key) refl

  from_key_stays :
      (cmp : E → Ordering) (xs : List E) (x : E) (ys : List E)
      → cmp x ≢ gt
      → from_key cmp (xs ++ x ∷ ys) ≡ from_key cmp xs ++ x ∷ ys
  unfolding from_key
  from_key_stays cmp [] x ys h = go (cmp x) h
    where
      go : (o : Ordering) → o ≢ gt → elim o [ gt ↦ from_key cmp ys | _ ↦ x ∷ ys ] ≡ x ∷ ys
      go gt h = absurd (h refl)
      go lt h = refl
      go eq h = refl
  from_key_stays cmp (y ∷ xs) x ys h = go (cmp y) (from_key_stays cmp xs x ys h)
    where
      go :
          (o : Ordering)
          → from_key cmp (xs ++ x ∷ ys) ≡ from_key cmp xs ++ x ∷ ys
          → elim o [ gt ↦ from_key cmp (xs ++ x ∷ ys) | _ ↦ y ∷ (xs ++ x ∷ ys) ]
            ≡ elim o [ gt ↦ from_key cmp xs | _ ↦ y ∷ xs ] ++ x ∷ ys
      go gt r = r
      go lt r = refl
      go eq r = refl

  from_key_skip :
      (cmp : E → Ordering) (xs ys : List E)
      → All (λ x. cmp x ≡ gt) xs
      → from_key cmp (xs ++ ys) ≡ from_key cmp ys
  unfolding from_key
  from_key_skip cmp [] ys h = refl
  from_key_skip cmp (x ∷ xs) ys h = rw (h.0, from_key) (from_key_skip cmp xs ys h.1)

  -- The first of them does not come before the key.
  from_key-head :
      (cmp : E → Ordering) (xs : List E) (x : E) → head (from_key cmp xs) ≡ some x → cmp x ≢ gt
  unfolding from_key
  from_key-head cmp [] x h = cc
  from_key-head cmp (y ∷ xs) x h = go (cmp y) refl h (λ k. from_key-head cmp xs x k)
    where
      go :
          (o : Ordering)
          → cmp y ≡ o
          → head (elim o [ gt ↦ from_key cmp xs | _ ↦ y ∷ xs ]) ≡ some x
          → (head (from_key cmp xs) ≡ some x → cmp x ≢ gt)
          → cmp x ≢ gt
      go gt q k rest = rest k
      go lt q k rest = (λ e. cc)
      go eq q k rest = (λ e. cc)

  -- The way down agrees with the comparisons.
  abbrev Agrees : (E → Ordering) → List (Frame E) → Type 0
  Agrees cmp [] = Unit
  Agrees cmp (f ∷ path) =
      (((f.dir ≡ true) × (cmp f.entry ≡ gt)) ⊎ ((f.dir ≡ false) × (cmp f.entry ≡ lt)))
      × Agrees cmp path

  go_back_lem :
      (cmp : E → Ordering) (path : List (Frame E)) (t : Tree E)
      → Agrees cmp path
      → go_back cmp path t ≡ go_up path t
  unfolding go_back go_up
  go_back_lem cmp [] t h = refl
  go_back_lem cmp (f ∷ path) t h =
      go f.dir (cmp f.entry) h.0 (go_back_lem cmp path (branch f.dir f.red f.entry t f.other) h.1)
    where
      go :
          (dir : Bool) (o : Ordering)
          → ((dir ≡ true) × (o ≡ gt)) ⊎ ((dir ≡ false) × (o ≡ lt))
          → go_back cmp path (branch f.dir f.red f.entry t f.other)
            ≡ go_up path (branch f.dir f.red f.entry t f.other)
          → elim o [
            | lt ↦ (path, branch f.dir f.red f.entry t f.other)
            | _ ↦ go_back cmp path (branch f.dir f.red f.entry t f.other)
          ]
            ≡ (if dir
                then go_up path (branch f.dir f.red f.entry t f.other)
                else (path, branch f.dir f.red f.entry t f.other))
      go true gt h rest = rest
      go false lt h rest = refl
      go true lt h rest = absurd (ground (arith, h))
      go true eq h rest = absurd (ground (arith, h))
      go false gt h rest = absurd (ground (arith, h))
      go false eq h rest = absurd (ground (arith, h))

  module _ (Before : E → E → Type 0) (cmp : E → Ordering)
      (cut : IsCut Before (λ x. reversed (cmp x))) where
    -- The entries before one that the key is not before.
    All-Before :
        (xs : List E) (x : E) → cmp x ≢ lt → All (λ y. Before y x) xs → All (λ y. cmp y ≡ gt) xs
    All-Before xs x h before = All-imp (λ y k. go (cmp x) refl h y k) xs before
      where
        go : (o : Ordering) → cmp x ≡ o → o ≢ lt → (y : E) → Before y x → cmp y ≡ gt
        go lt q h y k = absurd (h refl)
        go eq q h y k = reversed-lt (cmp y) (cut.below_eq y x k (ap reversed q))
        go gt q h y k = reversed-lt (cmp y) (cut.below y x k (ap reversed q))

    find_from_lem :
        (t : Tree E) (path : List (Frame E))
        → IsSorted Before (in_order t)
        → Agrees cmp path
        → entries_from (find_from cmp path t) ≡ from_key cmp (in_order t) ++ entries_right path
    unfolding find_from from_key passed
    find_from_lem leaf path sorted agrees =
        ap entries_from (go_back_lem cmp path leaf agrees) ∙ go_up_lem path leaf
    find_from_lem (node red x l r) path sorted agrees =
        go (cmp x) refl (λ a. find_from_lem r (passed true red x l ∷ path) parts.1.1 a)
          (λ a. find_from_lem l (passed false red x r ∷ path) parts.0 a)
      where
        parts : IsSorted Before (in_order l) × IsSorted Before (x ∷ in_order r)
        parts = IsSorted-append_inv Before (in_order l) (x ∷ in_order r) sorted

        skip :
            cmp x ≢ lt → from_key cmp (in_order l ++ x ∷ in_order r) ≡ from_key cmp (x ∷ in_order r)
        skip h =
            from_key_skip cmp (in_order l) (x ∷ in_order r)
              (All-Before (in_order l) x h (Before-entry Before (in_order l) x (in_order r) sorted))

        go :
            (o : Ordering)
            → cmp x ≡ o
            → (Agrees cmp (passed true red x l ∷ path)
                → entries_from (find_from cmp (passed true red x l ∷ path) r)
                  ≡ from_key cmp (in_order r) ++ entries_right path)
            → (Agrees cmp (passed false red x r ∷ path)
                → entries_from (find_from cmp (passed false red x r ∷ path) l)
                  ≡ from_key cmp (in_order l) ++ x ∷ (in_order r ++ entries_right path))
            → entries_from (elim o [
              | eq ↦ (path, node red x l r)
              | gt ↦ find_from cmp (passed true red x l ∷ path) r
              | lt ↦ find_from cmp (passed false red x r ∷ path) l
            ])
              ≡ from_key cmp (in_order l ++ x ∷ in_order r) ++ entries_right path
        go gt q right left =
            right ((inl (refl, q), agrees))
            ∙ ap (λ xs. xs ++ entries_right path)
                (sym (skip (λ e. cc) ∙ from_key-gt cmp x (in_order r) q))
        go eq q right left =
            ap (λ xs. xs ++ entries_right path)
              (sym (skip (λ e. cc) ∙ from_key-eq cmp x (in_order r) q))
        go lt q right left =
            left ((inr (refl, q), agrees))
            ∙ (regroup (from_key cmp (in_order l)) (in_order r) (entries_right path) x
                ∙ ap (λ xs. xs ++ entries_right path)
                    (sym (from_key_stays cmp (in_order l) x (in_order r) (λ e. cc))))

    -- `lowerBound` stands at the first entry that the key does not come after.
    pub lower_bound_lem :
        (t : Tree E)
        → IsSorted Before (in_order t)
        → remaining (lower_bound cmp t) ≡ from_key cmp (in_order t)
    unfolding lower_bound iterator
    lower_bound_lem t sorted = find_from_lem t [] sorted tt ∙ append-nil (from_key cmp (in_order t))

    -- With an entry that has the key, the list from the key on starts there.
    from_key-entry :
        (xs : List E) (x : E) (ys : List E)
        → IsSorted Before (xs ++ x ∷ ys)
        → cmp x ≡ eq
        → from_key cmp (xs ++ x ∷ ys) ≡ x ∷ ys
    from_key-entry xs x ys sorted same =
        from_key_skip cmp xs (x ∷ ys)
          (All-Before xs x (λ e. cc) (Before-entry Before xs x ys sorted))
        ∙ from_key-eq cmp x ys same

    -- `upperBound` goes no further than `lowerBound`: its loop makes no round.
    pub upper_bound-lower_bound :
        (t : Tree E)
        → IsSorted Before (in_order t)
        → upper_bound cmp (λ x. reversed (cmp x)) t ≡ some (lower_bound cmp t)
    unfolding upper_bound advance
    upper_bound-lower_bound t sorted = go (key (lower_bound cmp t)) refl
      where
        go :
            (k : Option E)
            → key (lower_bound cmp t) ≡ k
            → elim k [
              | none ↦ some (lower_bound cmp t)
              | some x ↦ elim (reversed (cmp x)) [
                | lt ↦
                    advance (λ x. reversed (cmp x)) (length (in_order t)) (next (lower_bound cmp t))
                | _ ↦ some (lower_bound cmp t)
              ]
            ]
              ≡ some (lower_bound cmp t)
        go none q = refl
        go (some x) q = stays (reversed (cmp x)) (λ e.
            from_key-head cmp (in_order t) x
              (sym (key_lem (lower_bound cmp t) ∙ ap head (lower_bound_lem t sorted)) ∙ q)
              (reversed-lt (cmp x) e))
          where
            stays :
                (o : Ordering)
                → o ≢ lt
                → elim o [
                  | lt ↦
                      advance
                        (λ x. reversed (cmp x))
                        (length (in_order t))
                        (next (lower_bound cmp t))
                  | _ ↦ some (lower_bound cmp t)
                ]
                  ≡ some (lower_bound cmp t)
            stays lt h = absurd (h refl)
            stays eq h = refl
            stays gt h = refl

    -- `upperBound` returns. What is left for its iterator are the entries from the first that the key does not
    -- come after, so that it stands at the entry with the key, if there is one, and else after the entries
    -- before the key.
    pub upper_bound_lem :
        (t : Tree E)
        → IsSorted Before (in_order t)
        → (iter : Iterator E) × (upper_bound cmp (λ x. reversed (cmp x)) t ≡ some iter)
          × (remaining iter ≡ from_key cmp (in_order t))
          × (key iter ≡ head (from_key cmp (in_order t)))
          × ((xs : List E) (x : E) (ys : List E)
              → in_order t ≡ xs ++ x ∷ ys
              → cmp x ≡ eq
              → key iter ≡ some x)
    upper_bound_lem t sorted =
        let stands : key (lower_bound cmp t) ≡ head (from_key cmp (in_order t)) =
          key_lem (lower_bound cmp t) ∙ ap head (lower_bound_lem t sorted) in
        (
          lower_bound cmp t,
          upper_bound-lower_bound t sorted,
          lower_bound_lem t sorted,
          stands,
          (λ xs x ys e same.
              stands
              ∙ ap (λ zs. head (from_key cmp zs)) e
              ∙ ap head (from_key-entry xs x ys (subst (IsSorted Before) e sorted) same)),
        )
