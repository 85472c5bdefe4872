-- ===== src/Ring/RbTree/Insert/InOrder.antt =====
-- What `insert` does to the entries in order.
use Prim.Native.Nat.{Ordering}
use Prim.Native.Nat.Ordering.{lt, eq, gt}
use mathlib.Core.List.{append_assoc, append-nil}
use ringpop_node.Common.{
  ◌*◌, ℕ, zero, suc, ◌≡◌, refl, sym, ap, subst, ◌∙◌, inl, inr, Bool, true, false, ◌&&◌, List, [],
  ◌∷◌, ◌++◌, Option, none, some, All, All-imp, arith, Bool-cases, if◌then◌else◌,
}
use ringpop_node.Ring.Sorted.{
  IsSorted, IsCut, Below, Above, put, misses, All-append, All-append_inv, IsSorted-append_inv,
  Before-entry, put-place, put-found, misses_lt, misses_gt, misses-append, misses_found,
}
use ringpop_node.Ring.RbTree.{
  in_order-with_color, step_right, step_left, around_entry, Tree, leaf, node, Frame, is_red,
  with_color, rebuild, parent_red, in_order, entries_left, entries_right, in_order-rebuild,
}
use ringpop_node.Ring.RbTree.Insert.{
  Round, stop, descend, place, repair, fix, step_frame, go_down, round, insert_loop, insert, height,
  same_dir,
}

module _ {E : Type 0} where
  -- All entries of the tree in which the loop stands at a subtree.
  abbrev pub total : List (Frame E) → Tree E → List E
  total path t = entries_left path ++ (in_order t ++ entries_right path)

  abbrev pub IsPlaced : (E → Ordering) → List (Frame E) → Type 0
  IsPlaced cmp path = All (Below cmp) (entries_left path) × All (Above cmp) (entries_right path)

  -- A repair keeps the entries and the place of the key.
  abbrev Keeps :
      (E → Ordering) → List (Frame E) → Tree E → Option (List (Frame E) × Tree E × ℕ) → Type 0
  Keeps cmp path t none = Unit
  Keeps cmp path t (some (path', t', stale)) =
      (total path' t' ≡ total path t) × (IsPlaced cmp path → IsPlaced cmp path')

  two_left :
      (as' bs cs : List E) (x y : E)
      → (as' ++ (bs ++ x ∷ [])) ++ (cs ++ y ∷ []) ≡ as' ++ ((bs ++ x ∷ cs) ++ y ∷ [])
  two_left as' bs cs x y = simp (append_assoc)

  -- The place is one for the rest of the path too.
  pub IsPlaced-tail :
      (cmp : E → Ordering) (f : Frame E) (path : List (Frame E))
      → IsPlaced cmp (f ∷ path)
      → IsPlaced cmp path
  IsPlaced-tail cmp f path = go f.dir
    where
      go :
          (dir : Bool)
          → All (Below cmp) (
              if dir
              then entries_left path ++ (in_order f.other ++ f.entry ∷ [])
              else entries_left path)
            × All (Above cmp) (
                if dir
                then entries_right path
                else f.entry ∷ (in_order f.other ++ entries_right path))
          → IsPlaced cmp path
      go true (h, k) = ((All-append_inv (Below cmp) (entries_left path) _ h).0, k)
      go false (h, k) = (h, (All-append_inv (Above cmp) (in_order f.other) _ k.1).1)

  -- The comparison at a frame went the way that the frame says.
  pub entry-IsPlaced :
      (cmp : E → Ordering) (f : Frame E) (path : List (Frame E))
      → IsPlaced cmp (f ∷ path)
      → cmp f.entry ≡ (if f.dir then lt else gt)
  entry-IsPlaced cmp f path = go f.dir
    where
      go :
          (dir : Bool)
          → All (Below cmp) (
              if dir
              then entries_left path ++ (in_order f.other ++ f.entry ∷ [])
              else entries_left path)
            × All (Above cmp) (
                if dir
                then entries_right path
                else f.entry ∷ (in_order f.other ++ entries_right path))
          → cmp f.entry ≡ (if dir then lt else gt)
      go true (h, k) =
          (All-append_inv (Below cmp) (in_order f.other) (f.entry ∷ [])
            (All-append_inv (Below cmp) (entries_left path) _ h).1).1.0
      go false (h, k) = k.0

  repair-Keeps :
      (cmp : E → Ordering) (stale : ℕ) (path : List (Frame E)) (t : Tree E)
      → Keeps cmp path t (repair stale path t)
  unfolding repair same_dir
  repair-Keeps cmp zero (p ∷ g ∷ path) (node red x l r) = go p g p.dir g.dir
    where
      go :
          (p g : Frame E) (d k : Bool)
          → Keeps cmp
              (record p { dir = d } ∷ record g { dir = k } ∷ path)
              (node red x l r)
              (repair zero (record p { dir = d } ∷ record g { dir = k } ∷ path) (node red x l r))
      go p g true true = (
        simp (append_assoc),
        λ k. (
          subst (All (Below cmp))
              (two_left (entries_left path) (in_order g.other) (in_order p.other) g.entry p.entry)
              k.0,
          k.1,
        ),
      )
      go p g true false = (
        simp (append_assoc),
        λ k.
            IsPlaced-tail cmp (record g { dir = false }) path
              (IsPlaced-tail cmp (record p { dir = true }) (record g { dir = false } ∷ path) k),
      )
      go p g false true = (
        simp (append_assoc),
        λ k.
            IsPlaced-tail cmp (record g { dir = true }) path
              (IsPlaced-tail cmp (record p { dir = false }) (record g { dir = true } ∷ path) k),
      )
      go p g false false = (
        simp (append_assoc),
        λ k. (
          k.0,
          (
            k.1.0,
            subst (All (Above cmp))
                (sym (
                  append_assoc (in_order p.other) (g.entry ∷ in_order g.other)
                    (entries_right path)))
                k.1.1,
          ),
        ),
      )
  repair-Keeps cmp zero [] t = tt
  repair-Keeps cmp zero (p ∷ []) t = tt
  repair-Keeps cmp zero (p ∷ g ∷ path) leaf = tt
  repair-Keeps cmp (suc n) path t = tt

  fix-Keeps :
      (cmp : E → Ordering) (stale : ℕ) (path : List (Frame E)) (t : Tree E)
      → Keeps cmp path t (fix stale path t)
  unfolding fix
  fix-Keeps cmp stale path t = elim (Bool-cases (is_red t && parent_red path)) [
    | inl h ↦ rw (h, fix) (repair-Keeps cmp stale path t)
    | inr h ↦ rw (h, fix) (refl, λ k. k)
  ]

  -- What a round leaves for a list of all entries: the entry put in its place, or a way down to it.
  abbrev pub Goes : (E → Ordering) → E → List E → Option (Round E) → Type 0
  Goes cmp e all none = Unit
  Goes cmp e all (some (stop t made)) = (in_order t ≡ put cmp e all) × (made ≡ misses cmp all)
  Goes cmp e all (some (descend stale path t)) = (total path t ≡ all) × IsPlaced cmp path

  module _ (Before : E → E → Type 0) (cmp : E → Ordering) (cut : IsCut Before cmp) (e : E) where
    go_down-Goes :
        (stale : ℕ) (path : List (Frame E)) (t : Tree E) (all : List E)
        → total path t ≡ all
        → IsSorted Before all
        → IsPlaced cmp path
        → Goes cmp e all (go_down cmp stale path t)
    unfolding go_down step_frame
    go_down-Goes stale path leaf all q sorted placed = tt
    go_down-Goes stale path (node red x l r) all q sorted placed = go (cmp x) refl
      where
        parts :
            IsSorted Before
              (entries_left path ++ ((in_order l ++ x ∷ in_order r) ++ entries_right path))
        parts = subst (IsSorted Before) (sym q) sorted

        around : IsSorted Before (in_order l ++ x ∷ in_order r)
        around =
            (IsSorted-append_inv Before (in_order l ++ x ∷ in_order r) (entries_right path)
              (IsSorted-append_inv Before (entries_left path) _ parts).1).0

        go :
            (o : Ordering)
            → cmp x ≡ o
            → Goes cmp e all (elim o [
              | eq ↦ some (stop (rebuild path (node red x l r)) false)
              | lt ↦ some (descend stale (step_frame true red x l ∷ path) r)
              | gt ↦ some (descend stale (step_frame false red x r ∷ path) l)
            ])
        go lt h = (
          step_right (entries_left path) (in_order l) (in_order r) (entries_right path) x ∙ q,
          (
            All-append (Below cmp) (entries_left path) _ placed.0
                (All-append (Below cmp) (in_order l) (x ∷ []) below (h, tt)),
            placed.1,
          ),
        )
          where
            below : All (Below cmp) (in_order l)
            below =
                All-imp (λ y b. cut.below y x b h) (in_order l)
                  (Before-entry Before (in_order l) x (in_order r) around)
        go eq h = (
          in_order-rebuild path (node red x l r)
              ∙ (split
                  ∙ (sym (put-found cmp e (entries_left path ++ in_order l) x _ below h)
                      ∙ ap (put cmp e) (sym split ∙ q))),
          sym (
              ap (misses cmp) (sym q ∙ split)
              ∙ misses_found cmp (entries_left path ++ in_order l) x
                  (in_order r ++ entries_right path) h),
        )
          where
            split :
                entries_left path ++ ((in_order l ++ x ∷ in_order r) ++ entries_right path)
                ≡ (entries_left path ++ in_order l) ++ x ∷ (in_order r ++ entries_right path)
            split =
                around_entry (entries_left path) (in_order l) (in_order r) (entries_right path) x

            below : All (Below cmp) (entries_left path ++ in_order l)
            below = All-append (Below cmp) (entries_left path) (in_order l) placed.0 (
                All-imp (λ y b. cut.below_eq y x b h) (in_order l)
                  (Before-entry Before (in_order l) x (in_order r) around))
        go gt h = (
          step_left (entries_left path) (in_order l) (in_order r) (entries_right path) x ∙ q,
          (placed.0, (h, All-append (Above cmp) (in_order r) (entries_right path) above placed.1)),
        )
          where
            above : All (Above cmp) (in_order r)
            above =
                All-imp (λ y b. cut.above x y b h) (in_order r)
                  (IsSorted-append_inv Before (in_order l) (x ∷ in_order r) around).1.0

    -- A new node stands where the key belongs, and the repair keeps it there.
    made-Goes :
        (path : List (Frame E)) (all : List E) (fixed : Option (List (Frame E) × Tree E × ℕ))
        → total path leaf ≡ all
        → IsPlaced cmp path
        → Keeps cmp path (node true e leaf leaf) fixed
        → Goes cmp e all (elim fixed [
          | none ↦ none
          | some (path', t', stale') ↦ some (stop (rebuild path' t') true)
        ])
    made-Goes path all none q placed k = tt
    made-Goes path all (some (path', t', stale')) q placed k = (
      in_order-rebuild path' t'
          ∙ (k.0
              ∙ (sym (put-place cmp e (entries_left path) (entries_right path) placed.0 placed.1)
                  ∙ ap (put cmp e) q)),
      sym (
          ap (misses cmp) (sym q)
          ∙ (misses-append cmp (entries_left path) (entries_right path)
              ∙ ground (
                arith,
                misses_lt cmp (entries_left path) placed.0,
                misses_gt cmp (entries_right path) placed.1,
              ))),
    )

    passed-Goes :
        (path : List (Frame E)) (t : Tree E) (all : List E)
        (fixed : Option (List (Frame E) × Tree E × ℕ))
        → total path t ≡ all
        → IsSorted Before all
        → IsPlaced cmp path
        → Keeps cmp path t fixed
        → Goes cmp e all
            (elim fixed [ none ↦ none | some (path', t', stale') ↦ go_down cmp stale' path' t' ])
    passed-Goes path t all none q sorted placed k = tt
    passed-Goes path t all (some (path', t', stale')) q sorted placed k =
        go_down-Goes stale' path' t' all (k.0 ∙ q) sorted (k.1 placed)

    pub round-Goes :
        (stale : ℕ) (path : List (Frame E)) (t : Tree E) (all : List E)
        → total path t ≡ all
        → IsSorted Before all
        → IsPlaced cmp path
        → Goes cmp e all (round cmp e stale path t)
    unfolding round place
    round-Goes stale path leaf all q sorted placed =
        made-Goes path all (fix stale path (node true e leaf leaf)) q placed
          (fix-Keeps cmp stale path (node true e leaf leaf))
    round-Goes stale path (node red x l r) all q sorted placed = go (is_red l && is_red r) refl
      where
        flipped :
            total path (node true x (with_color false l) (with_color false r))
            ≡ total path (node red x l r)
        flipped = rw (in_order-with_color false l, in_order-with_color false r) refl

        -- The round, by what `place` gives.
        by_place :
            (t : Tree E)
            → place e (node red x l r) ≡ (t, false)
            → total path t ≡ total path (node red x l r)
            → Goes cmp e all (round cmp e stale path (node red x l r))
        by_place t h same =
            subst
              (λ (placing : Tree E × Bool). Goes cmp e all (elim (fix stale path placing.0) [
                | none ↦ none
                | some (path', t', stale') ↦ elim placing.1 [
                  | true ↦ some (stop (rebuild path' t') true)
                  | false ↦ go_down cmp stale' path' t'
                ]
              ]))
              (sym h)
              (passed-Goes path t all (fix stale path t) (same ∙ q) sorted placed
                (fix-Keeps cmp stale path t))

        go :
            (both : Bool)
            → (is_red l && is_red r) ≡ both
            → Goes cmp e all (round cmp e stale path (node red x l r))
        go true h =
            by_place (node true x (with_color false l) (with_color false r)) (rw (h, place) refl)
              flipped
        go false h = by_place (node red x l r) (rw (h, place) refl) refl

    -- The result of the loop, if it gives one.
    abbrev pub Puts : List E → Option (Tree E × Bool) → Type 0
    Puts all none = Unit
    Puts all (some (t, made)) = (in_order t ≡ put cmp e all) × (made ≡ misses cmp all)

    insert_loop-Puts :
        (fuel stale : ℕ) (path : List (Frame E)) (t : Tree E) (all : List E)
        → total path t ≡ all
        → IsSorted Before all
        → IsPlaced cmp path
        → Puts all (insert_loop cmp e fuel stale path t)
    unfolding insert_loop
    insert_loop-Puts zero stale path t all q sorted placed = tt
    insert_loop-Puts (suc fuel) stale path t all q sorted placed =
        go (round cmp e stale path t) (round-Goes stale path t all q sorted placed)
          (λ s p u k. insert_loop-Puts fuel s p u all k.0 sorted k.1)
      where
        go :
            (r : Option (Round E))
            → Goes cmp e all r
            → ((s : ℕ) (p : List (Frame E)) (u : Tree E)
                → (total p u ≡ all) × IsPlaced cmp p
                → Puts all (insert_loop cmp e fuel s p u))
            → Puts all (elim r [
              | none ↦ none
              | some (stop t' made) ↦ some (t', made)
              | some (descend stale' path' t') ↦ insert_loop cmp e fuel stale' path' t'
            ])
        go none k rest = tt
        go (some (stop t' made)) k rest = k
        go (some (descend s p u)) k rest = rest s p u k

    pub insert-Puts :
        (t : Tree E) → IsSorted Before (in_order t) → Puts (in_order t) (insert cmp e t)
    unfolding insert
    insert-Puts leaf sorted = unfold put misses in (refl, refl)
    insert-Puts (node red x l r) sorted =
        go (insert_loop cmp e (3 * suc (height (node red x l r))) 0 [] (node red x l r)) (
          insert_loop-Puts _ 0 [] (node red x l r) (in_order (node red x l r))
            (append-nil (in_order (node red x l r))) sorted (tt, tt))
      where
        go :
            (r' : Option (Tree E × Bool))
            → Puts (in_order (node red x l r)) r'
            → Puts
                (in_order (node red x l r))
                (elim r' [ none ↦ none | some (t, made) ↦ some (with_color false t, made) ])
        go none k = tt
        go (some (t, made)) k = (in_order-with_color false t ∙ k.0, k.1)
