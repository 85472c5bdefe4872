-- ===== src/Ring/RbTree/Remove/Paths.antt =====
-- What pushing a node down does to the entries around it: nothing.
use mathlib.Core.List.{append_assoc}
use ringpop_node.Common.{
  ◌≡◌, refl, sym, ap, subst, ◌∙◌, inl, inr, Bool, true, false, not, ◌&&◌, ◌||◌, List, [], ◌∷◌, ◌++◌,
  if◌then◌else◌, arith, Bool-cases,
}
use ringpop_node.Ring.RbTree.{
  in_order-with_color, Tree, leaf, node, Frame, is_red, get_child, branch, with_color, in_order,
  entries_left, entries_right,
}
use ringpop_node.Ring.RbTree.Colors.{ByColor}
use ringpop_node.Ring.RbTree.Remove.{
  borrow, borrow_from, push, rotate_up, lower, new_frame, any_found,
}

module _ {E : Type 0} where
  -- The entries after an entry that was found on the way, which the rest of the way passes on its right.
  abbrev pub Tail : List (Frame E) → List E → Type 0
  Tail [] after = ⊥
  Tail (f ∷ path) after =
      ByColor f.found ((f.dir ≡ false) × (after ≡ in_order f.other ++ entries_right path))
        ((f.dir ≡ true) × Tail path after)

  -- Two ways that have the same entries on both sides, and the same found entry.
  pub record SameAround (path path' : List (Frame E)) : Type 0 where
    pub left : entries_left path' ≡ entries_left path
    pub right : entries_right path' ≡ entries_right path
    pub tail : (after : List E) → Tail path after → Tail path' after
    pub found : any_found path' ≡ any_found path

  same : (path : List (Frame E)) → SameAround path path
  same path = record { left = refl; right = refl; tail = λ after h. h; found = refl }

  -- A frame whose other child has other colors.
  recolored :
      (f : Frame E) (path : List (Frame E)) (t u : Tree E)
      → in_order u ≡ in_order t
      → SameAround (record f { other = t } ∷ path) (record f { red = false; other = u } ∷ path)
  unfolding any_found
  recolored f path t u e = go f.dir f.found
    where
      go :
          (dir found : Bool)
          → SameAround
              (record f { dir = dir; found = found; other = t } ∷ path)
              (record f { dir = dir; red = false; found = found; other = u } ∷ path)
      go true true = record {
        left = ap (λ xs. entries_left path ++ (xs ++ f.entry ∷ [])) e;
        right = refl;
        tail = λ after h. (h.0, h.1 ∙ ap (λ xs. xs ++ entries_right path) (sym e));
        found = refl;
      }
      go true false = record {
        left = ap (λ xs. entries_left path ++ (xs ++ f.entry ∷ [])) e;
        right = refl;
        tail = λ after h. h;
        found = refl;
      }
      go false true = record {
        left = refl;
        right = ap (λ xs. f.entry ∷ (xs ++ entries_right path)) e;
        tail = λ after h. (h.0, h.1 ∙ ap (λ xs. xs ++ entries_right path) (sym e));
        found = refl;
      }
      go false false = record {
        left = refl;
        right = ap (λ xs. f.entry ∷ (xs ++ entries_right path)) e;
        tail = λ after h. h;
        found = refl;
      }

  -- One frame that became two, of which the nearer keeps the entry.
  two_frames :
      (f : Frame E) (path : List (Frame E)) (t : Tree E) (red red' : Bool) (y : E) (u v : Tree E)
      → (f.dir ≡ true → in_order t ≡ in_order v ++ y ∷ in_order u)
      → (f.dir ≡ false → in_order t ≡ in_order u ++ y ∷ in_order v)
      → SameAround
          (record f { other = t } ∷ path)
          (record f { red = red; other = u } ∷ new_frame f.dir red' y v ∷ path)
  unfolding any_found new_frame
  two_frames f path t red red' y u v on_right on_left = go f.dir f.found on_right on_left
    where
      rights :
          in_order t ≡ in_order v ++ y ∷ in_order u
          → (entries_left path ++ (in_order v ++ y ∷ [])) ++ (in_order u ++ f.entry ∷ [])
            ≡ entries_left path ++ (in_order t ++ f.entry ∷ [])
      rights e = rw e (simp (append_assoc))

      lefts :
          in_order t ≡ in_order u ++ y ∷ in_order v
          → in_order u ++ (y ∷ (in_order v ++ entries_right path))
            ≡ in_order t ++ entries_right path
      lefts e = rw e (simp (append_assoc))

      go :
          (dir found : Bool)
          → (dir ≡ true → in_order t ≡ in_order v ++ y ∷ in_order u)
          → (dir ≡ false → in_order t ≡ in_order u ++ y ∷ in_order v)
          → SameAround (record f { dir = dir; found = found; other = t } ∷ path) (
              record f { dir = dir; red = red; found = found; other = u }
              ∷ new_frame dir red' y v
              ∷ path)
      go true true on_right on_left = record {
        left = rights (on_right refl);
        right = refl;
        tail = λ after h. absurd (ground (arith, h.0));
        found = refl;
      }
      go true false on_right on_left = record {
        left = rights (on_right refl);
        right = refl;
        tail = λ after h. (h.0, (refl, h.1));
        found = refl;
      }
      go false true on_right on_left = record {
        left = refl;
        right = ap (λ xs. f.entry ∷ xs) (lefts (on_left refl));
        tail = λ after h. (h.0, h.1 ∙ sym (lefts (on_left refl)));
        found = refl;
      }
      go false false on_right on_left = record {
        left = refl;
        right = ap (λ xs. f.entry ∷ xs) (lefts (on_left refl));
        tail = λ after h. absurd (ground (arith, h.0));
        found = refl;
      }

  -- The entries of a node, by direction.
  branch_right :
      (dir red : Bool) (x : E) (t u : Tree E)
      → dir ≡ true
      → in_order (branch dir red x t u) ≡ in_order u ++ x ∷ in_order t
  branch_right true red x t u e = refl
  branch_right false red x t u e = absurd (ground (arith, e))

  branch_left :
      (dir red : Bool) (x : E) (t u : Tree E)
      → dir ≡ false
      → in_order (branch dir red x t u) ≡ in_order t ++ x ∷ in_order u
  branch_left false red x t u e = refl
  branch_left true red x t u e = absurd (ground (arith, e))

  branch_children :
      (dir red : Bool) (x : E) (a b : Tree E)
      → node red x a b
        ≡ branch dir red x (get_child dir (node red x a b)) (get_child (not dir) (node red x a b))
  branch_children true red x a b = refl
  branch_children false red x a b = refl

  nested_right : (xs ys zs : List E) (x y : E) → xs ++ x ∷ (ys ++ y ∷ zs) ≡ (xs ++ x ∷ ys) ++ y ∷ zs
  nested_right xs ys zs x y = simp (append_assoc)

  single :
      (f : Frame E) (path : List (Frame E)) (c : Bool) (s : E) (near far : Tree E)
      → SameAround (record f { other = branch f.dir c s near far } ∷ path) (
          record f { red = false; other = near }
          ∷ new_frame f.dir true s (with_color false far)
          ∷ path)
  single f path c s near far =
      two_frames f path (branch f.dir c s near far) false true s near (with_color false far)
        (λ d.
          branch_right f.dir c s near far d
          ∙ ap (λ xs. xs ++ s ∷ in_order near) (sym (in_order-with_color false far)))
        (λ d.
          branch_left f.dir c s near far d
          ∙ ap (λ xs. in_order near ++ s ∷ xs) (sym (in_order-with_color false far)))

  rotate_up-SameAround :
      (f : Frame E) (path : List (Frame E)) (c : Bool) (s : E) (near far : Tree E)
      → SameAround
          (record f { other = branch f.dir c s near far } ∷ path)
          (rotate_up f path s near far)
  unfolding rotate_up
  rotate_up-SameAround f path c s (node true t a b) far =
      let near = node true t a b in
      two_frames f path (branch f.dir c s near far) false true t (get_child f.dir near)
        (branch f.dir false s (get_child (not f.dir) near) far)
        (λ d.
          branch_right f.dir c s near far d
          ∙ (ap (λ u. in_order far ++ s ∷ in_order u) (branch_children f.dir true t a b)
              ∙ (ap (λ xs. in_order far ++ s ∷ xs)
                    (branch_right f.dir true t (get_child f.dir near) (get_child (not f.dir) near)
                      d)
                  ∙ (nested_right (in_order far) (in_order (get_child (not f.dir) near))
                        (in_order (get_child f.dir near)) s t
                      ∙ ap (λ xs. xs ++ t ∷ in_order (get_child f.dir near))
                          (sym (branch_right f.dir false s (get_child (not f.dir) near) far d))))))
        (λ d.
          branch_left f.dir c s near far d
          ∙ (ap (λ u. in_order u ++ s ∷ in_order far) (branch_children f.dir true t a b)
              ∙ (ap (λ xs. xs ++ s ∷ in_order far)
                    (branch_left f.dir true t (get_child f.dir near) (get_child (not f.dir) near) d)
                  ∙ (sym (
                        nested_right (in_order (get_child f.dir near))
                          (in_order (get_child (not f.dir) near)) (in_order far) t s)
                      ∙ ap (λ xs. in_order (get_child f.dir near) ++ t ∷ xs)
                          (sym (branch_left f.dir false s (get_child (not f.dir) near) far d))))))
  rotate_up-SameAround f path c s leaf far = single f path c s leaf far
  rotate_up-SameAround f path c s (node false t a b) far = single f path c s (node false t a b) far

  abbrev Around : List (Frame E) → List (Frame E) × Bool → Type 0
  Around path (path', red) = SameAround path path'

  borrow-SameAround :
      (f : Frame E) (path : List (Frame E)) (t : Tree E)
      → SameAround (record f { other = t } ∷ path) (borrow (record f { other = t }) path t).0
  unfolding borrow
  borrow-SameAround f path leaf = same _
  borrow-SameAround f path (node c s a b) = go (
      not (is_red (get_child (not f.dir) (node c s a b)))
      && not (is_red (get_child f.dir (node c s a b))))
    where
      f' : Frame E
      f' = record f { other = node c s a b }

      turned : SameAround (record f { other = node c s a b } ∷ path) (
          rotate_up
            (record f { other = node c s a b })
            path
            s
            (get_child f.dir (node c s a b))
            (get_child (not f.dir) (node c s a b)))
      turned =
          subst
            (λ t. SameAround (record f { other = t } ∷ path) (
              rotate_up f' path s (get_child f.dir (node c s a b))
                (get_child (not f.dir) (node c s a b))))
            (sym (branch_children f.dir c s a b))
            (rotate_up-SameAround f' path c s (get_child f.dir (node c s a b))
              (get_child (not f.dir) (node c s a b)))

      go :
          (both : Bool)
          → Around (record f { other = node c s a b } ∷ path) (
              if both then (record f { red = false; other = node true s a b } ∷ path, true) else (
                rotate_up
                    (record f { other = node c s a b })
                    path
                    s
                    (get_child f.dir (node c s a b))
                    (get_child (not f.dir) (node c s a b)),
                true,
              ))
      go true = recolored f path (node c s a b) (node true s a b) refl
      go false = turned

  borrow_from-SameAround : (path : List (Frame E)) → SameAround path (borrow_from path).0
  unfolding borrow_from
  borrow_from-SameAround [] = same []
  borrow_from-SameAround (f ∷ path) = borrow-SameAround f path f.other

  -- A frame on top of two ways that have the same around.
  under :
      (f : Frame E) (red : Bool) (path path' : List (Frame E))
      → SameAround path path'
      → SameAround (f ∷ path) (record f { red = red } ∷ path')
  unfolding any_found
  under f red path path' v = go f.dir f.found
    where
      go :
          (dir found : Bool)
          → SameAround
              (record f { dir = dir; found = found } ∷ path)
              (record f { dir = dir; red = red; found = found } ∷ path')
      go true true = record {
        left = ap (λ xs. xs ++ (in_order f.other ++ f.entry ∷ [])) v.left;
        right = v.right;
        tail = λ after h. (h.0, h.1 ∙ ap (λ xs. in_order f.other ++ xs) (sym v.right));
        found = refl;
      }
      go true false = record {
        left = ap (λ xs. xs ++ (in_order f.other ++ f.entry ∷ [])) v.left;
        right = v.right;
        tail = λ after h. (h.0, v.tail after h.1);
        found = v.found;
      }
      go false true = record {
        left = v.left;
        right = ap (λ xs. f.entry ∷ (in_order f.other ++ xs)) v.right;
        tail = λ after h. (h.0, h.1 ∙ ap (λ xs. in_order f.other ++ xs) (sym v.right));
        found = refl;
      }
      go false false = record {
        left = v.left;
        right = ap (λ xs. f.entry ∷ (in_order f.other ++ xs)) v.right;
        tail = λ after h. (h.0, v.tail after h.1);
        found = v.found;
      }

  -- The frame of a node as the loop finds it.
  abbrev pub frame_of : Bool → Bool → Bool → E → Tree E → Frame E
  frame_of dir found red x other = record {
    dir = dir;
    red = red;
    found = found;
    entry = x;
    other = other;
  }

  lower-SameAround :
      (dir found : Bool) (path : List (Frame E)) (x : E) (other : Tree E)
      → SameAround (frame_of dir found false x other ∷ path) (lower dir found path x other)
  unfolding lower
  lower-SameAround dir found path x leaf =
      under (frame_of dir found false x leaf) (borrow_from path).1 path _
        (borrow_from-SameAround path)
  lower-SameAround dir found path x (node false y a b) =
      under (frame_of dir found false x (node false y a b)) (borrow_from path).1 path _
        (borrow_from-SameAround path)
  lower-SameAround dir found path x (node true y a b) =
      two_frames (frame_of dir found false x (node true y a b)) path (node true y a b) true false y
        (get_child dir (node true y a b)) (get_child (not dir) (node true y a b))
        (λ d. ap in_order (branch_children dir true y a b) ∙ branch_right dir true y _ _ d)
        (λ d. ap in_order (branch_children dir true y a b) ∙ branch_left dir true y _ _ d)

  pub push-SameAround :
      (dir found : Bool) (path : List (Frame E)) (red : Bool) (x : E) (child other : Tree E)
      → SameAround (frame_of dir found red x other ∷ path) (push dir found path red x child other)
  unfolding push
  push-SameAround dir found path red x child other = elim (Bool-cases (red || is_red child)) [
    | inl e ↦ rw (e, push) (same (frame_of dir found red x other ∷ path))
    | inr e ↦ rw (e, push) (go red e)
  ]
    where
      go :
          (r : Bool)
          → (r || is_red child) ≡ false
          → SameAround (frame_of dir found r x other ∷ path) (lower dir found path x other)
      go true e = absurd (ground (arith, e))
      go false e = lower-SameAround dir found path x other
