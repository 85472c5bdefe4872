-- ===== src/Ring/RbTree/Cursor/Walk.antt =====
-- An iterator walks the entries in order.
use mathlib.Core.List.{append_assoc, append-nil}
use ringpop_node.Common.{
  ◌≡◌, ◌≢◌, refl, sym, ap, ◌∙◌, Bool, true, false, List, [], ◌∷◌, ◌++◌, Option, none, some,
  if◌then◌else◌,
}
use ringpop_node.Ring.RbTree.{Tree, leaf, node, Frame, branch, in_order, entries_right}
use ringpop_node.Ring.RbTree.Cursor.{
  Iterator, entry_of, key, passed, min_node, go_up, step_from, next, min_entry,
}

module _ {E : Type 0} where
  -- The entries from the cursor on.
  abbrev pub entries_from : List (Frame E) × Tree E → List E
  entries_from (path, leaf) = []
  entries_from (path, node red x l r) = x ∷ (in_order r ++ entries_right path)

  abbrev pub remaining : Iterator E → List E
  remaining it = entries_from (it.ancestors, it.cursor)

  abbrev pub head : List E → Option E
  head [] = none
  head (x ∷ xs) = some x

  pub key_lem : (it : Iterator E) → key it ≡ head (remaining it)
  key_lem it = go it.cursor
    where
      go : (t : Tree E) → entry_of t ≡ head (entries_from (it.ancestors, t))
      go leaf = refl
      go (node red x l r) = refl

  pub regroup : (as' bs cs : List E) (x : E) → as' ++ x ∷ (bs ++ cs) ≡ (as' ++ x ∷ bs) ++ cs
  regroup as' bs cs x = simp (append_assoc)

  pub min_node_lem :
      (t : Tree E) (path : List (Frame E))
      → t ≢ leaf
      → entries_from (min_node t path) ≡ in_order t ++ entries_right path
  unfolding min_node passed
  min_node_lem leaf path h = absurd (h refl)
  min_node_lem (node red x leaf r) path h = refl
  min_node_lem (node red x (node c y a b) r) path h =
      min_node_lem (node c y a b) (passed false red x r ∷ path) (λ e. cc)
      ∙ regroup (in_order (node c y a b)) (in_order r) (entries_right path) x

  pub go_up_lem :
      (path : List (Frame E)) (t : Tree E) → entries_from (go_up path t) ≡ entries_right path
  unfolding go_up
  go_up_lem [] t = refl
  go_up_lem (f ∷ path) t = go f.dir (go_up_lem path (branch f.dir f.red f.entry t f.other))
    where
      go :
          (dir : Bool)
          → entries_from (go_up path (branch f.dir f.red f.entry t f.other)) ≡ entries_right path
          → entries_from (
              if dir
              then go_up path (branch f.dir f.red f.entry t f.other)
              else (path, branch dir f.red f.entry t f.other))
            ≡ (if dir
                then entries_right path
                else f.entry ∷ (in_order f.other ++ entries_right path))
      go true h = h
      go false h = refl

  -- `next` drops the first of the remaining entries; from no entry it goes to the first of all.
  pub next_lem :
      (it : Iterator E)
      → ((it.cursor ≢ leaf) → (x : E) × (remaining it ≡ x ∷ remaining (next it)))
        × ((it.cursor ≡ leaf) → it.ancestors ≡ [] → remaining (next it) ≡ in_order it.tree)
  unfolding next step_from
  next_lem it = (go it.cursor, start it.tree)
    where
      go :
          (t : Tree E)
          → t ≢ leaf
          → (x : E) × (entries_from (it.ancestors, t)
              ≡ x ∷ entries_from (step_from it.tree it.ancestors t))
      go leaf h = absurd (h refl)
      go (node red x l leaf) h =
          (x, ap (λ xs. x ∷ xs) (sym (go_up_lem it.ancestors (node red x l leaf))))
      go (node red x l (node c y a b)) h = (
        x,
        ap (λ xs. x ∷ xs)
            (sym (min_node_lem (node c y a b) (passed true red x l ∷ it.ancestors) (λ e. cc))),
      )

      start :
          (t : Tree E)
          → it.cursor ≡ leaf
          → it.ancestors ≡ []
          → entries_from (step_from t it.ancestors it.cursor) ≡ in_order t
      start leaf h k = ap (λ c. entries_from (step_from leaf it.ancestors c)) h
      start (node red x l r) h k =
          ap (λ c. entries_from (step_from (node red x l r) it.ancestors c)) h
          ∙ (ap (λ p. entries_from (min_node (node red x l r) p)) k
              ∙ (min_node_lem (node red x l r) [] (λ e. cc)
                  ∙ append-nil (in_order (node red x l r))))

  pub min_entry_lem : (t : Tree E) → min_entry t ≡ head (in_order t)
  unfolding min_entry
  min_entry_lem leaf = refl
  min_entry_lem (node red x leaf r) = refl
  min_entry_lem (node red x (node c y a b) r) =
      min_entry_lem (node c y a b) ∙ sym (first_of (in_order a) y (in_order b) (x ∷ in_order r))
    where
      first_of :
          (xs : List E) (e : E) (ys zs : List E) → head ((xs ++ e ∷ ys) ++ zs) ≡ head (xs ++ e ∷ ys)
      first_of [] e ys zs = refl
      first_of (u ∷ xs) e ys zs = refl
