-- ===== src/Ring/Sorted.antt =====
-- Sorted lists of entries, as the reference for the tree: a key is put in its place and taken out.
use Prim.Native.Nat.{Ordering}
use Prim.Native.Nat.Ordering.{lt, eq, gt}
use ringpop_node.Common.{◌≡◌, refl, ap, Bool, true, false, ◌&&◌, List, [], ◌∷◌, ◌++◌, All, arith}

module _ {E : Type 0} where
  -- Each entry comes before all that follow it.
  abbrev pub IsSorted : (E → E → Type 0) → List E → Type 0
  IsSorted Before [] = Unit
  IsSorted Before (x ∷ xs) = All (Before x) xs × IsSorted Before xs

  -- A key among sorted entries: `cmp x` compares the key of `x` with it.
  pub record IsCut (Before : E → E → Type 0) (cmp : E → Ordering) : Type 0 where
    pub below : (x y : E) → Before x y → cmp y ≡ lt → cmp x ≡ lt
    pub below_eq : (x y : E) → Before x y → cmp y ≡ eq → cmp x ≡ lt
    pub above : (x y : E) → Before x y → cmp x ≡ gt → cmp y ≡ gt
    pub above_eq : (x y : E) → Before x y → cmp x ≡ eq → cmp y ≡ gt

  abbrev pub Below : (E → Ordering) → E → Type 0
  Below cmp x = cmp x ≡ lt

  abbrev pub Above : (E → Ordering) → E → Type 0
  Above cmp x = cmp x ≡ gt

  -- The new entry goes before the first that is greater, unless its key is there.
  unfoldable pub put : (E → Ordering) → E → List E → List E
  put cmp e [] = e ∷ []
  put cmp e (x ∷ xs) = elim (cmp x) [ lt ↦ x ∷ put cmp e xs | eq ↦ x ∷ xs | gt ↦ e ∷ x ∷ xs ]

  -- No entry has the key.
  unfoldable pub misses : (E → Ordering) → List E → Bool
  misses cmp [] = true
  misses cmp (x ∷ xs) = elim (cmp x) [ eq ↦ false | _ ↦ misses cmp xs ]

  -- The entry with the key is taken out.
  unfoldable pub take_out : (E → Ordering) → List E → List E
  take_out cmp [] = []
  take_out cmp (x ∷ xs) = elim (cmp x) [ lt ↦ x ∷ take_out cmp xs | eq ↦ xs | gt ↦ x ∷ xs ]

  pub All-append : (P : E → Type 0) (xs ys : List E) → All P xs → All P ys → All P (xs ++ ys)
  All-append P [] ys h k = k
  All-append P (x ∷ xs) ys h k = (h.0, All-append P xs ys h.1 k)

  pub All-append_inv : (P : E → Type 0) (xs ys : List E) → All P (xs ++ ys) → All P xs × All P ys
  All-append_inv P [] ys h = (tt, h)
  All-append_inv P (x ∷ xs) ys h = (let (a, b) = All-append_inv P xs ys h.1 in ((h.0, a), b))

  module _ (Before : E → E → Type 0) where
    pub IsSorted-append_inv :
        (xs ys : List E) → IsSorted Before (xs ++ ys) → IsSorted Before xs × IsSorted Before ys
    IsSorted-append_inv [] ys h = (tt, h)
    IsSorted-append_inv (x ∷ xs) ys h =
        let (a, b) = IsSorted-append_inv xs ys h.1 in
        (((All-append_inv (Before x) xs ys h.0).0, a), b)

    -- What stands before an entry of a sorted list comes before it.
    pub Before-entry :
        (xs : List E) (y : E) (ys : List E)
        → IsSorted Before (xs ++ y ∷ ys)
        → All (λ x. Before x y) xs
    Before-entry [] y ys h = tt
    Before-entry (x ∷ xs) y ys h =
        ((All-append_inv (Before x) xs (y ∷ ys) h.0).1.0, Before-entry xs y ys h.1)

  -- The place of a key: what is below it and what is above.
  pub put-place :
      (cmp : E → Ordering) (e : E) (xs ys : List E)
      → All (Below cmp) xs
      → All (Above cmp) ys
      → put cmp e (xs ++ ys) ≡ xs ++ e ∷ ys
  unfolding put
  put-place cmp e [] [] h k = refl
  put-place cmp e [] (y ∷ ys) h k = rw (k.0, put) refl
  put-place cmp e (x ∷ xs) ys h k = rw (h.0, put) (ap (λ t. x ∷ t) (put-place cmp e xs ys h.1 k))

  pub put-found :
      (cmp : E → Ordering) (e : E) (xs : List E) (x : E) (ys : List E)
      → All (Below cmp) xs
      → cmp x ≡ eq
      → put cmp e (xs ++ x ∷ ys) ≡ xs ++ x ∷ ys
  unfolding put
  put-found cmp e [] x ys h k = rw (k, put) refl
  put-found cmp e (z ∷ xs) x ys h k =
      rw (h.0, put) (ap (λ t. z ∷ t) (put-found cmp e xs x ys h.1 k))

  pub take_out-found :
      (cmp : E → Ordering) (xs : List E) (x : E) (ys : List E)
      → All (Below cmp) xs
      → cmp x ≡ eq
      → take_out cmp (xs ++ x ∷ ys) ≡ xs ++ ys
  unfolding take_out
  take_out-found cmp [] x ys h k = rw (k, take_out) refl
  take_out-found cmp (z ∷ xs) x ys h k =
      rw (h.0, take_out) (ap (λ t. z ∷ t) (take_out-found cmp xs x ys h.1 k))

  pub take_out-absent :
      (cmp : E → Ordering) (xs ys : List E)
      → All (Below cmp) xs
      → All (Above cmp) ys
      → take_out cmp (xs ++ ys) ≡ xs ++ ys
  unfolding take_out
  take_out-absent cmp [] [] h k = refl
  take_out-absent cmp [] (y ∷ ys) h k = rw (k.0, take_out) refl
  take_out-absent cmp (x ∷ xs) ys h k =
      rw (h.0, take_out) (ap (λ t. x ∷ t) (take_out-absent cmp xs ys h.1 k))

  pub misses_lt : (cmp : E → Ordering) (xs : List E) → All (Below cmp) xs → misses cmp xs ≡ true
  unfolding misses
  misses_lt cmp [] h = refl
  misses_lt cmp (x ∷ xs) h = rw (h.0, misses) (misses_lt cmp xs h.1)

  pub misses_gt : (cmp : E → Ordering) (xs : List E) → All (Above cmp) xs → misses cmp xs ≡ true
  unfolding misses
  misses_gt cmp [] h = refl
  misses_gt cmp (x ∷ xs) h = rw (h.0, misses) (misses_gt cmp xs h.1)

  pub misses-append :
      (cmp : E → Ordering) (xs ys : List E)
      → misses cmp (xs ++ ys) ≡ (misses cmp xs && misses cmp ys)
  unfolding misses
  misses-append cmp [] ys = refl
  misses-append cmp (x ∷ xs) ys = ground (arith, misses-append cmp xs ys)

  pub misses_found :
      (cmp : E → Ordering) (xs : List E) (x : E) (ys : List E)
      → cmp x ≡ eq
      → misses cmp (xs ++ x ∷ ys) ≡ false
  unfolding misses
  misses_found cmp [] x ys e = rw (e, misses) refl
  misses_found cmp (z ∷ xs) x ys e = ground (arith, misses_found cmp xs x ys e)
