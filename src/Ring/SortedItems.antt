-- ===== src/Ring/SortedItems.antt =====
-- What is in a sorted list after a key was put in or taken out, and that it stays sorted.
use Prim.Native.Nat.{Ordering}
use Prim.Native.Nat.Ordering.{lt, eq, gt}
use ringpop_node.Common.{◌≡◌, ◌≢◌, refl, sym, subst, ◌⊎◌, inl, inr, List, [], ◌∷◌, All, In}
use ringpop_node.Ring.Sorted.{IsSorted, IsCut, put, take_out}

module _ {E : Type 0} (cmp : E → Ordering) where
  pub In-put_inv : (e x : E) (xs : List E) → In x (put cmp e xs) → (x ≡ e) ⊎ In x xs
  unfolding put
  In-put_inv e x [] h = h
  In-put_inv e x (y ∷ ys) h = go (cmp y) h (λ k. In-put_inv e x ys k)
    where
      go :
          (o : Ordering)
          → In x (elim o [ lt ↦ y ∷ put cmp e ys | eq ↦ y ∷ ys | gt ↦ e ∷ y ∷ ys ])
          → (In x (put cmp e ys) → (x ≡ e) ⊎ In x ys)
          → (x ≡ e) ⊎ ((x ≡ y) ⊎ In x ys)
      go lt (inl q) rest = inr (inl q)
      go lt (inr k) rest = elim (rest k) [ inl q ↦ inl q | inr i ↦ inr (inr i) ]
      go eq k rest = inr k
      go gt k rest = k

  pub In-put : (e x : E) (xs : List E) → In x xs → In x (put cmp e xs)
  unfolding put
  In-put e x [] h = absurd h
  In-put e x (y ∷ ys) h = go (cmp y) h (λ k. In-put e x ys k)
    where
      go :
          (o : Ordering)
          → (x ≡ y) ⊎ In x ys
          → (In x ys → In x (put cmp e ys))
          → In x (elim o [ lt ↦ y ∷ put cmp e ys | eq ↦ y ∷ ys | gt ↦ e ∷ y ∷ ys ])
      go lt (inl q) rest = inl q
      go lt (inr k) rest = inr (rest k)
      go eq k rest = k
      go gt k rest = inr k

  -- The key is there after it was put in.
  pub put_has : (e : E) → cmp e ≡ eq → (xs : List E) → (x : E) × In x (put cmp e xs) × (cmp x ≡ eq)
  unfolding put
  put_has e own [] = (e, inl refl, own)
  put_has e own (y ∷ ys) = go (cmp y) refl (put_has e own ys)
    where
      go :
          (o : Ordering)
          → cmp y ≡ o
          → (x : E) × In x (put cmp e ys) × (cmp x ≡ eq)
          → (x : E) × In x (elim o [ lt ↦ y ∷ put cmp e ys | eq ↦ y ∷ ys | gt ↦ e ∷ y ∷ ys ])
            × (cmp x ≡ eq)
      go lt h (x, k, q) = (x, inr k, q)
      go eq h rest = (y, inl refl, h)
      go gt h rest = (e, inl refl, own)

  pub In-take_out_inv : (x : E) (xs : List E) → In x (take_out cmp xs) → In x xs
  unfolding take_out
  In-take_out_inv x [] h = h
  In-take_out_inv x (y ∷ ys) h = go (cmp y) h (λ k. In-take_out_inv x ys k)
    where
      go :
          (o : Ordering)
          → In x (elim o [ lt ↦ y ∷ take_out cmp ys | eq ↦ ys | gt ↦ y ∷ ys ])
          → (In x (take_out cmp ys) → In x ys)
          → (x ≡ y) ⊎ In x ys
      go lt (inl q) rest = inl q
      go lt (inr k) rest = inr (rest k)
      go eq k rest = inr k
      go gt k rest = k

  pub In-take_out : (x : E) → cmp x ≢ eq → (xs : List E) → In x xs → In x (take_out cmp xs)
  unfolding take_out
  In-take_out x other [] h = h
  In-take_out x other (y ∷ ys) h = go (cmp y) refl h (λ k. In-take_out x other ys k)
    where
      go :
          (o : Ordering)
          → cmp y ≡ o
          → (x ≡ y) ⊎ In x ys
          → (In x ys → In x (take_out cmp ys))
          → In x (elim o [ lt ↦ y ∷ take_out cmp ys | eq ↦ ys | gt ↦ y ∷ ys ])
      go lt q (inl p) rest = inl p
      go lt q (inr k) rest = inr (rest k)
      go eq q (inl p) rest = absurd (other (cc))
      go eq q (inr k) rest = k
      go gt q k rest = k

  All-In : (P : E → Type 0) (x : E) (xs : List E) → All P xs → In x xs → P x
  All-In P x [] h k = absurd k
  All-In P x (y ∷ ys) h (inl q) = subst P (sym q) h.0
  All-In P x (y ∷ ys) h (inr k) = All-In P x ys h.1 k

  All-of_In : (P : E → Type 0) (xs : List E) → ((x : E) → In x xs → P x) → All P xs
  All-of_In P [] f = tt
  All-of_In P (x ∷ xs) f = (f x (inl refl), All-of_In P xs (λ y k. f y (inr k)))

  module _ (Before : E → E → Type 0) (cut : IsCut Before cmp) where
    -- The key is gone after it was taken out.
    pub take_out_gone :
        (xs : List E) → IsSorted Before xs → (x : E) → In x (take_out cmp xs) → cmp x ≢ eq
    unfolding take_out
    take_out_gone [] sorted x h = absurd h
    take_out_gone (y ∷ ys) sorted x h = go (cmp y) refl h (λ k. take_out_gone ys sorted.1 x k)
      where
        go :
            (o : Ordering)
            → cmp y ≡ o
            → In x (elim o [ lt ↦ y ∷ take_out cmp ys | eq ↦ ys | gt ↦ y ∷ ys ])
            → (In x (take_out cmp ys) → cmp x ≢ eq)
            → cmp x ≢ eq
        go lt q (inl p) rest = (λ e. cc)
        go lt q (inr k) rest = rest k
        go eq q k rest =
            (λ e. let above = cut.above_eq y x (All-In (Before y) x ys sorted.0 k) q in cc)
        go gt q (inl p) rest = (λ e. cc)
        go gt q (inr k) rest =
            (λ e. let above = cut.above y x (All-In (Before y) x ys sorted.0 k) q in cc)

    pub IsSorted-take_out : (xs : List E) → IsSorted Before xs → IsSorted Before (take_out cmp xs)
    unfolding take_out
    IsSorted-take_out [] sorted = tt
    IsSorted-take_out (y ∷ ys) sorted = go (cmp y) (IsSorted-take_out ys sorted.1)
      where
        go :
            (o : Ordering)
            → IsSorted Before (take_out cmp ys)
            → IsSorted Before (elim o [ lt ↦ y ∷ take_out cmp ys | eq ↦ ys | gt ↦ y ∷ ys ])
        go lt rest = (
          All-of_In (Before y) (take_out cmp ys)
              (λ x k. All-In (Before y) x ys sorted.0 (In-take_out_inv x ys k)),
          rest,
        )
        go eq rest = sorted.1
        go gt rest = sorted

    -- `e` stands where its key does.
    pub IsSorted-put :
        (e : E)
        → ((x : E) → cmp x ≡ lt → Before x e)
        → ((x : E) → cmp x ≡ gt → Before e x)
        → (xs : List E) → IsSorted Before xs
        → IsSorted Before (put cmp e xs)
    unfolding put
    IsSorted-put e before after [] sorted = (tt, tt)
    IsSorted-put e before after (y ∷ ys) sorted =
        go (cmp y) refl (IsSorted-put e before after ys sorted.1)
      where
        go :
            (o : Ordering)
            → cmp y ≡ o
            → IsSorted Before (put cmp e ys)
            → IsSorted Before (elim o [ lt ↦ y ∷ put cmp e ys | eq ↦ y ∷ ys | gt ↦ e ∷ y ∷ ys ])
        go lt q rest = (
          All-of_In (Before y) (put cmp e ys) (λ x k. elim (In-put_inv e x ys k) [
            | inl p ↦ subst (Before y) (sym p) (before y q)
            | inr i ↦ All-In (Before y) x ys sorted.0 i
          ]),
          rest,
        )
        go eq q rest = sorted
        go gt q rest = (
          (
            after y q,
            All-of_In (Before e) ys
                (λ x k. after x (cut.above y x (All-In (Before y) x ys sorted.0 k) q)),
          ),
          sorted,
        )
