-- ===== src/Common/Items.antt =====
-- The items of a list, as a predicate by recursion, and lists without repetition.
use Prim.Native.Nat.{ℕ, zero, suc}
use mathlib.Core.Path.{◌≡◌, refl, sym, subst}
use mathlib.Core.Logic.{◌⊎◌, inl, inr}
use mathlib.Core.Bool.{Bool, true}
use mathlib.Core.List.{List, [], ◌∷◌}
use native.Mathlib.Omega.{arith}
use ringpop_node.Common.Tests.{Bool-cases}
use ringpop_node.Common.Lists.{insert_idx, keep, All}

module _ {A : Type 0} where
  -- `a` is an item of the list; a recursive predicate, which the tactics take apart.
  abbrev pub In : A → List A → Type 0
  In a [] = ⊥
  In a (x ∷ xs) = (a ≡ x) ⊎ In a xs

  abbrev pub Distinct : List A → Type 0
  Distinct [] = Unit
  Distinct (x ∷ xs) = ¬ In x xs × Distinct xs

  pub In-insert_idx_self : (xs : List A) (i : ℕ) (a : A) → In a (insert_idx xs i a)
  In-insert_idx_self [] zero a = inl refl
  In-insert_idx_self (x ∷ xs) zero a = inl refl
  In-insert_idx_self [] (suc i) a = inl refl
  In-insert_idx_self (x ∷ xs) (suc i) a = inr (In-insert_idx_self xs i a)

  pub In-insert_idx : (xs : List A) (i : ℕ) (a b : A) → In b xs → In b (insert_idx xs i a)
  In-insert_idx [] i a b h = absurd h
  In-insert_idx (x ∷ xs) zero a b h = inr h
  In-insert_idx (x ∷ xs) (suc i) a b (inl e) = inl e
  In-insert_idx (x ∷ xs) (suc i) a b (inr h) = inr (In-insert_idx xs i a b h)

  pub In-insert_idx_inv :
      (xs : List A) (i : ℕ) (a b : A) → In b (insert_idx xs i a) → (b ≡ a) ⊎ In b xs
  In-insert_idx_inv [] zero a b h = h
  In-insert_idx_inv (x ∷ xs) zero a b h = h
  In-insert_idx_inv [] (suc i) a b h = h
  In-insert_idx_inv (x ∷ xs) (suc i) a b (inl e) = inr (inl e)
  In-insert_idx_inv (x ∷ xs) (suc i) a b (inr h) = elim (In-insert_idx_inv xs i a b h) [
    | inl e ↦ inl e
    | inr k ↦ inr (inr k)
  ]

  pub Distinct-insert_idx :
      (xs : List A) (i : ℕ) (a : A) → ¬ In a xs → Distinct xs → Distinct (insert_idx xs i a)
  Distinct-insert_idx [] zero a n d = (n, d)
  Distinct-insert_idx (x ∷ xs) zero a n d = (n, d)
  Distinct-insert_idx [] (suc i) a n d = (n, d)
  Distinct-insert_idx (x ∷ xs) (suc i) a n d = (
    (λ h. elim (In-insert_idx_inv xs i a x h) [ inl e ↦ n (inl (sym e)) | inr k ↦ d.0 k ]),
    Distinct-insert_idx xs i a (λ h. n (inr h)) d.1,
  )

  pub In-keep : (p : A → Bool) (xs : List A) (b : A) → In b xs → p b ≡ true → In b (keep p xs)
  In-keep p [] b h e = absurd h
  In-keep p (x ∷ xs) b (inl q) e = ground arith
  In-keep p (x ∷ xs) b (inr h) e = ground (arith, In-keep p xs b h e)

  pub In-keep_inv : (p : A → Bool) (xs : List A) (b : A) → In b (keep p xs) → In b xs × (p b ≡ true)
  In-keep_inv p [] b h = absurd h
  In-keep_inv p (x ∷ xs) b h = elim (Bool-cases (p x)) [
    | inl e ↦ keep_head e (In-keep_inv p xs b) (rw e at h)
    | inr e ↦ (let (k, q) = In-keep_inv p xs b (rw e at h) in (inr k, q))
  ]
    where
      keep_head :
          p x ≡ true
          → (In b (keep p xs) → In b xs × (p b ≡ true))
          → (b ≡ x) ⊎ In b (keep p xs)
          → In b (x ∷ xs) × (p b ≡ true)
      keep_head e rest (inl q) = (inl q, rw q e)
      keep_head e rest (inr k) = let (k', q) = rest k in (inr k', q)

  pub Distinct-keep : (p : A → Bool) (xs : List A) → Distinct xs → Distinct (keep p xs)
  Distinct-keep p [] d = tt
  Distinct-keep p (x ∷ xs) d = elim (Bool-cases (p x)) [
    | inl e ↦ rw e ((λ h. d.0 (In-keep_inv p xs x h).0), Distinct-keep p xs d.1)
    | inr e ↦ rw e (Distinct-keep p xs d.1)
  ]

  pub All-of_In {κ} : (P : A → Type κ) (xs : List A) → ((a : A) → In a xs → P a) → All P xs
  All-of_In P [] f = tt
  All-of_In P (x ∷ xs) f = (f x (inl refl), All-of_In P xs (λ a h. f a (inr h)))

  pub In_of_All {κ} : (P : A → Type κ) (xs : List A) (a : A) → All P xs → In a xs → P a
  In_of_All P [] a h k = absurd k
  In_of_All P (x ∷ xs) a h (inl e) = subst P (sym e) h.0
  In_of_All P (x ∷ xs) a h (inr k) = In_of_All P xs a h.1 k
