-- ===== src/Membership/Checksum/Order.antt =====
-- The checksum string depends on which members there are and not on their order in the array.
use mathlib.Core.List.{Perm, Permᴰ}
use mathlib.Core.List.Permᴰ
use mathlib.Core.Logic.{∥∥₁_elim}
use ringpop_node.Common.{
  ℕ, ◌≡◌, ◌≢◌, refl, sym, ap, ◌∙◌, inl, inr, subst, String, List, [], ◌∷◌, map, arith, codes,
  codes_injective, eq_of_compare_words, compare_words-gt, compare_words-lt, compare_words_trans, In,
  Distinct,
}
use ringpop_node.Member.{Member}
use ringpop_node.Membership.Checksum.{
  insert_sorted, sort_by_address, concat_strings, drop_last, generate_checksum_string,
}

abbrev name_of : Member → List ℕ
name_of m = codes m.address

insert_sorted_comm :
    (a b : Member) (l : List Member)
    → a.address ≢ b.address
    → insert_sorted a (insert_sorted b l) ≡ insert_sorted b (insert_sorted a l)
unfolding insert_sorted
insert_sorted_comm a b [] n = ground (
  arith,
  eq_of_compare_words (name_of a) (name_of b),
  compare_words-lt (name_of a) (name_of b),
  compare_words-gt (name_of a) (name_of b),
  codes_injective a.address b.address,
)
insert_sorted_comm a b (x ∷ xs) n = ground (
  arith,
  insert_sorted_comm a b xs n,
  eq_of_compare_words (name_of a) (name_of b),
  compare_words-lt (name_of a) (name_of b),
  compare_words-gt (name_of a) (name_of b),
  codes_injective a.address b.address,
  eq_of_compare_words (name_of x) (name_of b),
  eq_of_compare_words (name_of x) (name_of a),
  compare_words-lt (name_of x) (name_of a),
  compare_words-gt (name_of x) (name_of a),
  compare_words-lt (name_of x) (name_of b),
  compare_words-gt (name_of x) (name_of b),
  compare_words_trans (name_of a) (name_of x) (name_of b),
  compare_words_trans (name_of b) (name_of x) (name_of a),
  compare_words_trans (name_of x) (name_of a) (name_of b),
  compare_words_trans (name_of x) (name_of b) (name_of a),
  compare_words_trans (name_of b) (name_of a) (name_of x),
  compare_words_trans (name_of a) (name_of b) (name_of x),
)

abbrev addresses : List Member → List String
addresses = map (λ (m : Member). m.address)

In-of_perm :
    {xs ys : List Member} → Permᴰ xs ys → (a : String) → In a (addresses xs) → In a (addresses ys)
In-of_perm Permᴰ.nil a h = h
In-of_perm (Permᴰ.cons e d) a (inl q) = inl (q ∙ ap (λ x. x.address) e)
In-of_perm (Permᴰ.cons e d) a (inr h) = inr (In-of_perm d a h)
In-of_perm (Permᴰ.swap e f) a (inl q) = inr (inl (q ∙ ap (λ x. x.address) e))
In-of_perm (Permᴰ.swap e f) a (inr (inl q)) = inl (q ∙ ap (λ x. x.address) f)
In-of_perm (Permᴰ.swap e f) a (inr (inr h)) = inr (inr h)
In-of_perm (Permᴰ.trans d f) a h = In-of_perm f a (In-of_perm d a h)

Distinct-of_perm :
    {xs ys : List Member} → Permᴰ xs ys → Distinct (addresses xs) → Distinct (addresses ys)
Distinct-of_perm Permᴰ.nil h = h
Distinct-of_perm (Permᴰ.cons {a = x} {b = y} {l₁ = xs'} {l₂ = ys'} e d) h = (
  (λ k. h.0 (
      subst (λ (z : Member). In z.address (addresses xs')) (sym e)
        (In-of_perm (Permᴰ.symm d) y.address k))),
  Distinct-of_perm d h.1,
)
Distinct-of_perm (Permᴰ.swap {l = l} e f) h = (
  (λ k. elim k [
    | inl q ↦ h.0 (inl (ap (λ x. x.address) e ∙ (sym q ∙ sym (ap (λ x. x.address) f))))
    | inr i ↦ h.1.0 (subst (λ s. In s (addresses l)) (sym (ap (λ x. x.address) f)) i)
  ]),
  ((λ k. h.0 (inr (subst (λ s. In s (addresses l)) (sym (ap (λ x. x.address) e)) k))), h.1.1),
)
Distinct-of_perm (Permᴰ.trans d f) h = Distinct-of_perm f (Distinct-of_perm d h)

sort_by_address-perm :
    {xs ys : List Member}
    → Permᴰ xs ys
    → Distinct (addresses xs)
    → sort_by_address xs ≡ sort_by_address ys
unfolding sort_by_address
sort_by_address-perm Permᴰ.nil h = refl
sort_by_address-perm (Permᴰ.cons {a = a} {b = b} {l₂ = ys} e d) h =
    ap (insert_sorted a) (sort_by_address-perm d h.1)
    ∙ ap (λ x. insert_sorted x (sort_by_address ys)) e
sort_by_address-perm (Permᴰ.swap {a = a} {b = b} {a' = a'} {l = l} e f) h =
    insert_sorted_comm a b (sort_by_address l) (λ q. h.0 (inl q))
    ∙ (ap (λ x. insert_sorted x (insert_sorted a (sort_by_address l))) f
        ∙ ap (λ x. insert_sorted a' (insert_sorted x (sort_by_address l))) e)
sort_by_address-perm (Permᴰ.trans d f) h =
    sort_by_address-perm d h ∙ sort_by_address-perm f (Distinct-of_perm d h)

codes_set : IsSet (List ℕ)
codes_set = hlevel

-- Two arrays that hold the same members in different orders have the same checksum string, as
-- long as no two members share an address.
pub generate_checksum_string-perm :
    (xs ys : List Member)
    → Perm xs ys
    → Distinct (map (λ (m : Member). m.address) xs)
    → generate_checksum_string xs ≡ generate_checksum_string ys
unfolding generate_checksum_string
generate_checksum_string-perm xs ys p h =
    ∥∥₁_elim p (codes_set (generate_checksum_string xs) (generate_checksum_string ys))
      (λ d. ap (λ l. drop_last (concat_strings l)) (sort_by_address-perm d h))
