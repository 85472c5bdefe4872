-- ===== src/Common/Words.antt =====
-- The order of strings under JavaScript's `<`: by code, the shorter first where one is a prefix.
use Prim.Native.Char.{code}
use Prim.Native.String.{String}
use Prim.Native.Nat.{ℕ, compare, Ordering}
use Prim.Native.Nat.Ordering.{lt, eq, gt}
use mathlib.Core.Path.{◌≡◌, refl}
use mathlib.Core.List.{List, [], ◌∷◌}
use native.Mathlib.Omega.{arith}
use text.Mathlib.TextEquality.{Char-path}

abbrev pub codes : String → List ℕ
codes String.[] = []
codes (String.◌∷◌ first rest) = code first ∷ codes rest

unfoldable pub compare_words : List ℕ → List ℕ → Ordering
compare_words [] [] = eq
compare_words [] (b ∷ bs) = lt
compare_words (a ∷ as') [] = gt
compare_words (a ∷ as') (b ∷ bs) = elim (compare a b) [
  | lt ↦ lt
  | gt ↦ gt
  | eq ↦ compare_words as' bs
]

pub eq_of_compare_words : (a b : List ℕ) → compare_words a b ≡ eq → a ≡ b
unfolding compare_words
eq_of_compare_words [] [] h = refl
eq_of_compare_words [] (b ∷ bs) h = cc
eq_of_compare_words (a ∷ as') [] h = cc
eq_of_compare_words (a ∷ as') (b ∷ bs) h = ground (arith, eq_of_compare_words as' bs)

pub compare_words_refl : (a : List ℕ) → compare_words a a ≡ eq
unfolding compare_words
compare_words_refl [] = refl
compare_words_refl (a ∷ as') = ground (arith, compare_words_refl as')

pub compare_words-gt : (a b : List ℕ) → compare_words a b ≡ gt → compare_words b a ≡ lt
unfolding compare_words
compare_words-gt [] [] h = cc
compare_words-gt [] (b ∷ bs) h = cc
compare_words-gt (a ∷ as') [] h = refl
compare_words-gt (a ∷ as') (b ∷ bs) h = ground (arith, compare_words-gt as' bs)

pub compare_words-lt : (a b : List ℕ) → compare_words a b ≡ lt → compare_words b a ≡ gt
unfolding compare_words
compare_words-lt [] [] h = cc
compare_words-lt [] (b ∷ bs) h = refl
compare_words-lt (a ∷ as') [] h = cc
compare_words-lt (a ∷ as') (b ∷ bs) h = ground (arith, compare_words-lt as' bs)

pub compare_words_trans :
    (a b c : List ℕ) → compare_words a b ≡ lt → compare_words b c ≡ lt → compare_words a c ≡ lt
unfolding compare_words
compare_words_trans [] [] c h k = cc
compare_words_trans [] (b ∷ bs) [] h k = cc
compare_words_trans [] (b ∷ bs) (c ∷ cs) h k = refl
compare_words_trans (a ∷ as') [] c h k = cc
compare_words_trans (a ∷ as') (b ∷ bs) [] h k = cc
compare_words_trans (a ∷ as') (b ∷ bs) (c ∷ cs) h k = ground (arith, compare_words_trans as' bs cs)

pub codes_injective : (s t : String) → codes s ≡ codes t → s ≡ t
codes_injective String.[] String.[] h = refl
codes_injective String.[] (String.◌∷◌ d t) h = cc
codes_injective (String.◌∷◌ c s) String.[] h = cc
codes_injective (String.◌∷◌ c s) (String.◌∷◌ d t) h =
    λ i. String.◌∷◌ (Char-path c d (cc) i) (codes_injective s t (cc) i)
