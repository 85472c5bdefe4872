-- ===== src/Ring/Points.antt =====
-- lib/ring/index.js: the replica points and `HashRing.comparator`.
--
-- A key without an address has the empty one, as the comparator reads it. The value that the tree keeps with
-- a replica point is the server, which is the point's address.
use Prim.Native.Nat.{Ordering, compare}
use Prim.Native.Nat.Ordering.{lt, eq, gt}
use ringpop_node.Common.{
  ℕ, String, codes, compare_words, compare_words_refl, compare_words-gt, compare_words-lt,
  compare_words_trans, eq_of_compare_words, codes_injective, ◌≡◌, refl, sym, ap, ◌∙◌, List, [], ◌∷◌,
  ◌++◌, if◌then◌else◌, str_eq, eq_iff, arith, Bool-cases, inl, inr,
}
use ringpop_node.Config.{Env}
use ringpop_node.Membership.Checksum.{decimal}
use ringpop_node.Ring.Sorted.{IsCut}
use ringpop_node.Ring.RbTree.Remove.InOrder.{reversed}

pub record ReplicaPoint : Type 0 where
  pub hash : ℕ
  pub address : String
  pub index : ℕ

-- For strings that are not the same.
unlike : Ordering → Ordering
unlike gt = gt
unlike eq = lt
unlike lt = lt

-- The sign of the number that the source returns.
unfoldable pub comparator : ReplicaPoint → ReplicaPoint → Ordering
unfolding unlike
comparator a b = elim (compare a.hash b.hash) [
  | lt ↦ lt
  | gt ↦ gt
  | eq ↦
      if str_eq a.address b.address
      then eq
      else unlike (compare_words (codes a.address) (codes b.address))
]

unfoldable pub new_replica_point : Env → String → ℕ → ReplicaPoint
new_replica_point env address replica = record {
  hash = env.hash_func (codes address ++ decimal replica);
  address = address;
  index = replica;
}

-- The order is that of the words of a hash and an address.
abbrev word : ReplicaPoint → List ℕ
word p = p.hash ∷ codes p.address

unlike_lem :
    (s t : String)
    → (if str_eq s t then eq else unlike (compare_words (codes s) (codes t)))
      ≡ compare_words (codes s) (codes t)
unfolding unlike
unlike_lem s t = go (compare_words (codes s) (codes t)) refl
  where
    go :
        (o : Ordering)
        → compare_words (codes s) (codes t) ≡ o
        → (if str_eq s t then eq else unlike o) ≡ o
    go lt h = elim (Bool-cases (str_eq s t)) [
      | inl e ↦
          absurd (ground (arith, h, compare_words_refl (codes t), ap codes ((eq_iff s t).0 e)))
      | inr e ↦ rw e refl
    ]
    go gt h = elim (Bool-cases (str_eq s t)) [
      | inl e ↦
          absurd (ground (arith, h, compare_words_refl (codes t), ap codes ((eq_iff s t).0 e)))
      | inr e ↦ rw e refl
    ]
    go eq h =
        rw ((eq_iff s t).1 (codes_injective s t (eq_of_compare_words (codes s) (codes t) h))) refl

comparator_words : (a b : ReplicaPoint) → comparator a b ≡ compare_words (word a) (word b)
unfolding comparator compare_words
comparator_words a b = go (compare a.hash b.hash)
  where
    go :
        (o : Ordering)
        → elim o [
          | lt ↦ lt
          | gt ↦ gt
          | eq ↦
              if str_eq a.address b.address
              then eq
              else unlike (compare_words (codes a.address) (codes b.address))
        ]
          ≡ elim o [ lt ↦ lt | gt ↦ gt | eq ↦ compare_words (codes a.address) (codes b.address) ]
    go lt = refl
    go gt = refl
    go eq = unlike_lem a.address b.address

abbrev pub Before : ReplicaPoint → ReplicaPoint → Type 0
Before a b = comparator a b ≡ lt

pub comparator_refl : (a : ReplicaPoint) → comparator a a ≡ eq
comparator_refl a = comparator_words a a ∙ compare_words_refl (word a)

pub comparator-reversed : (a b : ReplicaPoint) → reversed (comparator a b) ≡ comparator b a
comparator-reversed a b =
    ap reversed (comparator_words a b)
    ∙ (go (compare_words (word a) (word b)) refl ∙ sym (comparator_words b a))
  where
    go :
        (o : Ordering)
        → compare_words (word a) (word b) ≡ o
        → reversed o ≡ compare_words (word b) (word a)
    go lt h = sym (compare_words-lt (word a) (word b) h)
    go gt h = sym (compare_words-gt (word a) (word b) h)
    go eq h = sym (
        ap (λ w. compare_words w (word a)) (sym (eq_of_compare_words (word a) (word b) h))
        ∙ compare_words_refl (word a))

pub comparator_trans : (a b c : ReplicaPoint) → Before a b → Before b c → Before a c
comparator_trans a b c h k =
    comparator_words a c
    ∙ compare_words_trans (word a) (word b) (word c) (sym (comparator_words a b) ∙ h)
        (sym (comparator_words b c) ∙ k)

-- Points that compare equal have the same hash and address, and compare alike.
pub same_word : (a b : ReplicaPoint) → comparator a b ≡ eq → word a ≡ word b
same_word a b h = eq_of_compare_words (word a) (word b) (sym (comparator_words a b) ∙ h)

pub comparator_alike :
    (a b c : ReplicaPoint) → comparator a b ≡ eq → comparator c a ≡ comparator c b
comparator_alike a b c h =
    comparator_words c a
    ∙ (ap (compare_words (word c)) (same_word a b h) ∙ sym (comparator_words c b))

pub comparator_alike_left :
    (a b c : ReplicaPoint) → comparator a b ≡ eq → comparator a c ≡ comparator b c
comparator_alike_left a b c h =
    sym (comparator-reversed c a)
    ∙ (ap reversed (comparator_alike a b c h) ∙ comparator-reversed c b)

pub same_address : (a b : ReplicaPoint) → comparator a b ≡ eq → a.address ≡ b.address
same_address a b h = codes_injective a.address b.address (ap rest (same_word a b h))
  where
    rest : List ℕ → List ℕ
    rest [] = []
    rest (n ∷ ns) = ns

pub flip : (a b : ReplicaPoint) → comparator a b ≡ gt → Before b a
flip a b h = sym (comparator-reversed a b) ∙ ap reversed h

pub flip_lt : (a b : ReplicaPoint) → Before a b → comparator b a ≡ gt
flip_lt a b h = sym (comparator-reversed a b) ∙ ap reversed h

pub comparator-IsCut : (key : ReplicaPoint) → IsCut Before (λ x. comparator x key)
comparator-IsCut key = record {
  below = λ x y h k. comparator_trans x y key h k;
  below_eq = λ x y h k. sym (comparator_alike y key x k) ∙ h;
  above = λ x y h k. flip_lt key y (comparator_trans key x y (flip x key k) h);
  above_eq = λ x y h k. flip_lt key y (
      sym (comparator-reversed y key)
      ∙ (ap reversed (sym (comparator_alike x key y k)) ∙ ap reversed (flip_lt x y h)));
}

-- `remove` compares the key with the nodes, `insert` the nodes with the key.
abbrev pub key_first : ReplicaPoint → ReplicaPoint → Ordering
key_first key x = reversed (comparator key x)

abbrev pub key_last : ReplicaPoint → ReplicaPoint → Ordering
key_last key x = comparator x key

pub reversed_comparator : (key : ReplicaPoint) → key_first key ≡ key_last key
reversed_comparator key = λ i x. comparator-reversed key x i
