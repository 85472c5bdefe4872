-- ===== src/Common/Keys.antt =====
-- The keys and the values of a map.
use ringpop_node.Common.Tests.{if◌then◌else◌, Bool-cases, is_some}
use ringpop_node.Common.Items.{In, Distinct}
use ringpop_node.Common.Dicts.{Dict, lookup, insert, delete, keys}
use Prim.Native.String.{String}
use mathlib.Core.Path.{◌≡◌, refl, sym, subst}
use mathlib.Core.Logic.{◌⊎◌, ◌↔◌, inl, inr}
use mathlib.Core.Bool.{Bool, true, false}
use mathlib.Core.List.{List, [], ◌∷◌, map}
use mathlib.Core.Option.{some}
use native.Mathlib.Omega.{arith}
use text.Mathlib.Text.{◌==◌ as str_eq}
use text.Mathlib.TextEquality.{eq_iff}

module _ {V : Type 0} where
  unfoldable pub values : Dict V → List V
  values [] = []
  values ((k, v) ∷ m) = v ∷ values m

  pub lookup_of_key : (k : String) (m : Dict V) → In k (keys m) → (v : V) × (lookup k m ≡ some v)
  unfolding lookup keys
  lookup_of_key k [] h = absurd h
  lookup_of_key k ((j, w) ∷ m) (inl e) = (w, ground (arith, e, eq_iff j k))
  lookup_of_key k ((j, w) ∷ m) (inr h) = elim (Bool-cases (str_eq j k)) [
    | inl e ↦ (w, rw e)
    | inr e ↦ (let (v, q) = lookup_of_key k m h in (v, rw e q))
  ]

  pub key_of_lookup : (k : String) (v : V) (m : Dict V) → lookup k m ≡ some v → In k (keys m)
  unfolding lookup keys
  key_of_lookup k v [] h = cc
  key_of_lookup k v ((j, w) ∷ m) h = ground (arith, eq_iff j k, key_of_lookup k v m)

  key_of_insert :
      (k j : String) (v : V) (m : Dict V) → In j (keys (insert k v m)) → (j ≡ k) ⊎ In j (keys m)
  unfolding insert keys
  key_of_insert k j v [] h = h
  key_of_insert k j v ((i, w) ∷ m) h = ground (arith, key_of_insert k j v m)

  pub Distinct-insert :
      (k : String) (v : V) (m : Dict V) → Distinct (keys m) → Distinct (keys (insert k v m))
  unfolding insert keys
  Distinct-insert k v [] d = ((λ h. h), tt)
  Distinct-insert k v ((j, w) ∷ m) d = elim (Bool-cases (str_eq j k)) [
    | inl e ↦ rw e d
    | inr e ↦ rw e (
      (λ h. elim (key_of_insert k j v m h) [
        | inl q ↦ ground (arith, e, q, eq_iff j k)
        | inr q ↦ d.0 q
      ]),
      Distinct-insert k v m d.1,
    )
  ]

  pub value_of_lookup : (k : String) (v : V) (m : Dict V) → lookup k m ≡ some v → In v (values m)
  unfolding lookup values
  value_of_lookup k v [] h = cc
  value_of_lookup k v ((j, w) ∷ m) h = ground (arith, value_of_lookup k v m)

  pub lookup_of_value :
      (v : V) (m : Dict V)
      → Distinct (keys m)
      → In v (values m)
      → (k : String) × (lookup k m ≡ some v)
  unfolding lookup keys values
  lookup_of_value v [] d h = absurd h
  lookup_of_value v ((j, w) ∷ m) d (inl e) = (j, ground (arith, eq_iff j j))
  lookup_of_value v ((j, w) ∷ m) d (inr h) =
      let (k, q) = lookup_of_value v m d.1 h in
      (
        k,
        elim (Bool-cases (str_eq j k)) [
          | inl e ↦
              absurd
                (d.0 (subst (λ x. In x (keys m)) (sym ((eq_iff j k).0 e)) (key_of_lookup k v m q)))
          | inr e ↦ rw e q
        ],
      )

  -- Where each value is filed under a name that it carries, the names are the keys.
  pub map-values :
      (f : V → String) (m : Dict V)
      → Distinct (keys m)
      → ((k : String) (v : V) → lookup k m ≡ some v → f v ≡ k)
      → map f (values m) ≡ keys m
  unfolding lookup keys values
  map-values f [] d h = refl
  map-values f ((j, w) ∷ m) d h =
      λ i. h j w (ground (arith, eq_iff j j)) i ∷ map-values f m d.1 tail i
    where
      tail : (k : String) (v : V) → lookup k m ≡ some v → f v ≡ k
      tail k v q = elim (Bool-cases (str_eq j k)) [
        | inl e ↦
            absurd
              (d.0 (subst (λ x. In x (keys m)) (sym ((eq_iff j k).0 e)) (key_of_lookup k v m q)))
        | inr e ↦ h k v (rw e q)
      ]

-- `excluding.indexOf(a) > -1`.
unfoldable pub contains : String → List String → Bool
contains a [] = false
contains a (b ∷ bs) = if str_eq b a then true else contains a bs

pub contains_iff : (a : String) (bs : List String) → (contains a bs ≡ true) ↔ In a bs
unfolding contains
contains_iff a [] = ground arith
contains_iff a (b ∷ bs) = (
  λ h. elim (Bool-cases (str_eq b a)) [
    | inl e ↦ inl (sym ((eq_iff b a).0 e))
    | inr e ↦ inr ((contains_iff a bs).0 (rw e at h))
  ],
  λ h. elim h [
    | inl e ↦ ground (arith, eq_iff b a, e)
    | inr k ↦ ground (arith, (contains_iff a bs).1 k)
  ],
)

pub contains-keys :
    {V : Type 0} (a : String) (m : Dict V) → contains a (keys m) ≡ is_some (lookup a m)
unfolding contains keys lookup
contains-keys a [] = refl
contains-keys a ((j, w) ∷ m) = ground (arith, contains-keys a m)

key_of_delete : {V : Type 0} (k j : String) (m : Dict V) → In j (keys (delete k m)) → In j (keys m)
unfolding delete keys
key_of_delete k j [] h = h
key_of_delete k j ((i, w) ∷ m) h = ground (arith, key_of_delete k j m)

pub Distinct-delete :
    {V : Type 0} (k : String) (m : Dict V) → Distinct (keys m) → Distinct (keys (delete k m))
unfolding delete keys
Distinct-delete k [] d = d
Distinct-delete k ((i, w) ∷ m) d = elim (Bool-cases (str_eq i k)) [
  | inl e ↦ rw e (Distinct-delete k m d.1)
  | inr e ↦ rw e ((λ h. d.0 (key_of_delete k i m h)), Distinct-delete k m d.1)
]
