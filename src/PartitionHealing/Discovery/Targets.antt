-- ===== src/PartitionHealing/Discovery/Targets.antt =====
-- The hosts that `heal` tries: the targets among the hosts, in the order of the shuffle.
use ringpop_node.Common.{
  ◌≡◌, refl, subst, ◌⊎◌, inl, inr, String, true, false, List, Option, none, some, In, In-keep,
  In-keep_inv, Distinct, Distinct-keep, arith, ◌≢◌, ◌↔◌, keep, eq_iff, str_eq, if◌then◌else◌,
}
use ringpop_node.Config.{Env}
use ringpop_node.Member.{
  Member, Status, alive, suspect, faulty, leave, tombstone, unknown, status_precedence,
}
use ringpop_node.Membership.State.{Membership, find_member_by_address}
use ringpop_node.PartitionHealing.Discovery.{
  get_targets, is_host_a_valid_target, is_lost, is_faulty_or_above,
}

-- What a shuffle keeps: the elements, and that they are not repeated.
pub record IsShuffle (shuffle : List String → List String) : Type 0 where
  pub elements : (xs : List String) (x : String) → In x (shuffle xs) ↔ In x xs
  pub distinct : (xs : List String) → Distinct xs → Distinct (shuffle xs)

-- A host to heal with: another one, which is unknown, faulty, has left or is a tombstone.
pub record IsTarget (env : Env) (m : Membership) (host : String) : Type 0 where
  pub other : host ≢ env.whoami
  pub lost :
      (member : Member)
      → find_member_by_address m host ≡ some member
      → (member.status ≡ faulty) ⊎ ((member.status ≡ leave) ⊎ (member.status ≡ tombstone))

faulty_or_above :
    (status : Status)
    → (is_faulty_or_above status ≡ true)
      ↔ ((status ≡ faulty) ⊎ ((status ≡ leave) ⊎ (status ≡ tombstone)))
unfolding is_faulty_or_above status_precedence
faulty_or_above alive = ((λ h. ground (arith, h)), λ h. ground (arith, h))
faulty_or_above suspect = ((λ h. ground (arith, h)), λ h. ground (arith, h))
faulty_or_above faulty = ((λ h. inl refl), λ h. refl)
faulty_or_above leave = ((λ h. inr (inl refl)), λ h. refl)
faulty_or_above tombstone = ((λ h. inr (inr refl)), λ h. refl)
faulty_or_above (unknown text) = ((λ h. ground (arith, h)), λ h. ground (arith, h))

is_host_a_valid_target-IsTarget :
    (env : Env) (m : Membership) (host : String)
    → (is_host_a_valid_target env m host ≡ true) ↔ IsTarget env m host
unfolding is_host_a_valid_target
is_host_a_valid_target-IsTarget env m host = (
  (λ h. record {
    other = λ e. ground (arith, h, e, eq_iff host env.whoami);
    lost = λ member e.
        (faulty_or_above member.status).0
          (subst (λ found. is_lost found ≡ true) e (ground (arith, h)));
  }),
  (λ v. go (find_member_by_address m host) refl v),
)
  where
    go :
        (found : Option Member)
        → find_member_by_address m host ≡ found
        → IsTarget env m host
        → (if str_eq host env.whoami then false else is_lost found) ≡ true
    go none e v = ground (arith, v.other, eq_iff host env.whoami)
    go (some member) e v = ground (
      arith,
      v.other,
      eq_iff host env.whoami,
      (faulty_or_above member.status).1 (v.lost member e),
    )

pub get_targets_iff :
    (shuffle : List String → List String) (env : Env) (m : Membership) (hosts : List String)
    (t : String)
    → IsShuffle shuffle
    → In t (get_targets shuffle env m hosts) ↔ (In t hosts × IsTarget env m t)
unfolding get_targets
get_targets_iff shuffle env m hosts t v = (
  (λ h.
      let (there, good) =
        In-keep_inv (is_host_a_valid_target env m) hosts t
          ((v.elements (keep (is_host_a_valid_target env m) hosts) t).0 h) in
      (there, (is_host_a_valid_target-IsTarget env m t).0 good)),
  (λ h. (v.elements (keep (is_host_a_valid_target env m) hosts) t).1 (
      In-keep (is_host_a_valid_target env m) hosts t h.0
        ((is_host_a_valid_target-IsTarget env m t).1 h.1))),
)

pub distinct_targets :
    (shuffle : List String → List String) (env : Env) (m : Membership) (hosts : List String)
    → IsShuffle shuffle
    → Distinct hosts
    → Distinct (get_targets shuffle env m hosts)
unfolding get_targets
distinct_targets shuffle env m hosts v d =
    v.distinct (keep (is_host_a_valid_target env m) hosts)
      (Distinct-keep (is_host_a_valid_target env m) hosts d)
