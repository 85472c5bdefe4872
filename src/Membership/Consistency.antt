-- ===== src/Membership/Consistency.antt =====
-- The invariant of the member list: the array, the index by address and the local member agree,
-- and every operation keeps it.
use ringpop_node.Common.{
  ℕ, suc, ◌<◌, String, ◌≡◌, ◌≢◌, not, none, some, arith, keep, insert_idx, In, Distinct,
  In-insert_idx, In-insert_idx_self, Distinct-insert_idx, In-keep, In-keep_inv, Distinct-keep,
  In-insert_idx_inv, lookup, insert, delete, lookup-insert, lookup-delete, ◌==◌, eq_iff,
}
use ringpop_node.Config.{Env}
use ringpop_node.Member.{Member}
use ringpop_node.Membership.State.{Membership, write, init}

-- The array holds each member once, the index names exactly the members of the array, each under
-- its own address, and the local member, if there is one, is indexed under the node's address.
pub record IsConsistent (env : Env) (m : Membership) : Type 0 where
  pub indexed :
      (a : String) (r : ℕ)
      → lookup a m.members_by_address ≡ some r
      → ((m.heap r).address ≡ a) × (r < m.next) × In r m.members
  pub listed : (r : ℕ) → In r m.members → lookup (m.heap r).address m.members_by_address ≡ some r
  pub distinct : Distinct m.members
  pub local : (r : ℕ) → m.local_member ≡ some r → lookup env.whoami m.members_by_address ≡ some r

pub init-IsConsistent : (env : Env) (blank : Member) → IsConsistent env (init blank)
unfolding init lookup
init-IsConsistent env blank = record {
  indexed = λ a r e. cc;
  listed = λ r h. absurd h;
  distinct = tt;
  local = λ r e. cc;
}

module _ {env : Env} {m : Membership} (v : IsConsistent env m) where
  pub listed-lt : (r : ℕ) → In r m.members → r < m.next
  listed-lt r h = (v.indexed (m.heap r).address r (v.listed r h)).1

  pub local_address : (r : ℕ) → m.local_member ≡ some r → (m.heap r).address ≡ env.whoami
  local_address r e = (v.indexed env.whoami r (v.local r e)).0

  -- A write that keeps the object's address.
  pub write-IsConsistent :
      (r : ℕ) (x : Member)
      → x.address ≡ (m.heap r).address
      → IsConsistent env (record m { heap = write m.heap r x })
  write-IsConsistent r x e = record {
    indexed = λ a q h. ground (arith, v.indexed a q h);
    listed = λ q h. ground (arith, v.listed q h);
    distinct = v.distinct;
    local = v.local;
  }

  -- A new object under a new address.
  pub add-IsConsistent :
      (position : ℕ) (x : Member)
      → lookup x.address m.members_by_address ≡ none
      → IsConsistent env (record m {
        heap = write m.heap m.next x;
        next = suc m.next;
        members = insert_idx m.members position m.next;
        members_by_address = insert x.address m.next m.members_by_address;
      })
  add-IsConsistent position x fresh = record {
    indexed = λ a q h. ground (
      arith,
      lookup-insert x.address a m.next m.members_by_address,
      eq_iff x.address a,
      v.indexed a q,
      In-insert_idx m.members position m.next q,
      In-insert_idx_self m.members position m.next,
    );
    listed = λ q h. ground (
      arith,
      In-insert_idx_inv m.members position m.next q h,
      listed-lt q,
      v.listed q,
      lookup-insert x.address (m.heap q).address m.next m.members_by_address,
      lookup-insert x.address x.address m.next m.members_by_address,
      eq_iff x.address x.address,
      eq_iff x.address (m.heap q).address,
    );
    distinct =
        Distinct-insert_idx m.members position m.next
          (λ h. absurd (omega (arith, listed-lt m.next h))) v.distinct;
    local = λ q h. ground (
      arith,
      v.local q h,
      lookup-insert x.address env.whoami m.next m.members_by_address,
      eq_iff x.address env.whoami,
    );
  }

  pub remove-IsConsistent :
      (a : String) (r : ℕ)
      → lookup a m.members_by_address ≡ some r
      → a ≢ env.whoami
      → IsConsistent env (record m {
        members_by_address = delete a m.members_by_address;
        members = keep (λ q. not (q == r)) m.members;
      })
  remove-IsConsistent a r e n = record {
    indexed = λ b q h. ground (
      arith,
      lookup-delete a b m.members_by_address,
      eq_iff a b,
      v.indexed b q,
      v.indexed a r e,
      In-keep (λ q. not (q == r)) m.members q,
    );
    listed = λ q h. ground (
      arith,
      In-keep_inv (λ q. not (q == r)) m.members q h,
      v.listed q,
      lookup-delete a (m.heap q).address m.members_by_address,
      eq_iff a (m.heap q).address,
    );
    distinct = Distinct-keep (λ q. not (q == r)) m.members v.distinct;
    local = λ q h.
        ground (
          arith,
          v.local q h,
          lookup-delete a env.whoami m.members_by_address,
          eq_iff a env.whoami,
        );
  }
