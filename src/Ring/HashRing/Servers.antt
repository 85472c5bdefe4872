-- ===== src/Ring/HashRing/Servers.antt =====
-- The ring holds the replica points of its servers, and which servers those are.
use Prim.Native.Nat.Ordering.{eq}
use ringpop_node.Common.{
  ℕ, zero, suc, String, Bool, true, false, not, ◌&&◌, ◌||◌, ◌≡◌, ◌≢◌, refl, sym, ap, subst, ◌∙◌,
  ◌⊎◌, inl, inr, List, [], ◌∷◌, none, some, Dict, lookup, insert, delete, lookup-insert,
  lookup-delete, get_or, if◌then◌else◌, str_eq, eq_iff, Bool-cases, arith,
}
use ringpop_node.Config.{Env}
use ringpop_node.Ring.RbTree.{Tree}
use ringpop_node.Ring.Points.{
  ReplicaPoint, comparator, new_replica_point, comparator_refl, same_address,
}
use ringpop_node.Ring.HashRing.{
  HashRing, RingEvent, is_server, has_server, add_server_replicas, remove_server_replicas,
  add_servers, remove_servers, announce, add_remove_servers, remove_replicas, compute_checksum,
}
use ringpop_node.Ring.HashRing.Replicas.{
  Holds, Holds-same, IsReplica, IsApart, Holds-insert_replicas, Holds-remove_replicas,
}

is_server-insert :
    (name asked : String) (servers : Dict Bool)
    → is_server asked (insert name true servers) ≡ (is_server asked servers || str_eq name asked)
unfolding is_server
is_server-insert name asked servers =
    ap (λ o. get_or o false) (lookup-insert name asked true servers) ∙ go (str_eq name asked)
  where
    go :
        (same : Bool)
        → get_or (if same then some true else lookup asked servers) false
          ≡ (get_or (lookup asked servers) false || same)
    go true = ground arith
    go false = ground arith

is_server-delete :
    (name asked : String) (servers : Dict Bool)
    → is_server asked (delete name servers) ≡ (is_server asked servers && not (str_eq name asked))
unfolding is_server
is_server-delete name asked servers =
    ap (λ o. get_or o false) (lookup-delete name asked servers) ∙ go (str_eq name asked)
  where
    go :
        (same : Bool)
        → get_or (if same then none else lookup asked servers) false
          ≡ (get_or (lookup asked servers) false && not same)
    go true = ground arith
    go false = ground arith

-- A list of names has a name.
unfoldable pub is_listed : String → List String → Bool
is_listed name [] = false
is_listed name (x ∷ xs) = str_eq x name || is_listed name xs

module _ (env : Env) where
  abbrev IsPoint : ℕ → Dict Bool → ReplicaPoint → Type 0
  IsPoint n servers p = (is_server p.address servers ≡ true) × IsReplica env p.address 0 n p

  -- The tree holds the replica points of the servers, and no other.
  abbrev pub IsRing : HashRing → Type 0
  IsRing ring = Holds (IsPoint ring.replica_points ring.servers) ring.rbtree

  replica_address :
      (server : String) (i n : ℕ) (p : ReplicaPoint)
      → IsReplica env server i n p
      → p.address ≡ server
  unfolding new_replica_point
  replica_address server i zero p h = absurd h
  replica_address server i (suc n) p (inl e) = ap (λ q. q.address) e
  replica_address server i (suc n) p (inr h) = replica_address server (suc i) n p h

  other_address :
      (server : String) (i n : ℕ) (p : ReplicaPoint) → p.address ≢ server → IsApart env server i n p
  unfolding new_replica_point
  other_address server i zero p h = tt
  other_address server i (suc n) p h = (
    (λ e. h (same_address p (new_replica_point env server i) e)),
    other_address server (suc i) n p h,
  )

  IsReplica-not_IsApart :
      (server : String) (i n : ℕ) (p : ReplicaPoint)
      → IsReplica env server i n p
      → ¬ IsApart env server i n p
  IsReplica-not_IsApart server i zero p h = absurd h
  IsReplica-not_IsApart server i (suc n) p (inl e) =
      (λ apart. apart.0 (subst (λ q. comparator p q ≡ eq) e (comparator_refl p)))
  IsReplica-not_IsApart server i (suc n) p (inr h) =
      (λ apart. IsReplica-not_IsApart server (suc i) n p h apart.1)

  with_server : String → Tree ReplicaPoint → HashRing → HashRing
  with_server server t ring = record ring { rbtree = t; servers = insert server true ring.servers }

  add_server_replicas-IsRing :
      (server : String) (ring : HashRing)
      → IsRing ring
      → (t : Tree ReplicaPoint) × (add_server_replicas env server ring
          ≡ some (with_server server t ring))
        × IsRing (with_server server t ring)
  unfolding add_server_replicas with_server
  add_server_replicas-IsRing server ring h =
      let (t, r, held) =
        Holds-insert_replicas env server (IsPoint ring.replica_points ring.servers) 0
          ring.replica_points ring.rbtree h in
      (
        t,
        rw (r, add_server_replicas) refl,
        Holds-same
            (λ p.
              IsPoint ring.replica_points ring.servers p
              ⊎ IsReplica env server 0 ring.replica_points p)
            (IsPoint ring.replica_points (insert server true ring.servers)) t to from held,
      )
    where
      to :
          (p : ReplicaPoint)
          → IsPoint ring.replica_points ring.servers p
            ⊎ IsReplica env server 0 ring.replica_points p
          → IsPoint ring.replica_points (insert server true ring.servers) p
      to p (inl k) = (ground (arith, k.0, is_server-insert server p.address ring.servers), k.1)
      to p (inr k) =
          let q = replica_address server 0 ring.replica_points p k in
          (
            ground (
              arith,
              is_server-insert server p.address ring.servers,
              (eq_iff server p.address).1 (sym q),
            ),
            subst (λ s. IsReplica env s 0 ring.replica_points p) (sym q) k,
          )

      from :
          (p : ReplicaPoint)
          → IsPoint ring.replica_points (insert server true ring.servers) p
          → IsPoint ring.replica_points ring.servers p
            ⊎ IsReplica env server 0 ring.replica_points p
      from p k = elim (Bool-cases (str_eq server p.address)) [
        | inl e ↦ inr (
            subst (λ s. IsReplica env s 0 ring.replica_points p)
              (sym ((eq_iff server p.address).0 e)) k.1)
        | inr e ↦ inl (ground (arith, k.0, e, is_server-insert server p.address ring.servers), k.1)
      ]

  remove_server_replicas-IsRing :
      (server : String) (ring : HashRing)
      → IsRing ring
      → IsRing (remove_server_replicas env server ring)
  unfolding remove_server_replicas
  remove_server_replicas-IsRing server ring h =
      Holds-same
        (λ p.
          IsPoint ring.replica_points ring.servers p × IsApart env server 0 ring.replica_points p)
        (IsPoint ring.replica_points (delete server ring.servers))
        (remove_replicas env server 0 ring.replica_points ring.rbtree) to from
        (Holds-remove_replicas env server (IsPoint ring.replica_points ring.servers) 0
          ring.replica_points ring.rbtree h)
    where
      to :
          (p : ReplicaPoint)
          → IsPoint ring.replica_points ring.servers p × IsApart env server 0 ring.replica_points p
          → IsPoint ring.replica_points (delete server ring.servers) p
      to p (k, apart) = elim (Bool-cases (str_eq server p.address)) [
        | inl e ↦ absurd (
            IsReplica-not_IsApart server 0 ring.replica_points p
              (subst (λ s. IsReplica env s 0 ring.replica_points p)
                (sym ((eq_iff server p.address).0 e)) k.1)
              apart)
        | inr e ↦ (ground (arith, k.0, e, is_server-delete server p.address ring.servers), k.1)
      ]

      from :
          (p : ReplicaPoint)
          → IsPoint ring.replica_points (delete server ring.servers) p
          → IsPoint ring.replica_points ring.servers p × IsApart env server 0 ring.replica_points p
      from p k = elim (Bool-cases (str_eq server p.address)) [
        | inl e ↦ absurd (ground (arith, k.0, e, is_server-delete server p.address ring.servers))
        | inr e ↦ (
          (ground (arith, k.0, e, is_server-delete server p.address ring.servers), k.1),
          other_address server 0 ring.replica_points p
              (λ q. ground (arith, e, (eq_iff server p.address).1 (sym q))),
        )
      ]

  add_servers-IsRing :
      (names : List String) (changed : Bool) (ring : HashRing)
      → IsRing ring
      → (ring' : HashRing) × (changed' : Bool) × (add_servers env names changed ring
          ≡ some (ring', changed'))
        × IsRing ring'
        × ((name : String) → has_server name ring' ≡ (has_server name ring || is_listed name names))
  unfolding add_servers is_listed has_server with_server
  add_servers-IsRing [] changed ring h = (ring, changed, refl, h, (λ name. ground arith))
  add_servers-IsRing (server ∷ names) changed ring h = elim (Bool-cases (has_server server ring)) [
    | inl e ↦
        (let (ring', changed', r, k, has) = add_servers-IsRing names changed ring h in
          (
            ring',
            changed',
            rw (e, add_servers) r,
            k,
            (λ name. ground (arith, has name, e, eq_iff server name)),
          ))
    | inr e ↦
        (let (t, r, held) = add_server_replicas-IsRing server ring h in
          let (ring', changed', r', k, has) =
            add_servers-IsRing names true (with_server server t ring) held in
          (
            ring',
            changed',
            rw (e, add_servers, r) r',
            k,
            (λ name. ground (arith, has name, is_server-insert server name ring.servers)),
          ))
  ]

  remove_servers-IsRing :
      (names : List String) (changed : Bool) (ring : HashRing)
      → IsRing ring
      → IsRing (remove_servers env names changed ring).0
        × ((name : String)
            → has_server name (remove_servers env names changed ring).0
              ≡ (has_server name ring && not (is_listed name names)))
  unfolding remove_servers is_listed has_server remove_server_replicas
  remove_servers-IsRing [] changed ring h = (h, (λ name. ground arith))
  remove_servers-IsRing (server ∷ names) changed ring h =
      elim (Bool-cases (has_server server ring)) [
        | inl e ↦
            (let (k, has) =
                remove_servers-IsRing names true (remove_server_replicas env server ring)
                  (remove_server_replicas-IsRing server ring h) in
              rw (e, remove_servers)
                (k, (λ name. ground (arith, has name, is_server-delete server name ring.servers))))
        | inr e ↦
            (let (k, has) = remove_servers-IsRing names changed ring h in
              rw (e, remove_servers) (k, (λ name. ground (arith, has name, e, eq_iff server name))))
      ]

  announce-IsRing :
      (to_add to_remove : List String) (ring : HashRing) (ring_changed : Bool)
      → IsRing ring
      → IsRing (announce env to_add to_remove ring ring_changed).0
        × ((name : String)
            → has_server name (announce env to_add to_remove ring ring_changed).0
              ≡ has_server name ring)
  unfolding announce compute_checksum has_server
  announce-IsRing to_add to_remove ring true h = (h, (λ name. refl))
  announce-IsRing to_add to_remove ring false h = (h, (λ name. refl))

  -- From a valid ring `addRemoveServers` returns, and gives a valid ring whose servers are the old ones and
  -- the added ones without the removed ones.
  pub add_remove_servers-IsRing :
      (to_add to_remove : List String) (ring : HashRing)
      → IsRing ring
      → (ring' : HashRing) × (events : List RingEvent) × (changed : Bool) × (add_remove_servers env
            to_add to_remove ring
          ≡ some (ring', events, changed))
        × IsRing ring'
        × ((name : String)
            → has_server name ring'
              ≡ ((has_server name ring || is_listed name to_add) && not (is_listed name to_remove)))
  unfolding add_remove_servers
  add_remove_servers-IsRing to_add to_remove ring h =
      let (ring', added_servers, r, k, has) = add_servers-IsRing to_add false ring h in
      let (k', has') = remove_servers-IsRing to_remove false ring' k in
      let removing = remove_servers env to_remove false ring' in
      let (k'', has'') =
        announce-IsRing to_add to_remove removing.0 (added_servers || removing.1) k' in
      let done = announce env to_add to_remove removing.0 (added_servers || removing.1) in
      (
        done.0,
        done.1,
        done.2,
        rw (r, add_remove_servers) refl,
        k'',
        (λ name.
            has'' name ∙ (has' name ∙ ap (λ b. b && not (is_listed name to_remove)) (has name))),
      )
