-- ===== src/RequestProxy/Inflight/Owners.antt =====
-- lib/request-proxy/index.js: which forwarded requests reach the application.
use ringpop_node.Common.{
  ℕ, ◌≡◌, refl, inl, inr, String, Bool, true, false, ◌&&◌, List, [], ◌∷◌, Option, none, some, In,
  if◌then◌else◌, eq_iff, arith,
}
use ringpop_node.RequestProxy.Inflight.{
  ProxyConfig, RequestProxy, Handled, invalid_checksum, invalid_key, emitted, checksum_differs,
  is_owner, first_invalid_key, check_request, admit_request, handle_request,
}

owned_target :
    (whoami : String) (target : Option String)
    → is_owner whoami target ≡ true
    → target ≡ some whoami
owned_target whoami none h = ground (arith, h)
owned_target whoami (some target) h = ground (arith, h, eq_iff target whoami)

all_owned :
    (whoami : String) (lookup : String → Option String) (keys : List String)
    → first_invalid_key whoami lookup keys ≡ none
    → (key : String) → In key keys
    → lookup key ≡ some whoami
unfolding first_invalid_key
all_owned whoami lookup [] h key k = absurd k
all_owned whoami lookup (x ∷ keys) h key k =
    go (is_owner whoami (lookup x)) refl h k (λ h' k'. all_owned whoami lookup keys h' key k')
  where
    go :
        (b : Bool)
        → is_owner whoami (lookup x) ≡ b
        → (if b then first_invalid_key whoami lookup keys else some (lookup x)) ≡ none
        → In key (x ∷ keys)
        → (first_invalid_key whoami lookup keys ≡ none → In key keys → lookup key ≡ some whoami)
        → lookup key ≡ some whoami
    go true e h' (inl same) rest = rw same (owned_target whoami (lookup x) e)
    go true e h' (inr k') rest = rest h' k'
    go false e h' k' rest = ground (arith, h')

same_checksum : (a : Option (Option ℕ)) (b : Option ℕ) → checksum_differs a b ≡ false → a ≡ some b
same_checksum none none h = ground (arith, h)
same_checksum none (some b) h = ground (arith, h)
same_checksum (some none) none h = refl
same_checksum (some none) (some b) h = ground (arith, h)
same_checksum (some (some a)) none h = ground (arith, h)
same_checksum (some (some a)) (some b) h = ground (arith, h)

module _ (whoami : String) (ring_checksum : Option ℕ) (lookup : String → Option String)
    (checksum : Option (Option ℕ)) (keys : List String) (p : RequestProxy) where
  -- The checks that are enforced hold.
  pub record IsOwned : Type 0 where
    pub same_ring : p.enforce_consistency ≡ true → checksum ≡ some ring_checksum
    pub own_keys :
        p.enforce_key_consistency ≡ true → (key : String) → In key keys → lookup key ≡ some whoami

  -- What the checks give: an error, or that they hold.
  abbrev Passes : Option Handled → Type 0
  Passes none = IsOwned
  Passes (some result) = ¬ (result ≡ emitted)

  check_request-Passes : Passes (check_request whoami ring_checksum lookup checksum keys p)
  unfolding check_request
  check_request-Passes =
      go (checksum_differs checksum ring_checksum && p.enforce_consistency)
        (first_invalid_key whoami lookup keys) refl refl
    where
      keys_checked :
          (target : Option String) (enforced : Bool)
          → p.enforce_key_consistency ≡ enforced
          → (p.enforce_consistency ≡ true → checksum ≡ some ring_checksum)
          → Passes (if enforced then some (invalid_key target) else none)
      keys_checked target true e same = λ h. cc (h)
      keys_checked target false e same = record {
        same_ring = same;
        own_keys = λ h. ground (arith, e, h);
      }

      go :
          (b : Bool) (found : Option (Option String))
          → (checksum_differs checksum ring_checksum && p.enforce_consistency) ≡ b
          → first_invalid_key whoami lookup keys ≡ found
          → Passes (
              if b then some invalid_checksum else elim found [
                | none ↦ none
                | some target ↦
                    if p.enforce_key_consistency then some (invalid_key target) else none
              ])
      go true found e f = λ h. cc (h)
      go false none e f = record {
        same_ring = λ h. same_checksum checksum ring_checksum (ground (arith, e, h));
        own_keys = λ h. all_owned whoami lookup keys f;
      }
      go false (some target) e f =
          keys_checked target p.enforce_key_consistency refl
            (λ h. same_checksum checksum ring_checksum (ground (arith, e, h)))

  abbrev Emits : RequestProxy × Handled → Type 0
  Emits r = r.1 ≡ emitted

  -- A forwarded request that reaches the application came from a node with the same ring, where consistency is
  -- enforced, and all of its keys belong to this node, where that is enforced.
  pub handle_request-IsOwned :
      (config : ProxyConfig) (lag : ℕ)
      → (handle_request config lag whoami ring_checksum lookup checksum keys p).1 ≡ emitted
      → IsOwned
  unfolding handle_request
  handle_request-IsOwned config lag h =
      go (check_request whoami ring_checksum lookup checksum keys p) check_request-Passes h
    where
      go :
          (r : Option Handled)
          → Passes r
          → Emits (elim r [ some result ↦ (p, result) | none ↦ admit_request config lag p ])
          → IsOwned
      go none passed e = passed
      go (some result) refused e = absurd (refused e)
