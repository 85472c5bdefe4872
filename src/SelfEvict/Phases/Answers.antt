-- ===== src/SelfEvict/Phases/Answers.antt =====
-- The answers of hooks and pings lead from one stage to another; a self-eviction that waits for nothing
-- is complete.
use ringpop_node.Common.{
  ℕ, suc, ◌+◌, ◌-◌, ◌≡◌, refl, sym, ap, subst, ◌∙◌, String, Bool, true, false, List, [], ◌∷◌, ◌++◌,
  none, some, length, All, if◌then◌else◌, ltb, arith,
}
use ringpop_node.SelfEvict.{
  pre_evict, evicting, post_evict, done, HookType, before, hooks_done, start_post_evict, Process,
  current_phase, newest, transition_to, run_hooks, initiate, hook_done, after_ping,
  already_shutting_down,
}
use ringpop_node.SelfEvict.Phases.{
  Step, tick, hook, ping, again, Reaches, here, further, names, IsIdle,
}
use ringpop_node.SelfEvict.Phases.Stages.{Stands, hooking, hooked, ahead, asking, asked, over}
use ringpop_node.SelfEvict.Phases.Ticks.{
  names-transition_to, run_hooks-Stands, again-Stands, tick-Stands,
}

module _ {A : Type 0} where
  not_empty :
      (as' : List A) (a : A) (bs : List A) (all : List A) → all ≡ [] → ¬ (all ≡ as' ++ a ∷ bs)
  not_empty [] a bs all h e = ground (arith, h, e)
  not_empty (x ∷ xs) a bs all h e = ground (arith, h, e)

  taken : (as' : List A) (a : A) (bs : List A) → length (as' ++ a ∷ bs) ≡ suc (length (as' ++ bs))
  taken [] a bs = refl
  taken (x ∷ xs) a bs = ap suc (taken xs a bs)

  All-taken :
      (P : A → Type 0) (as' : List A) (a : A) (bs : List A)
      → All P (as' ++ a ∷ bs)
      → P a × All P (as' ++ bs)
  All-taken P [] a bs h = h
  All-taken P (x ∷ xs) a bs h = (let (own, rest) = All-taken P xs a bs h.1 in (own, (h.0, rest)))

  length-zero : (xs : List A) → length xs ≡ 0 → xs ≡ []
  length-zero [] h = refl
  length-zero (x ∷ xs) h = absurd (omega (arith, h))

hook-Stands :
    (type : HookType) (name : String) (as' bs : List (HookType × String)) (w : Process)
    → Stands w
    → w.calling ≡ as' ++ (type, name) ∷ bs
    → Stands (hook_done type (record w { calling = as' ++ bs }))
unfolding hook_done
hook-Stands type name as' bs w (hooking own, (ns, c, calls, types, pinging, left, some_left)) e =
    subst (λ t. Stands (hook_done t (record w { calling = as' ++ bs }))) (sym kinds.0)
      (go (ltb (w.hooks_left - 1) 1) refl)
  where
    kinds : (type ≡ own) × All (λ c. c.0 ≡ own) (as' ++ bs)
    kinds = All-taken (λ c. c.0 ≡ own) as' (type, name) bs (subst (All (λ c. c.0 ≡ own)) e types)

    count : w.hooks_left ≡ length w.ticks + suc (length (as' ++ bs))
    count = left ∙ ap (λ n. length w.ticks + n) (ap length e ∙ taken as' (type, name) bs)

    go :
        (last : Bool)
        → ltb (w.hooks_left - 1) 1 ≡ last
        → Stands (record w {
          calling = as' ++ bs;
          hooks_left = w.hooks_left - 1;
          ticks = if last then w.ticks ++ hooks_done own ∷ [] else w.ticks;
        })
    go true last = (
      hooked own,
      (
        ns,
        c,
        (
          ap (λ ts. ts ++ hooks_done own ∷ []) (length-zero w.ticks (ground (arith, count, last))),
          length-zero (as' ++ bs) (ground (arith, count, last)),
          pinging,
        ),
      ),
    )
    go false last =
        (hooking own, (ns, c, calls, kinds.1, pinging, omega (arith, count), ground (arith, last)))
hook-Stands type name as' bs w (hooked own, (ns, c, (only, calling, pinging))) e =
    absurd (not_empty as' (type, name) bs w.calling calling e)
hook-Stands type name as' bs w (ahead own, (ns, c, (only, calling, pinging))) e =
    absurd (not_empty as' (type, name) bs w.calling calling e)
hook-Stands type name as' bs w (asking, (ns, c, no_ticks, calling, left, some_left)) e =
    absurd (not_empty as' (type, name) bs w.calling calling e)
hook-Stands type name as' bs w (asked, (ns, c, (only, calling, pinging))) e =
    absurd (not_empty as' (type, name) bs w.calling calling e)
hook-Stands type name as' bs w (over, (ns, c, no_ticks, calling, pinging)) e =
    absurd (not_empty as' (type, name) bs w.calling calling e)

ping-Stands :
    (failed_ping : Bool) (member : String) (as' bs : List String) (w : Process)
    → Stands w
    → w.pinging ≡ as' ++ member ∷ bs
    → Stands (after_ping failed_ping (record w { pinging = as' ++ bs }))
unfolding after_ping
ping-Stands failed_ping m as' bs w (hooking own, (ns, c, calls, types, pinging, left, some_left))
      e =
    absurd (not_empty as' m bs w.pinging pinging e)
ping-Stands failed_ping m as' bs w (hooked own, (ns, c, (only, calling, pinging))) e =
    absurd (not_empty as' m bs w.pinging pinging e)
ping-Stands failed_ping m as' bs w (ahead own, (ns, c, (only, calling, pinging))) e =
    absurd (not_empty as' m bs w.pinging pinging e)
ping-Stands failed_ping m as' bs w (asked, (ns, c, (only, calling, pinging))) e =
    absurd (not_empty as' m bs w.pinging pinging e)
ping-Stands failed_ping m as' bs w (over, (ns, c, no_ticks, calling, pinging)) e =
    absurd (not_empty as' m bs w.pinging pinging e)
ping-Stands failed_ping m as' bs w (asking, (ns, c, no_ticks, calling, left, some_left)) e =
    go (ltb (w.pings_left - 1) 1) refl
  where
    count : w.pings_left ≡ suc (length (as' ++ bs))
    count = left ∙ (ap length e ∙ taken as' m bs)

    go :
        (last : Bool)
        → ltb (w.pings_left - 1) 1 ≡ last
        → Stands (record w {
          pinging = as' ++ bs;
          successful_pings = if failed_ping then w.successful_pings else suc w.successful_pings;
          pings_left = w.pings_left - 1;
          ticks = if last then w.ticks ++ start_post_evict ∷ [] else w.ticks;
        })
    go true last = (
      asked,
      (
        ns,
        c,
        (
          ap (λ ts. ts ++ start_post_evict ∷ []) no_ticks,
          calling,
          length-zero (as' ++ bs) (ground (arith, count, last)),
        ),
      ),
    )
    go false last = (asking, (ns, c, no_ticks, calling, omega (arith, count), ground (arith, last)))

Stands-Step : (w v : Process) → Stands w → Step w v → Stands v
Stands-Step w v s (tick now ping_enabled members t ts e) =
    tick-Stands now ping_enabled members w t ts s e
Stands-Step w v s (hook type name as' bs e) = hook-Stands type name as' bs w s e
Stands-Step w v s (ping failed_ping member as' bs e) = ping-Stands failed_ping member as' bs w s e
Stands-Step w v s (again now) = again-Stands now w s

Reaches-Stands : (w v : Process) → Stands w → Reaches w v → Stands v
Reaches-Stands w v s here = s
Reaches-Stands w v s (further {v = u} r step) = Stands-Step u v (Reaches-Stands w u s r) step

initiate-Stands : (now : ℕ) (w : Process) → IsIdle w → Stands (initiate now w)
unfolding initiate current_phase
initiate-Stands now w (phases, ticks, calling, pinging, called) =
    subst
      (λ qs. Stands (elim (newest qs) [
        | some phase ↦ record w { failed = already_shutting_down phase ∷ w.failed }
        | none ↦
            run_hooks before (record w {
              self = transition_to now pre_evict (record (w.self) { callback = true });
            })
      ]))
      (sym phases)
      (run_hooks-Stands before
        (record w { self = transition_to now pre_evict (record (w.self) { callback = true }) })
        (names-transition_to now pre_evict (record (w.self) { callback = true })
          ∙ ap (λ ps. pre_evict ∷ names ps) phases)
        called ticks calling pinging)

-- From an idle node, once `initiate` was called, in whatever order the hooks and pings answer and however
-- often `initiate` is called again: when nothing is outstanding, the phases are the four in their order
-- and the callback was called exactly once without an error.
pub initiate-completes :
    (now : ℕ) (w v : Process)
    → IsIdle w
    → Reaches (initiate now w) v
    → v.ticks ≡ []
    → v.calling ≡ []
    → v.pinging ≡ []
    → (names v.self.phases ≡ done ∷ post_evict ∷ evicting ∷ pre_evict ∷ []) × (v.called ≡ 1)
initiate-completes now w v idle run ticks calling pinging =
    go (Reaches-Stands (initiate now w) v (initiate-Stands now w idle) run)
  where
    go :
        Stands v
        → (names v.self.phases ≡ done ∷ post_evict ∷ evicting ∷ pre_evict ∷ []) × (v.called ≡ 1)
    go (hooking type, (ns, c, calls, types, p, left, some_left)) =
        absurd (omega (arith, left, some_left, ap length ticks, ap length calling))
    go (hooked type, (ns, c, (only, k, p))) = absurd (ground (arith, ticks, only))
    go (ahead type, (ns, c, (only, k, p))) = absurd (ground (arith, ticks, only))
    go (asking, (ns, c, t, k, left, some_left)) =
        absurd (omega (arith, left, some_left, ap length pinging))
    go (asked, (ns, c, (only, k, p))) = absurd (ground (arith, ticks, only))
    go (over, (ns, c, t, k, p)) = (ns, c)
