-- ===== src/SelfEvict/Phases/Ticks.antt =====
-- A tick leads from one stage to another, and so does `initiate`.
use ringpop_node.Common.{
  ℕ, suc, ◌+◌, ◌≡◌, refl, sym, ap, subst, ◌∙◌, String, Bool, true, false, List, [], ◌∷◌, ◌++◌, none,
  some, length, All, map, keep, keys, arith,
}
use ringpop_node.SelfEvict.{
  PhaseName, pre_evict, evicting, post_evict, done, Phase, SelfEvict, HookType, before, after, Tick,
  call_hook, hooks_done, start_evict, start_post_evict, start_done, Process, current_phase, newest,
  SelfEvictError, transition_to, finished, run_hooks, run_named_hooks, has_method, initiate, evict,
  run_tick, tick_after, already_shutting_down,
}
use ringpop_node.SelfEvict.Phases.{names}
use ringpop_node.SelfEvict.Phases.Stages.{
  phases_of, IsCall, Stage, At, Stands, hooking, hooked, ahead, asking, asked, over,
}

pub names-transition_to :
    (now : ℕ) (name : PhaseName) (s : SelfEvict)
    → names (transition_to now name s).phases ≡ name ∷ names s.phases
unfolding transition_to finished
names-transition_to now name s = ap (λ ns. name ∷ ns) (go s.phases)
  where
    go : (ps : List Phase) → names (finished now ps) ≡ names ps
    go [] = refl
    go (p ∷ ps) = refl

pub calls-IsCall :
    (type : HookType) (ns : List String) → All (IsCall type) (map (call_hook type) ns)
calls-IsCall type [] = tt
calls-IsCall type (n ∷ ns) = (refl, calls-IsCall type ns)

pub length-calls :
    (type : HookType) (ns : List String) → length (map (call_hook type) ns) ≡ length ns
length-calls type [] = refl
length-calls type (n ∷ ns) = ap suc (length-calls type ns)

-- `_runHooks` from a process with nothing left to do.
pub run_named_hooks-Stands :
    (type : HookType) (hooks : List String) (w : Process)
    → names w.self.phases ≡ phases_of type
    → w.called ≡ 0
    → w.ticks ≡ []
    → w.calling ≡ []
    → w.pinging ≡ []
    → Stands (run_named_hooks type hooks w)
unfolding run_named_hooks
run_named_hooks-Stands type [] w ns c t calling pinging =
    (ahead type, (ns, c, (ap (λ ts. ts ++ tick_after type ∷ []) t, calling, pinging)))
run_named_hooks-Stands type (h ∷ hs) w ns c t calling pinging = (
  hooking type,
  (
    ns,
    c,
    subst (λ ts. All (IsCall type) (ts ++ map (call_hook type) (h ∷ hs))) (sym t)
        (calls-IsCall type (h ∷ hs)),
    subst (All (λ c. c.0 ≡ type)) (sym calling) tt,
    pinging,
    subst (λ ts. suc (length hs) ≡ length (ts ++ map (call_hook type) (h ∷ hs)) + length w.calling)
        (sym t)
        (subst (λ cs. suc (length hs) ≡ length (map (call_hook type) (h ∷ hs)) + length cs)
          (sym calling) (omega (arith, length-calls type hs))),
    omega arith,
  ),
)

pub run_hooks-Stands :
    (type : HookType) (w : Process)
    → names w.self.phases ≡ phases_of type
    → w.called ≡ 0
    → w.ticks ≡ []
    → w.calling ≡ []
    → w.pinging ≡ []
    → Stands (run_hooks type w)
unfolding run_hooks
run_hooks-Stands type w ns c t calling pinging =
    run_named_hooks-Stands type (keep (has_method type w.self.hooks) (keys w.self.hooks)) w ns c t
      calling pinging

-- `initiate` on a node that is shutting down only fails.
pub initiate_again :
    (now : ℕ) (w : Process) (p : Phase) (ps : List Phase)
    → w.self.phases ≡ p ∷ ps
    → initiate now w ≡ record w { failed = already_shutting_down p ∷ w.failed }
unfolding initiate current_phase
initiate_again now w p ps h =
    subst
      (λ qs.
        elim (newest qs) [
          | some phase ↦ record w { failed = already_shutting_down phase ∷ w.failed }
          | none ↦ run_hooks before (record w {
            self = transition_to now pre_evict (record (w.self) { callback = true });
          })
        ]
        ≡ record w { failed = already_shutting_down p ∷ w.failed })
      (sym h) refl

pub phases_there :
    (stage : Stage) (w : Process)
    → At stage w
    → (p : Phase) × (ps : List Phase) × (w.self.phases ≡ p ∷ ps)
phases_there stage w at = go stage at
  where
    named :
        (ps : List Phase) (n : PhaseName) (ns : List PhaseName)
        → names ps ≡ n ∷ ns
        → (p : Phase) × (qs : List Phase) × (ps ≡ p ∷ qs)
    named [] n ns h = absurd (ground (arith, h))
    named (p ∷ ps) n ns h = (p, ps, refl)

    typed :
        (type : HookType)
        → names w.self.phases ≡ phases_of type
        → (p : Phase) × (qs : List Phase) × (w.self.phases ≡ p ∷ qs)
    typed before h = named w.self.phases pre_evict [] h
    typed after h = named w.self.phases post_evict (evicting ∷ pre_evict ∷ []) h

    go : (stage : Stage) → At stage w → (p : Phase) × (qs : List Phase) × (w.self.phases ≡ p ∷ qs)
    go (hooking type) h = typed type h.0
    go (hooked type) h = typed type h.0
    go (ahead type) h = typed type h.0
    go asking h = named w.self.phases evicting (pre_evict ∷ []) h.0
    go asked h = named w.self.phases evicting (pre_evict ∷ []) h.0
    go over h = named w.self.phases done (post_evict ∷ evicting ∷ pre_evict ∷ []) h.0

pub At-failed :
    (stage : Stage) (w : Process) (errors : List SelfEvictError)
    → At stage w
    → At stage (record w { failed = errors })
At-failed (hooking type) w errors h = h
At-failed (hooked type) w errors h = h
At-failed (ahead type) w errors h = h
At-failed asking w errors h = h
At-failed asked w errors h = h
At-failed over w errors h = h

pub again-Stands : (now : ℕ) (w : Process) → Stands w → Stands (initiate now w)
again-Stands now w (stage, h) =
    let (p, ps, e) = phases_there stage w h in
    subst Stands (sym (initiate_again now w p ps e))
      (stage, At-failed stage w (already_shutting_down p ∷ w.failed) h)

pub evict-Stands :
    (now : ℕ) (ping_enabled : Bool) (members : List String) (w : Process)
    → names w.self.phases ≡ pre_evict ∷ []
    → w.called ≡ 0
    → w.ticks ≡ []
    → w.calling ≡ []
    → w.pinging ≡ []
    → Stands (evict now ping_enabled members w)
unfolding evict
evict-Stands now ping_enabled [] w ns c t calling pinging = (
  asked,
  (
    names-transition_to now evicting w.self ∙ ap (λ n. evicting ∷ n) ns,
    c,
    (ap (λ ts. ts ++ start_post_evict ∷ []) t, calling, pinging),
  ),
)
evict-Stands now false (m ∷ ms) w ns c t calling pinging = (
  asked,
  (
    names-transition_to now evicting w.self ∙ ap (λ n. evicting ∷ n) ns,
    c,
    (ap (λ ts. ts ++ start_post_evict ∷ []) t, calling, pinging),
  ),
)
evict-Stands now true (m ∷ ms) w ns c t calling pinging = (
  asking,
  (
    names-transition_to now evicting w.self ∙ ap (λ n. evicting ∷ n) ns,
    c,
    t,
    calling,
    refl,
    omega arith,
  ),
)

pub one_tick :
    (a t : Tick) (ts : List Tick) (all : List Tick)
    → all ≡ a ∷ []
    → all ≡ t ∷ ts
    → (t ≡ a) × (ts ≡ [])
one_tick a t ts all h e = (ap first (sym e ∙ h), ap rest (sym e ∙ h))
  where
    first : List Tick → Tick
    first [] = a
    first (x ∷ xs) = x

    rest : List Tick → List Tick
    rest [] = []
    rest (x ∷ xs) = xs

pub tick-Stands :
    (now : ℕ) (ping_enabled : Bool) (members : List String) (w : Process) (t : Tick)
    (ts : List Tick)
    → Stands w
    → w.ticks ≡ t ∷ ts
    → Stands (run_tick now ping_enabled members t (record w { ticks = ts }))
unfolding run_tick
tick-Stands now pe ms w t ts (hooking type, (ns, c, calls, types, pinging, left, some_left)) e =
    go t e (subst (All (IsCall type)) e calls)
  where
    go :
        (u : Tick)
        → w.ticks ≡ u ∷ ts
        → IsCall type u × All (IsCall type) ts
        → Stands (run_tick now pe ms u (record w { ticks = ts }))
    go (call_hook own name) e (own_type, rest) = (
      hooking type,
      (
        ns,
        c,
        rest,
        (own_type, types),
        pinging,
        subst (λ us. w.hooks_left ≡ length us + length w.calling) e left ∙ omega arith,
        some_left,
      ),
    )
    go (hooks_done own) e (bad, rest) = absurd bad
    go start_evict e (bad, rest) = absurd bad
    go start_post_evict e (bad, rest) = absurd bad
    go start_done e (bad, rest) = absurd bad
tick-Stands now pe ms w t ts (hooked type, (ns, c, (only, calling, pinging))) e =
    let (same, none_left) = one_tick (hooks_done type) t ts w.ticks only e in
    subst (λ u. Stands (run_tick now pe ms u (record w { ticks = ts }))) (sym same)
      (ahead type, (ns, c, (ap (λ us. us ++ tick_after type ∷ []) none_left, calling, pinging)))
tick-Stands now pe ms w t ts (ahead before, (ns, c, (only, calling, pinging))) e =
    let (same, none_left) = one_tick start_evict t ts w.ticks only e in
    subst (λ u. Stands (run_tick now pe ms u (record w { ticks = ts }))) (sym same)
      (evict-Stands now pe ms (record w { ticks = ts }) ns c none_left calling pinging)
tick-Stands now pe ms w t ts (ahead after, (ns, c, (only, calling, pinging))) e =
    let (same, none_left) = one_tick start_done t ts w.ticks only e in
    subst (λ u. Stands (run_tick now pe ms u (record w { ticks = ts }))) (sym same)
      (
        over,
        (
          names-transition_to now done w.self ∙ ap (λ n. done ∷ n) ns,
          ap suc c,
          none_left,
          calling,
          pinging,
        ),
      )
tick-Stands now pe ms w t ts (asking, (ns, c, no_ticks, calling, left, some_left)) e =
    absurd (ground (arith, no_ticks, e))
tick-Stands now pe ms w t ts (asked, (ns, c, (only, calling, pinging))) e =
    let (same, none_left) = one_tick start_post_evict t ts w.ticks only e in
    subst (λ u. Stands (run_tick now pe ms u (record w { ticks = ts }))) (sym same)
      (run_hooks-Stands after (record w { ticks = ts; self = transition_to now post_evict w.self })
        (names-transition_to now post_evict w.self ∙ ap (λ n. post_evict ∷ n) ns) c none_left
        calling pinging)
tick-Stands now pe ms w t ts (over, (ns, c, no_ticks, calling, pinging)) e =
    absurd (ground (arith, no_ticks, e))
