-- ===== src/SelfEvict/Phases.antt =====
-- The phases of a self-eviction, over all orders in which hooks and pings answer.
pub mod Stages
pub mod Ticks
pub mod Answers
use ringpop_node.Common.{
  ℕ, zero, suc, ◌+◌, ◌-◌, ◌≤◌, ◌<◌, ◌≡◌, ◌≢◌, refl, sym, ap, subst, ◌∙◌, ◌⊎◌, inl, inr, String,
  Bool, true, false, not, List, [], ◌∷◌, ◌++◌, Option, none, some, length, length-append, All, map,
  keep, keys, if◌then◌else◌, ltb, Bool-cases, arith,
}
use ringpop_node.SelfEvict.{
  PhaseName, pre_evict, evicting, post_evict, done, Phase, SelfEvict, HookType, before, after, Tick,
  call_hook, hooks_done, start_evict, start_post_evict, start_done, Process, current_phase, newest,
  SelfEvictError, transition_to, finished, run_hooks, run_named_hooks, has_method, initiate, evict,
  run_tick, hook_done, after_ping, tick_after, already_shutting_down,
}

-- What can happen next: the oldest tick runs, a hook that was called calls back, a ping is answered, or
-- `initiate` is called again.
pub data Step : Process → Process → Type 0 where
  tick :
      {w : Process} (now : ℕ) (ping_enabled : Bool) (members : List String) (t : Tick)
      (ts : List Tick)
      → w.ticks ≡ t ∷ ts
      → Step w (run_tick now ping_enabled members t (record w { ticks = ts }))
  hook :
      {w : Process} (type : HookType) (name : String) (as' bs : List (HookType × String))
      → w.calling ≡ as' ++ (type, name) ∷ bs
      → Step w (hook_done type (record w { calling = as' ++ bs }))
  ping :
      {w : Process} (failed_ping : Bool) (member : String) (as' bs : List String)
      → w.pinging ≡ as' ++ member ∷ bs
      → Step w (after_ping failed_ping (record w { pinging = as' ++ bs }))
  again : {w : Process} (now : ℕ) → Step w (initiate now w)

pub data Reaches : Process → Process → Type 0 where
  here : {w : Process} → Reaches w w
  further : {w v u : Process} → Reaches w v → Step v u → Reaches w u

abbrev pub names : List Phase → List PhaseName
names [] = []
names (p ∷ ps) = p.phase ∷ names ps

-- Before `initiate`.
abbrev pub IsIdle : Process → Type 0
IsIdle w =
    (w.self.phases ≡ []) × (w.ticks ≡ []) × (w.calling ≡ []) × (w.pinging ≡ []) × (w.called ≡ 0)
