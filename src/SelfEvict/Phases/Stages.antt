-- ===== src/SelfEvict/Phases/Stages.antt =====
-- Where a self-eviction stands, and what is then outstanding.
use ringpop_node.Common.{◌+◌, ◌≤◌, ◌≡◌, List, [], ◌∷◌, length, All}
use ringpop_node.SelfEvict.{
  PhaseName, pre_evict, evicting, post_evict, done, HookType, before, after, Tick, call_hook,
  hooks_done, start_post_evict, Process, tick_after,
}
use ringpop_node.SelfEvict.Phases.{names}

abbrev pub phases_of : HookType → List PhaseName
phases_of before = pre_evict ∷ []
phases_of after = post_evict ∷ evicting ∷ pre_evict ∷ []

abbrev pub IsCall : HookType → Tick → Type 0
IsCall type (call_hook t name) = t ≡ type
IsCall type _ = ⊥

-- Where a self-eviction stands.
pub data Stage : Type 0 where
  hooking : HookType → Stage
  hooked : HookType → Stage
  ahead : HookType → Stage
  asking : Stage
  asked : Stage
  over : Stage

abbrev pub Waits : Tick → Process → Type 0
Waits t w = (w.ticks ≡ t ∷ []) × (w.calling ≡ []) × (w.pinging ≡ [])

abbrev pub At : Stage → Process → Type 0
At (hooking type) w =
    (names w.self.phases ≡ phases_of type)
    × (w.called ≡ 0)
    × All (IsCall type) w.ticks
    × All (λ c. c.0 ≡ type) w.calling
    × (w.pinging ≡ [])
    × (w.hooks_left ≡ length w.ticks + length w.calling)
    × (1 ≤ w.hooks_left)
At (hooked type) w =
    (names w.self.phases ≡ phases_of type) × (w.called ≡ 0) × Waits (hooks_done type) w
At (ahead type) w =
    (names w.self.phases ≡ phases_of type) × (w.called ≡ 0) × Waits (tick_after type) w
At asking w =
    (names w.self.phases ≡ evicting ∷ pre_evict ∷ [])
    × (w.called ≡ 0)
    × (w.ticks ≡ [])
    × (w.calling ≡ [])
    × (w.pings_left ≡ length w.pinging)
    × (1 ≤ w.pings_left)
At asked w =
    (names w.self.phases ≡ evicting ∷ pre_evict ∷ []) × (w.called ≡ 0) × Waits start_post_evict w
At over w =
    (names w.self.phases ≡ done ∷ post_evict ∷ evicting ∷ pre_evict ∷ [])
    × (w.called ≡ 1)
    × (w.ticks ≡ [])
    × (w.calling ≡ [])
    × (w.pinging ≡ [])

abbrev pub Stands : Process → Type 0
Stands w = (stage : Stage) × At stage w
