-- ===== src/Examples/Leaving.antt =====
-- Tests of the self-eviction: hooks that are refused, and a run with one hook and one ping.
use ringpop_node.Common.{◌≡◌, refl, true, false, [], ◌∷◌, some, lookup, keys}
use ringpop_node.SelfEvict.{
  SelfEvict, SelfEvictHooks, absent, function, no_function, register_hooks, Process, before,
  call_hook, hooks_done, start_evict, start_post_evict, start_done, initiate, run_tick, hook_done,
  after_ping, done, post_evict, evicting, pre_evict,
}
use ringpop_node.SelfEvict.Hooks.{RegistersAny, register_hooks-RegistersAny}
use ringpop_node.SelfEvict.Phases.{Step, tick, hook, ping, Reaches, here, further, names}
use ringpop_node.SelfEvict.Phases.Answers.{initiate-completes}

abbrev hooks : SelfEvictHooks
hooks = record { name = some "store"; pre = function; post = absent }

abbrev node : SelfEvict
node = record { hooks = ("store", hooks) ∷ []; callback = false; phases = [] }

register_hooks-RegistersAny_example :
    RegistersAny
      (some (record hooks { name = some "cache"; post = no_function }))
      node
      (register_hooks (some (record hooks { name = some "cache"; post = no_function })) node)
register_hooks-RegistersAny_example =
    register_hooks-RegistersAny (some (record hooks { name = some "cache"; post = no_function }))
      node

abbrev start : Process
start = record {
  self = node;
  ticks = [];
  calling = [];
  hooks_left = 0;
  pinging = [];
  pings_left = 0;
  successful_pings = 0;
  is_faulty = false;
  called = 0;
  failed = [];
}

v0 : Process
v0 = initiate 5 start

v1 : Process
v1 = run_tick 6 true [] (call_hook before "store") (record v0 { ticks = [] })

v2 : Process
v2 = hook_done before (record v1 { calling = [] })

v3 : Process
v3 = run_tick 8 true [] (hooks_done before) (record v2 { ticks = [] })

v4 : Process
v4 = run_tick 9 true ("b:1" ∷ []) start_evict (record v3 { ticks = [] })

v5 : Process
v5 = after_ping false (record v4 { pinging = [] })

v6 : Process
v6 = run_tick 11 true [] start_post_evict (record v5 { ticks = [] })

v7 : Process
v7 = run_tick 12 true [] start_done (record v6 { ticks = [] })

due0 : v0.ticks ≡ call_hook before "store" ∷ []
unfolding v0 initiate run_tick hook_done after_ping lookup keys
due0 = refl

step0 : Step v0 v1
unfolding v1
step0 = tick 6 true [] (call_hook before "store") [] due0

due1 : v1.calling ≡ (before, "store") ∷ []
unfolding v0 v1 initiate run_tick hook_done after_ping lookup keys
due1 = refl

step1 : Step v1 v2
unfolding v2
step1 = hook before "store" [] [] due1

due2 : v2.ticks ≡ hooks_done before ∷ []
unfolding v0 v1 v2 initiate run_tick hook_done after_ping lookup keys
due2 = refl

step2 : Step v2 v3
unfolding v3
step2 = tick 8 true [] (hooks_done before) [] due2

due3 : v3.ticks ≡ start_evict ∷ []
unfolding v0 v1 v2 v3 initiate run_tick hook_done after_ping lookup keys
due3 = refl

step3 : Step v3 v4
unfolding v4
step3 = tick 9 true ("b:1" ∷ []) start_evict [] due3

due4 : v4.pinging ≡ "b:1" ∷ []
unfolding v0 v1 v2 v3 v4 initiate run_tick hook_done after_ping lookup keys
due4 = refl

step4 : Step v4 v5
unfolding v5
step4 = ping false "b:1" [] [] due4

due5 : v5.ticks ≡ start_post_evict ∷ []
unfolding v0 v1 v2 v3 v4 v5 initiate run_tick hook_done after_ping lookup keys
due5 = refl

step5 : Step v5 v6
unfolding v6
step5 = tick 11 true [] start_post_evict [] due5

due6 : v6.ticks ≡ start_done ∷ []
unfolding v0 v1 v2 v3 v4 v5 v6 initiate run_tick hook_done after_ping lookup keys
due6 = refl

step6 : Step v6 v7
unfolding v7
step6 = tick 12 true [] start_done [] due6

run_v7 : Reaches v0 v7
run_v7 =
    further
      (further (further (further (further (further (further here step0) step1) step2) step3) step4)
        step5)
      step6

idle_now : (v7.ticks ≡ []) × (v7.calling ≡ []) × (v7.pinging ≡ [])
unfolding v0 v1 v2 v3 v4 v5 v6 v7 initiate run_tick hook_done after_ping lookup keys
idle_now = (refl, refl, refl)

initiate-completes_example :
    (names v7.self.phases ≡ done ∷ post_evict ∷ evicting ∷ pre_evict ∷ []) × (v7.called ≡ 1)
unfolding v0
initiate-completes_example =
    initiate-completes 5 start v7 (refl, refl, refl, refl, refl) run_v7 idle_now.0 idle_now.1
      idle_now.2
