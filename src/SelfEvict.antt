-- ===== src/SelfEvict.antt =====
-- lib/self-evict.js: the hooks and the phases of a node that leaves the cluster by itself.
--
-- What was put off by `process.nextTick` is a list of ticks, oldest first. A hook that was called and a
-- ping that was sent are outstanding until they answer, each once.
pub mod Hooks
pub mod Phases
use ringpop_node.Common.{
  ℕ, zero, suc, ◌-◌, String, Bool, true, false, not, ◌&&◌, ◌||◌, List, [], ◌∷◌, ◌++◌, Option, none,
  some, Dict, lookup, insert, keys, keep, length, min, is_some, if◌then◌else◌, ltb, str_eq, map,
}
use ringpop_node.Config.{Env}
use ringpop_node.Member.{Member}
use ringpop_node.Membership.State.{Membership, member_list, is_pingable}

pub data PhaseName : Type 0 where
  pre_evict : PhaseName
  evicting : PhaseName
  post_evict : PhaseName
  done : PhaseName

pub record Phase : Type 0 where
  pub phase : PhaseName
  pub ts : ℕ
  pub duration : Option ℕ

-- What an object has under the name of a method: nothing, a function, or a value that is no function.
pub data Method : Type 0 where
  absent : Method
  function : Method
  no_function : Method

-- `hooks.name` is absent or empty if it is `none`.
pub record SelfEvictHooks : Type 0 where
  pub name : Option String
  pub pre : Method
  pub post : Method

pub data SelfEvictError : Type 0 where
  argument_required : SelfEvictError
  field_required : SelfEvictError
  duplicate_hook : String → SelfEvictError
  method_required : SelfEvictError
  invalid_option : PhaseName → SelfEvictError
  already_shutting_down : Phase → SelfEvictError

-- The phases, the newest first.
pub record SelfEvict : Type 0 where
  pub hooks : Dict SelfEvictHooks
  pub callback : Bool
  pub phases : List Phase

abbrev pub newest : List Phase → Option Phase
newest [] = none
newest (p ∷ ps) = some p

unfoldable pub current_phase : SelfEvict → Option Phase
current_phase s = newest s.phases

abbrev pub is_absent : Method → Bool
is_absent absent = true
is_absent function = false
is_absent no_function = false

abbrev pub is_no_function : Method → Bool
is_no_function absent = false
is_no_function function = false
is_no_function no_function = true

-- The checks of `registerHooks` from the name on.
unfoldable pub register_named :
    String → SelfEvictHooks → SelfEvict → SelfEvict × Option SelfEvictError
register_named name hooks s =
    if is_some (lookup name s.hooks)
    then (s, some (duplicate_hook name))
    else if is_absent hooks.pre && is_absent hooks.post
    then (s, some method_required)
    else if is_no_function hooks.pre
    then (s, some (invalid_option pre_evict))
    else if is_no_function hooks.post
    then (s, some (invalid_option post_evict))
    else (record s { hooks = insert name hooks s.hooks }, none)

-- `registerHooks`, with the error that is thrown.
unfoldable pub register_hooks :
    Option SelfEvictHooks → SelfEvict → SelfEvict × Option SelfEvictError
unfolding register_named
register_hooks none s = (s, some argument_required)
register_hooks (some hooks) s = elim hooks.name [
  | none ↦ (s, some field_required)
  | some name ↦ register_named name hooks s
]

-- `_transitionTo`: the previous phase gets its duration.
finished : ℕ → List Phase → List Phase
finished now [] = []
finished now (p ∷ ps) = record p { duration = some (now - p.ts) } ∷ ps

unfoldable pub transition_to : ℕ → PhaseName → SelfEvict → SelfEvict
unfolding finished
transition_to now name s = record s {
  phases = record { phase = name; ts = now; duration = none } ∷ finished now s.phases;
}

pub data HookType : Type 0 where
  before : HookType
  after : HookType

pub data Tick : Type 0 where
  call_hook : HookType → String → Tick
  hooks_done : HookType → Tick
  start_evict : Tick
  start_post_evict : Tick
  start_done : Tick

-- The node and what it waits for: `hooks_left` and `pings_left` are the counters of `_.after`, `called`
-- and `failed` count the calls of the callback without and with an error.
pub record Process : Type 0 where
  pub self : SelfEvict
  pub ticks : List Tick
  pub calling : List (HookType × String)
  pub hooks_left : ℕ
  pub pinging : List String
  pub pings_left : ℕ
  pub successful_pings : ℕ
  pub is_faulty : Bool
  pub called : ℕ
  pub failed : List SelfEvictError

abbrev pub method_of : HookType → SelfEvictHooks → Method
method_of before hooks = hooks.pre
method_of after hooks = hooks.post

offers : HookType → Option SelfEvictHooks → Bool
offers type none = false
offers type (some hooks) = not (is_absent (method_of type hooks))

unfoldable pub has_method : HookType → Dict SelfEvictHooks → String → Bool
unfolding offers
has_method type hooks name = offers type (lookup name hooks)

-- What a phase's hooks lead to.
abbrev pub tick_after : HookType → Tick
tick_after before = start_evict
tick_after after = start_done

unfoldable pub run_named_hooks : HookType → List String → Process → Process
run_named_hooks type [] w = record w { ticks = w.ticks ++ tick_after type ∷ [] }
run_named_hooks type (name ∷ names) w = record w {
  ticks = w.ticks ++ map (call_hook type) (name ∷ names);
  hooks_left = length (name ∷ names);
}

-- `_runHooks`.
unfoldable pub run_hooks : HookType → Process → Process
unfolding has_method run_named_hooks
run_hooks type w = run_named_hooks type (keep (has_method type w.self.hooks) (keys w.self.hooks)) w

unfoldable pub initiate : ℕ → Process → Process
unfolding current_phase transition_to run_hooks
initiate now w = elim (current_phase w.self) [
  | some phase ↦ record w { failed = already_shutting_down phase ∷ w.failed }
  | none ↦
      run_hooks before
        (record w { self = transition_to now pre_evict (record (w.self) { callback = true }) })
]

-- `array.slice(0, n)`.
first_of : {A : Type 0} → ℕ → List A → List A
first_of zero xs = []
first_of (suc n) [] = []
first_of (suc n) (x ∷ xs) = x ∷ first_of n xs

-- `_getMembersToPing`; `share n` is `Math.ceil(n * selfEvictionMaxPingRatio)`.
unfoldable pub get_members_to_ping : Env → ℕ → (ℕ → ℕ) → Membership → List Member
unfolding first_of
get_members_to_ping env max_piggyback_count share m =
    let pingable = keep (is_pingable env) (member_list m) in
    first_of (min max_piggyback_count (min (share (length pingable)) (length pingable))) pingable

-- `_evict`, with the members to ping; `is_faulty` stands for the call of `setLocalStatus`.
unfoldable pub evict : ℕ → Bool → List String → Process → Process
unfolding transition_to
evict now ping_enabled [] w = record w {
  self = transition_to now evicting w.self;
  is_faulty = true;
  successful_pings = 0;
  ticks = w.ticks ++ start_post_evict ∷ [];
}
evict now ping_enabled (member ∷ members) w =
    if ping_enabled
    then record w {
      self = transition_to now evicting w.self;
      is_faulty = true;
      successful_pings = 0;
      pinging = member ∷ members;
      pings_left = length (member ∷ members);
    }
    else record w {
      self = transition_to now evicting w.self;
      is_faulty = true;
      successful_pings = 0;
      ticks = w.ticks ++ start_post_evict ∷ [];
    }

-- A tick runs.
unfoldable pub run_tick : ℕ → Bool → List String → Tick → Process → Process
unfolding evict transition_to run_hooks
run_tick now ping_enabled members (call_hook type name) w = record w {
  calling = (type, name) ∷ w.calling;
}
run_tick now ping_enabled members (hooks_done type) w = record w {
  ticks = w.ticks ++ tick_after type ∷ [];
}
run_tick now ping_enabled members start_evict w = evict now ping_enabled members w
run_tick now ping_enabled members start_post_evict w =
    run_hooks after (record w { self = transition_to now post_evict w.self })
run_tick now ping_enabled members start_done w = record w {
  self = transition_to now done w.self;
  called = suc w.called;
}

-- A hook calls back, `afterHook`.
unfoldable pub hook_done : HookType → Process → Process
hook_done type w = record w {
  hooks_left = w.hooks_left - 1;
  ticks = if ltb (w.hooks_left - 1) 1 then w.ticks ++ hooks_done type ∷ [] else w.ticks;
}

-- A ping is answered, `afterPing`.
unfoldable pub after_ping : Bool → Process → Process
after_ping failed_ping w = record w {
  successful_pings = if failed_ping then w.successful_pings else suc w.successful_pings;
  pings_left = w.pings_left - 1;
  ticks = if ltb (w.pings_left - 1) 1 then w.ticks ++ start_post_evict ∷ [] else w.ticks;
}
