-- ===== src/Gossip/Periods.antt =====
-- lib/gossip/index.js: the protocol periods, in each of which a member is pinged.
--
-- A ping, or a round of ping-reqs, is awaited from its start until its callback is called, once; a few of the
-- requests of a round may be in flight after that. `tick` is called by the timer and by the endpoint
-- admin/gossip/tick, and each ping keeps which of them its callback belongs to. The clock, the random number, whether the node is ready, and the member that the iterator gives are
-- arguments. The histogram of the timings is outside; its median is an argument.
pub mod Alive
use ringpop_node.Common.{
  ℕ, suc, ◌+◌, ◌-◌, ◌*◌, ◌/◌, ◌^◌, ◌<◌, ◌≤◌, ◌≡◌, Bool, true, false, not, List, [], ◌∷◌, ◌++◌,
  Option, none, some, keep, In, ◌==◌, max, if◌then◌else◌,
}
use ringpop_node.Member.{Member}

-- Who called `tick`: the timer of a protocol period, or the endpoint.
pub data Caller : Type 0 where
  protocol_period : Caller
  endpoint : Caller

pub record AwaitedPing : Type 0 where
  pub caller : Caller
  pub target : Member

-- `protocol_period_timer` is the handle that was kept last.
pub record Gossip : Type 0 where
  pub min_protocol_period : ℕ
  pub is_pinging : Bool
  pub is_stopped : Bool
  pub last_protocol_period : ℕ
  pub last_protocol_rate : ℕ
  pub num_protocol_periods : ℕ
  pub protocol_period_timer : Option ℕ
  pub protocol_rate_timer : Bool

-- The gossip and what is awaited: the timers that were set and neither cleared nor run, the pings and the
-- rounds of ping-reqs whose callbacks are still to come. `shuffles` counts the calls of the membership's
-- `shuffle`.
pub record GossipLoop : Type 0 where
  pub gossip : Gossip
  pub live : List ℕ
  pub next_timer : ℕ
  pub pings : List AwaitedPing
  pub ping_reqs : List AwaitedPing
  pub shuffles : ℕ

unfoldable pub new_gossip : ℕ → ℕ → Gossip
new_gossip min_protocol_period now = record {
  min_protocol_period = min_protocol_period;
  is_pinging = false;
  is_stopped = true;
  last_protocol_period = now;
  last_protocol_rate = 0;
  num_protocol_periods = 0;
  protocol_period_timer = none;
  protocol_rate_timer = false;
}

unfoldable pub new_loop : ℕ → ℕ → GossipLoop
unfolding new_gossip
new_loop min_protocol_period now = record {
  gossip = new_gossip min_protocol_period now;
  live = [];
  next_timer = 0;
  pings = [];
  ping_reqs = [];
  shuffles = 0;
}

-- `computeProtocolDelay`, with `Math.random()` as `random / 2 ^ 53`.
unfoldable pub compute_protocol_delay : ℕ → ℕ → Gossip → ℕ
compute_protocol_delay now random g =
    if not (g.num_protocol_periods == 0)
    then max (g.last_protocol_period + g.last_protocol_rate - now) g.min_protocol_period
    else random * (g.min_protocol_period + 1) / 2 ^ 53

-- `computeProtocolRate`, from twice the median, which the timer of the rate writes.
unfoldable pub compute_protocol_rate : ℕ → Gossip → ℕ
compute_protocol_rate observed g = max observed g.min_protocol_period

unfoldable pub on_rate_timer : ℕ → GossipLoop → GossipLoop
unfolding compute_protocol_rate
on_rate_timer observed w = record w {
  gossip = record (w.gossip) { last_protocol_rate = compute_protocol_rate observed w.gossip };
}

-- `run`, which sets a timer; the delay does not matter for the order in which timers may fire.
unfoldable pub run : GossipLoop → GossipLoop
run w = record w {
  gossip = record (w.gossip) { protocol_period_timer = some w.next_timer };
  live = w.next_timer ∷ w.live;
  next_timer = suc w.next_timer;
}

unfoldable pub start : GossipLoop → GossipLoop
unfolding run
start w = elim w.gossip.is_stopped [
  | false ↦ w
  | true ↦
      (let w' = run (record w { shuffles = suc w.shuffles }) in
        record w' {
          gossip = record (w'.gossip) { protocol_rate_timer = true; is_stopped = false };
        })
]

-- `clearTimeout` of a timer that has run does nothing.
abbrev pub without : Option ℕ → List ℕ → List ℕ
without none timers = timers
without (some timer) timers = keep (λ t. not (t == timer)) timers

unfoldable pub stop : GossipLoop → GossipLoop
stop w = elim w.gossip.is_stopped [
  | true ↦ w
  | false ↦ record w {
    gossip = record (w.gossip) {
      protocol_rate_timer = false;
      protocol_period_timer = none;
      is_stopped = true;
    };
    live = without w.gossip.protocol_period_timer w.live;
  }
]

-- `onMemberPinged`, the callback that `run` gives to `tick`.
unfoldable pub on_member_pinged : ℕ → GossipLoop → GossipLoop
unfolding run
on_member_pinged now w =
    let w' = record w {
      gossip = record (w.gossip) {
        last_protocol_period = now;
        num_protocol_periods = suc w.gossip.num_protocol_periods;
      };
    } in
    if w.gossip.is_stopped then w' else run w'

-- The callback given to `tick`; that of the endpoint replies to its request, and does nothing to gossip.
unfoldable pub call_back : Caller → ℕ → GossipLoop → GossipLoop
unfolding on_member_pinged
call_back protocol_period now w = on_member_pinged now w
call_back endpoint now w = w

-- `tick` up to the answer of the ping.
unfoldable pub tick : Caller → ℕ → Bool → Option Member → GossipLoop → GossipLoop
unfolding call_back
tick caller now is_ready next_member w =
    if w.gossip.is_pinging
    then call_back caller now w
    else if not is_ready
    then call_back caller now w
    else elim next_member [
      | none ↦ call_back caller now w
      | some member ↦ record w {
        gossip = record (w.gossip) { is_pinging = true };
        pings = record { caller = caller; target = member } ∷ w.pings;
      }
    ]

-- `onGossipTimer`.
unfoldable pub on_gossip_timer : ℕ → ℕ → Bool → Option Member → GossipLoop → GossipLoop
unfolding tick
on_gossip_timer timer now is_ready next_member w =
    tick protocol_period now is_ready next_member (record w { live = without (some timer) w.live })

-- `handleGossipTick` of the endpoint.
unfoldable pub handle_gossip_tick : ℕ → Bool → Option Member → GossipLoop → GossipLoop
unfolding tick
handle_gossip_tick now is_ready next_member w = tick endpoint now is_ready next_member w

-- The callback of `sendPingReqs`, and that of `sendPing`, which asks for ping-reqs after an error. The ping or
-- round is no longer awaited.
unfoldable pub on_ping_req_done : ℕ → AwaitedPing → GossipLoop → GossipLoop
unfolding call_back
on_ping_req_done now ping w =
    call_back ping.caller now (record w { gossip = record (w.gossip) { is_pinging = false } })

unfoldable pub on_ping_done : ℕ → Bool → AwaitedPing → GossipLoop → GossipLoop
unfolding call_back
on_ping_done now err ping w =
    if err
    then record w { ping_reqs = ping ∷ w.ping_reqs }
    else call_back ping.caller now (record w { gossip = record (w.gossip) { is_pinging = false } })
