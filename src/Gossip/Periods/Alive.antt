-- ===== src/Gossip/Periods/Alive.antt =====
-- All runs of the protocol periods, over the orders in which timers fire, the endpoint asks for ticks, callbacks
-- are called, and gossip is started and stopped.
use ringpop_node.Common.{
  ℕ, suc, ◌+◌, ◌<◌, ◌≡◌, ◌⊎◌, inl, inr, refl, ap, subst, Bool, true, false, not, List, [], ◌∷◌,
  ◌++◌, Option, none, some, length, length-append, In, if◌then◌else◌, arith,
}
use ringpop_node.Member.{Member}
use ringpop_node.Gossip.Periods.{
  Caller, protocol_period, endpoint, AwaitedPing, GossipLoop, new_gossip, on_rate_timer, run, start,
  stop, on_member_pinged, call_back, tick, on_gossip_timer, handle_gossip_tick, on_ping_req_done,
  on_ping_done, without, new_loop,
}

-- What can happen next: a call of `start` or `stop`, a timer that fires, a tick by the endpoint, or a ping or
-- round of ping-reqs whose callback is called.
pub data GossipStep : GossipLoop → GossipLoop → Type 0 where
  started : {w : GossipLoop} → GossipStep w (start w)
  stopped : {w : GossipLoop} → GossipStep w (stop w)
  rated : {w : GossipLoop} (observed : ℕ) → GossipStep w (on_rate_timer observed w)
  fired :
      {w : GossipLoop} (timer now : ℕ) (is_ready : Bool) (next_member : Option Member)
      → In timer w.live
      → GossipStep w (on_gossip_timer timer now is_ready next_member w)
  ticked :
      {w : GossipLoop} (now : ℕ) (is_ready : Bool) (next_member : Option Member)
      → GossipStep w (handle_gossip_tick now is_ready next_member w)
  pinged :
      {w : GossipLoop} (now : ℕ) (err : Bool) (ping : AwaitedPing) (as' bs : List AwaitedPing)
      → w.pings ≡ as' ++ ping ∷ bs
      → GossipStep w (on_ping_done now err ping (record w { pings = as' ++ bs }))
  ping_reqs_done :
      {w : GossipLoop} (now : ℕ) (ping : AwaitedPing) (as' bs : List AwaitedPing)
      → w.ping_reqs ≡ as' ++ ping ∷ bs
      → GossipStep w (on_ping_req_done now ping (record w { ping_reqs = as' ++ bs }))

pub data Gossips : GossipLoop → GossipLoop → Type 0 where
  at_start : {w : GossipLoop} → Gossips w w
  after_step : {w v u : GossipLoop} → Gossips w v → GossipStep v u → Gossips w u

-- How many pings and rounds of ping-reqs are awaited.
abbrev pub awaited : GossipLoop → ℕ
awaited w = length w.pings + length w.ping_reqs

-- As many as `isPinging` tells: one, or none.
abbrev IsOne : GossipLoop → Type 0
IsOne w = awaited w ≡ (if w.gossip.is_pinging then 1 else 0)

-- Something will begin the next period: a timer, or a callback that belongs to a period.
abbrev pub GoesOn : GossipLoop → Type 0
GoesOn w =
    (0 < length w.live)
    ⊎ ((ping : AwaitedPing) × (In ping w.pings ⊎ In ping w.ping_reqs)
        × (ping.caller ≡ protocol_period))

pub record IsGossip (w : GossipLoop) : Type 0 where
  pub one : awaited w ≡ (if w.gossip.is_pinging then 1 else 0)
  pub alive : w.gossip.is_stopped ≡ false → GoesOn w

run-IsGossip : (w : GossipLoop) → IsOne w → IsGossip (run w)
unfolding run
run-IsGossip w h = record { one = h; alive = λ e. inl (ground arith) }

on_member_pinged-IsGossip : (now : ℕ) (w : GossipLoop) → IsOne w → IsGossip (on_member_pinged now w)
unfolding on_member_pinged
on_member_pinged-IsGossip now w h = go w.gossip.is_stopped refl
  where
    counted : GossipLoop
    counted = record w {
      gossip = record (w.gossip) {
        last_protocol_period = now;
        num_protocol_periods = suc w.gossip.num_protocol_periods;
      };
    }

    go : (b : Bool) → w.gossip.is_stopped ≡ b → IsGossip (if b then counted else run counted)
    go true e = record { one = h; alive = λ k. ground (arith, e, k) }
    go false e = run-IsGossip counted h

-- A callback of the endpoint leaves it to what there was already that the periods go on.
call_back-IsGossip :
    (caller : Caller) (now : ℕ) (w : GossipLoop)
    → IsOne w
    → (caller ≡ endpoint → w.gossip.is_stopped ≡ false → GoesOn w)
    → IsGossip (call_back caller now w)
unfolding call_back
call_back-IsGossip protocol_period now w h goes = on_member_pinged-IsGossip now w h
call_back-IsGossip endpoint now w h goes = record { one = h; alive = goes refl }

tick-IsGossip :
    (caller : Caller) (now : ℕ) (is_ready : Bool) (next_member : Option Member) (w : GossipLoop)
    → IsOne w
    → (caller ≡ endpoint → w.gossip.is_stopped ≡ false → GoesOn w)
    → IsGossip (tick caller now is_ready next_member w)
unfolding tick
tick-IsGossip caller now is_ready next_member w h goes =
    go w.gossip.is_pinging is_ready next_member refl
  where
    asked : Member → GossipLoop
    asked member = record w {
      gossip = record (w.gossip) { is_pinging = true };
      pings = record { caller = caller; target = member } ∷ w.pings;
    }

    asked_goes :
        (member : Member) (by : Caller)
        → caller ≡ by
        → w.gossip.is_stopped ≡ false
        → GoesOn (asked member)
    asked_goes member protocol_period e k =
        inr (record { caller = caller; target = member }, inl (inl refl), e)
    asked_goes member endpoint e k = elim (goes e k) [
      | inl timers ↦ inl timers
      | inr (ping, inl there, mine) ↦ inr (ping, inl (inr there), mine)
      | inr (ping, inr there, mine) ↦ inr (ping, inr there, mine)
    ]

    go :
        (pinging ready : Bool) (found : Option Member)
        → w.gossip.is_pinging ≡ pinging
        → IsGossip (
            if pinging
            then call_back caller now w
            else if not ready
            then call_back caller now w
            else elim found [ none ↦ call_back caller now w | some member ↦ asked member ])
    go true ready found e = call_back-IsGossip caller now w h goes
    go false false found e = call_back-IsGossip caller now w h goes
    go false true none e = call_back-IsGossip caller now w h goes
    go false true (some member) e = record {
      one = ground (arith, e, h);
      alive = asked_goes member caller refl;
    }

length-without :
    (xs as' bs : List AwaitedPing) (ping : AwaitedPing)
    → xs ≡ as' ++ ping ∷ bs
    → length xs ≡ suc (length (as' ++ bs))
length-without xs as' bs ping e =
    omega (arith, ap length e, length-append as' (ping ∷ bs), length-append as' bs)

In-middle :
    (as' bs : List AwaitedPing) (ping p : AwaitedPing)
    → In p (as' ++ ping ∷ bs)
    → (p ≡ ping) ⊎ In p (as' ++ bs)
In-middle [] bs ping p (inl e) = inl e
In-middle [] bs ping p (inr h) = inr h
In-middle (a ∷ as') bs ping p (inl e) = inr (inl e)
In-middle (a ∷ as') bs ping p (inr h) = elim (In-middle as' bs ping p h) [
  | inl same ↦ inl same
  | inr there ↦ inr (inr there)
]

-- What belongs to a period is still there when the callback of the endpoint is called.
still_there :
    (xs as' bs : List AwaitedPing) (ping p : AwaitedPing)
    → xs ≡ as' ++ ping ∷ bs
    → In p xs
    → p.caller ≡ protocol_period
    → ping.caller ≡ endpoint
    → In p (as' ++ bs)
still_there xs as' bs ping p e there mine other =
    elim (In-middle as' bs ping p (subst (In p) e there)) [
      | inl same ↦ ground (arith, ap (λ (q : AwaitedPing). q.caller) same, mine, other)
      | inr rest ↦ rest
    ]

start-IsGossip : (w : GossipLoop) → IsGossip w → IsGossip (start w)
unfolding start run
start-IsGossip w v = go w.gossip.is_stopped
  where
    begun : GossipLoop
    begun = run (record w { shuffles = suc w.shuffles })

    go :
        (b : Bool)
        → IsGossip (elim b [
          | false ↦ w
          | true ↦ record begun {
            gossip = record (begun.gossip) { protocol_rate_timer = true; is_stopped = false };
          }
        ])
    go false = v
    go true = record { one = v.one; alive = λ e. inl (ground arith) }

stop-IsGossip : (w : GossipLoop) → IsGossip w → IsGossip (stop w)
unfolding stop
stop-IsGossip w v = go w.gossip.is_stopped
  where
    go :
        (b : Bool)
        → IsGossip (elim b [
          | true ↦ w
          | false ↦ record w {
            gossip = record (w.gossip) {
              protocol_rate_timer = false;
              protocol_period_timer = none;
              is_stopped = true;
            };
            live = without w.gossip.protocol_period_timer w.live;
          }
        ])
    go true = v
    go false = record { one = v.one; alive = λ e. ground (arith, e) }

on_ping_done-IsGossip :
    (now : ℕ) (err : Bool) (ping : AwaitedPing) (as' bs : List AwaitedPing) (w : GossipLoop)
    → w.pings ≡ as' ++ ping ∷ bs
    → IsGossip w
    → IsGossip (on_ping_done now err ping (record w { pings = as' ++ bs }))
unfolding on_ping_done
on_ping_done-IsGossip now true ping as' bs w e v = record {
  one = ground (arith, v.one, length-without w.pings as' bs ping e);
  alive = λ k. elim (v.alive k) [
    | inl timers ↦ inl timers
    | inr (p, inr there, mine) ↦ inr (p, inr (inr there), mine)
    | inr (p, inl there, mine) ↦ elim (In-middle as' bs ping p (subst (In p) e there)) [
      | inl same ↦ inr (p, inr (inl same), mine)
      | inr rest ↦ inr (p, inl rest, mine)
    ]
  ];
}
on_ping_done-IsGossip now false ping as' bs w e v =
    call_back-IsGossip ping.caller now
      (record w { gossip = record (w.gossip) { is_pinging = false }; pings = as' ++ bs })
      (ground (arith, v.one, length-without w.pings as' bs ping e))
      (λ other k. elim (v.alive k) [
        | inl timers ↦ inl timers
        | inr (p, inr there, mine) ↦ inr (p, inr there, mine)
        | inr (p, inl there, mine) ↦
            inr (p, inl (still_there w.pings as' bs ping p e there mine other), mine)
      ])

on_ping_req_done-IsGossip :
    (now : ℕ) (ping : AwaitedPing) (as' bs : List AwaitedPing) (w : GossipLoop)
    → w.ping_reqs ≡ as' ++ ping ∷ bs
    → IsGossip w
    → IsGossip (on_ping_req_done now ping (record w { ping_reqs = as' ++ bs }))
unfolding on_ping_req_done
on_ping_req_done-IsGossip now ping as' bs w e v =
    call_back-IsGossip ping.caller now
      (record w { gossip = record (w.gossip) { is_pinging = false }; ping_reqs = as' ++ bs })
      (ground (arith, v.one, length-without w.ping_reqs as' bs ping e))
      (λ other k. elim (v.alive k) [
        | inl timers ↦ inl timers
        | inr (p, inl there, mine) ↦ inr (p, inl there, mine)
        | inr (p, inr there, mine) ↦
            inr (p, inr (still_there w.ping_reqs as' bs ping p e there mine other), mine)
      ])

step-IsGossip : (w u : GossipLoop) → GossipStep w u → IsGossip w → IsGossip u
unfolding on_rate_timer on_gossip_timer handle_gossip_tick
step-IsGossip w _ started v = start-IsGossip w v
step-IsGossip w _ stopped v = stop-IsGossip w v
step-IsGossip w _ (rated observed) v = record { one = v.one; alive = v.alive }
step-IsGossip w _ (fired timer now is_ready next_member there) v =
    tick-IsGossip protocol_period now is_ready next_member
      (record w { live = without (some timer) w.live }) v.one (λ e. ground (arith, e))
step-IsGossip w _ (ticked now is_ready next_member) v =
    tick-IsGossip endpoint now is_ready next_member w v.one (λ e. v.alive)
step-IsGossip w _ (pinged now err ping as' bs e) v = on_ping_done-IsGossip now err ping as' bs w e v
step-IsGossip w _ (ping_reqs_done now ping as' bs e) v =
    on_ping_req_done-IsGossip now ping as' bs w e v

-- From new gossip on, whatever the order of starts, stops, timers, ticks by the endpoint, and callbacks of pings
-- and rounds of ping-reqs: at most one ping or round awaits its callback, exactly while `isPinging` is set; and
-- while gossip is not stopped, a timer is set or a ping or round that belongs to a protocol period awaits its
-- callback.
pub Gossips-IsGossip :
    (min_protocol_period now : ℕ) (w : GossipLoop)
    → Gossips (new_loop min_protocol_period now) w
    → IsGossip w
unfolding new_loop new_gossip
Gossips-IsGossip min_protocol_period now _ at_start = record {
  one = refl;
  alive = λ e. ground (arith, e);
}
Gossips-IsGossip min_protocol_period now w (after_step runs step) =
    step-IsGossip _ w step (Gossips-IsGossip min_protocol_period now _ runs)
