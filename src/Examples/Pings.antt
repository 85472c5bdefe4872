-- ===== src/Examples/Pings.antt =====
-- Tests of the ping protocol, with the node `a:1`, a ring of two servers and a ping of `b:1`.
use ringpop_node.Common.{
  ℕ, ◌≡◌, refl, true, false, String, List, [], ◌∷◌, some, inl, eq_iff, lookup, arith,
}
use ringpop_node.Member.{Change, alive, suspect, faulty, is_status_pingable}
use ringpop_node.Member.Precedence.{Known, older, known_of}
use ringpop_node.Membership.State.{get_random_pingable_members, pingable_members}
use ringpop_node.Membership.Update.{Draw}
use ringpop_node.Membership.Consistency.{IsConsistent}
use ringpop_node.Membership.View.{view, apply_claims}
use ringpop_node.Gossip.Dissemination.{membership_as_changes}
use ringpop_node.Gossip.PingReq.{Arrival, responded, Target, send_ping_reqs, random_members}
use ringpop_node.Gossip.PingReq.Answers.{Stays, verdict_of}
use ringpop_node.Gossip.PingReq.Decides.{send_ping_reqs-verdict_of}
use ringpop_node.Gossip.Periods.{
  GossipLoop, AwaitedPing, protocol_period, handle_gossip_tick, new_gossip, new_loop, start, run,
  tick, on_gossip_timer, on_ping_done,
}
use ringpop_node.Gossip.Periods.Alive.{
  Gossips, at_start, after_step, started, fired, ticked, pinged, IsGossip, Gossips-IsGossip,
}
use ringpop_node.Protocol.{
  Ringpop, Ping, PingBody, ping_response, ping_ok, handle_ping, changes_sent,
}
use ringpop_node.Protocol.Delivery.{IsNode}
use ringpop_node.Protocol.Pings.{Tells, handle_ping-Told}
use ringpop_node.Protocol.CatchUp.{changes_sent-catches_up}
use ringpop_node.Protocol.Relay.{PingReqReply, on_relayed, on_relayed-answers}
use ringpop_node.Examples.Data.{env, change, member, members, members-IsConsistent}
use ringpop_node.Examples.Spread.{parts}
use ringpop_node.Examples.Rings.{ring_env, ring, ring-IsRing}

abbrev node : Ringpop
node = record {
  membership = members;
  parts = parts;
  ring = ring;
  is_ready = true;
  app = "app";
  requires_app_in_ping = true;
  max_reverse_full_sync_jobs = 5;
}

ring_members-IsConsistent : IsConsistent ring_env members
ring_members-IsConsistent = record {
  indexed = members-IsConsistent.indexed;
  listed = members-IsConsistent.listed;
  distinct = members-IsConsistent.distinct;
  local = members-IsConsistent.local;
}

node-IsNode : IsNode ring_env 0 node
node-IsNode = record { consistent = ring_members-IsConsistent; local = refl; ring = ring-IsRing }

abbrev draws : ℕ → Draw
draws i = record { random = i; id = i }

abbrev claims : List Change
claims = change "b:1" 3 faulty ∷ change "c:1" 1 alive ∷ []

abbrev ping : PingBody
ping = record {
  source = some "b:1";
  source_incarnation_number = some 3;
  changes = some claims;
  checksum = some 11;
  app = some "app";
}

handle_ping-Told_example :
    Tells ring_env 50 0 (some ping) node (handle_ping ring_env 50 draws (some ping) node)
handle_ping-Told_example = handle_ping-Told ring_env 50 0 draws (some ping) node node-IsNode

changes_sent-catches_up_example :
    (node' : Ringpop) × (last : Known) × (changes_sent ring_env 50 draws []
        (ping_response (some (membership_as_changes "a:1" members)))
        node
      ≡ some (node', ping_ok))
    × IsNode ring_env 0 node'
    × (view node'.membership "b:1" ≡ some last)
    × (older last (known_of (member "b:1" 2 suspect)) ≡ false)
    × (older last (known_of (member "b:1" 2 suspect)) ≡ false)
unfolding view lookup
changes_sent-catches_up_example =
    changes_sent-catches_up ring_env env 50 0 draws [] node members "b:1"
      (known_of (member "b:1" 2 suspect)) (known_of (member "b:1" 2 suspect)) refl node-IsNode
      members-IsConsistent (λ e. ground (arith, e, eq_iff "b:1" "a:1")) refl refl

abbrev relayed_ping : Ping
relayed_ping = record {
  source = "b:1";
  source_incarnation_number = some 3;
  changes = [];
  checksum = 11;
}

on_relayed-answers_example :
    (node' : Ringpop) × (reply : PingReqReply) × (on_relayed ring_env 50 draws relayed_ping "c:1" []
        (ping_response (some claims))
        node
      ≡ some (node', reply))
    × (reply.ping_status ≡ true)
    × (reply.target ≡ "c:1")
    × IsNode ring_env 0 node'
    × ((a : String) → view node'.membership a ≡ apply_claims "a:1" 50 claims (view members) a)
on_relayed-answers_example =
    on_relayed-answers ring_env 50 0 draws relayed_ping "c:1" [] (ping_response (some claims)) node
      refl node-IsNode

-- One member was asked about `c:1`, and could not reach it either.
abbrev arrival : Arrival
arrival = record {
  member = "b:1";
  answer = responded (some []) false;
  now = 50;
  id = 9;
  draws = draws;
  suspect_draws = draws;
}

abbrev target : Target
target = record { address = "c:1"; incarnation_number = 1 }

send_ping_reqs-verdict_of_example :
    Stays env 0
      (λ s. s.verdict ≡ some (verdict_of [] (arrival ∷ [])))
      (send_ping_reqs (λ xs n. xs) env true target 3 arrival (arrival ∷ []) members)
unfolding random_members get_random_pingable_members pingable_members is_status_pingable
send_ping_reqs-verdict_of_example =
    send_ping_reqs-verdict_of (λ xs n. xs) env true target 3 arrival arrival [] members 0
      members-IsConsistent refl refl

-- Gossip is started, its first timer fires, the ping fails, and the endpoint asks for a tick meanwhile.
abbrev begun : GossipLoop
begun = start (new_loop 200 0)

abbrev pinging : GossipLoop
pinging = on_gossip_timer 0 10 true (some (member "b:1" 2 suspect)) begun

abbrev period_ping : AwaitedPing
period_ping = record { caller = protocol_period; target = member "b:1" 2 suspect }

abbrev asking : GossipLoop
asking = on_ping_done 20 true period_ping (record pinging { pings = [] })

abbrev refused : GossipLoop
refused = handle_gossip_tick 25 true (some (member "c:1" 1 alive)) asking

begun-Gossips : Gossips (new_loop 200 0) refused
unfolding start new_loop new_gossip run on_gossip_timer tick
begun-Gossips =
    after_step
      (after_step
        (after_step (after_step at_start started)
          (fired 0 10 true (some (member "b:1" 2 suspect)) (inl refl)))
        (pinged 20 true period_ping [] [] refl))
      (ticked 25 true (some (member "c:1" 1 alive)))

Gossips-IsGossip_example : IsGossip refused
Gossips-IsGossip_example = Gossips-IsGossip 200 0 refused begun-Gossips
