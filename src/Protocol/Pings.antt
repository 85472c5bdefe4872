-- ===== src/Protocol/Pings.antt =====
-- What `handlePing` and the answer to a ping do to a node.
use ringpop_node.Common.{
  ℕ, ◌≡◌, refl, ◌⊎◌, String, Bool, true, false, ◌||◌, List, Option, none, some, ◌==◌, if◌then◌else◌,
  str_eq, eq_iff, arith, subst,
}
use ringpop_node.Config.{Env}
use ringpop_node.Member.{Change}
use ringpop_node.Membership.Update.{Draw}
use ringpop_node.Membership.View.{view, apply_claims}
use ringpop_node.Protocol.{
  Ringpop, PingBody, PingAnswer, refused, ping_reply, not_ready, Ping, Checked, bad, good,
  bad_ping_body, check_fields, check_app, check_ping, answer_ping, accept_ping, handle_ping,
}
use ringpop_node.Protocol.Delivery.{IsNode, update_node-Applies}

-- The body names the node's application, or none where none is required.
abbrev pub IsOfApp : Ringpop → Option String → Type 0
IsOfApp node app = (app ≡ some node.app) ⊎ ((app ≡ none) × (node.requires_app_in_ping ≡ false))

-- What a body that passed the checks was like.
pub record IsGood (node : Ringpop) (body : PingBody) (ping : Ping) : Type 0 where
  pub changes : body.changes ≡ some ping.changes
  pub source : body.source ≡ some ping.source
  pub checksum : body.checksum ≡ some ping.checksum
  pub app : IsOfApp node body.app

abbrev HasFields : Option String → Option (List Change) → Option ℕ → Checked → Type 0
HasFields source changes checksum (bad e) = Unit
HasFields source changes checksum (good ping) =
    (source ≡ some ping.source) × (changes ≡ some ping.changes) × (checksum ≡ some ping.checksum)

check_fields-HasFields :
    (source : Option String) (number : Option ℕ) (changes : Option (List Change))
    (checksum : Option ℕ)
    → HasFields source changes checksum (check_fields source number changes checksum)
unfolding check_fields
check_fields-HasFields (some source) number (some changes) (some checksum) =
    go (str_eq source "" || checksum == 0)
  where
    go :
        (b : Bool)
        → HasFields (some source) (some changes) (some checksum) (
            if b
            then bad bad_ping_body
            else good (record {
              source = source;
              source_incarnation_number = number;
              changes = changes;
              checksum = checksum;
            }))
    go true = tt
    go false = (refl, refl, refl)
check_fields-HasFields none number _ _ = tt
check_fields-HasFields (some source) number none _ = tt
check_fields-HasFields (some source) number (some changes) none = tt

check_app-IsOfApp :
    (node : Ringpop) (app : Option String) (checked : Checked) (ping : Ping)
    → check_app node app checked ≡ good ping
    → (checked ≡ good ping) × IsOfApp node app
unfolding check_app
check_app-IsOfApp node app (bad e) ping h = ground (arith, h)
check_app-IsOfApp node (some a) (good p) ping h = ground (arith, h, eq_iff a node.app)
check_app-IsOfApp node none (good p) ping h = ground (arith, h)

check_ping-IsGood :
    (node : Ringpop) (body : PingBody) (ping : Ping)
    → check_ping node (some body) ≡ good ping
    → IsGood node body ping
unfolding check_ping
check_ping-IsGood node body ping h =
    let checked =
      check_fields body.source body.source_incarnation_number body.changes body.checksum in
    let (passed, app) = check_app-IsOfApp node body.app checked ping h in
    let (source, changes, checksum) =
      subst (HasFields body.source body.changes body.checksum) passed (
        check_fields-HasFields body.source body.source_incarnation_number body.changes
          body.checksum) in
    record { changes = changes; source = source; checksum = checksum; app = app }

-- What `handlePing` answers. A refused ping leaves the node as it is. One that is answered came to a node
-- that is ready, from a node of the application, and what is then known of each address is what the rule
-- for claims gives for the changes.
abbrev pub Told : Env → ℕ → ℕ → Option PingBody → Ringpop → Ringpop → PingAnswer → Type 0
Told env now l body node node' (refused e) = node' ≡ node
Told env now l body node node' (ping_reply changes started) =
    (node.is_ready ≡ true)
    × (b : PingBody) × (told : List Change) × (body ≡ some b)
    × (b.changes ≡ some told)
    × IsOfApp node b.app
    × IsNode env l node'
    × ((a : String)
        → view node'.membership a ≡ apply_claims env.whoami now told (view node.membership) a)

abbrev pub Tells : Env → ℕ → ℕ → Option PingBody → Ringpop → Option (Ringpop × PingAnswer) → Type 0
Tells env now l body node r =
    (node' : Ringpop) × (answer : PingAnswer) × (r ≡ some (node', answer))
    × Told env now l body node node' answer

-- On a node whose parts are in order, `handlePing` returns, for every body.
pub handle_ping-Told :
    (env : Env) (now l : ℕ) (draws : ℕ → Draw) (body : Option PingBody) (node : Ringpop)
    → IsNode env l node
    → (node' : Ringpop) × (answer : PingAnswer) × (handle_ping env now draws body node
        ≡ some (node', answer))
      × Told env now l body node node' answer
unfolding handle_ping accept_ping answer_ping
handle_ping-Told env now l draws body node v = go node.is_ready refl
  where
    accepted :
        (b : PingBody) (ping : Ping)
        → node.is_ready ≡ true
        → body ≡ some b
        → IsGood node b ping
        → Tells env now l body node (accept_ping env now draws ping node)
    accepted b ping ready same good' =
        let (node', r, applied) = update_node-Applies env now l draws ping.changes node ready v in
        let answered = answer_ping env ping node' in
        (
          answered.0,
          answered.1,
          rw (r, accept_ping) refl,
          (
            ready,
            b,
            ping.changes,
            same,
            good'.changes,
            good'.app,
            record {
              consistent = applied.valid.consistent;
              local = applied.valid.local;
              ring = applied.valid.ring;
            },
            applied.known,
          ),
        )

    ready_case :
        (b : Option PingBody) (checked : Checked)
        → check_ping node b ≡ checked
        → body ≡ b
        → node.is_ready ≡ true
        → Tells env now l body node (elim checked [
          | bad e ↦ some (node, refused e)
          | good ping ↦ accept_ping env now draws ping node
        ])
    ready_case b (bad e) h same ready = (node, refused e, refl, refl)
    ready_case none (good ping) h same ready = ground (arith, h)
    ready_case (some b) (good ping) h same ready =
        accepted b ping ready same (check_ping-IsGood node b ping h)

    go :
        (ready : Bool)
        → node.is_ready ≡ ready
        → Tells env now l body node (elim ready [
          | false ↦ some (node, refused not_ready)
          | true ↦ elim (check_ping node body) [
            | bad e ↦ some (node, refused e)
            | good ping ↦ accept_ping env now draws ping node
          ]
        ])
    go false h = (node, refused not_ready, refl, refl)
    go true h = ready_case body (check_ping node body) refl refl h
