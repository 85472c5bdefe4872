-- ===== src/Server/Join.antt =====
-- server/protocol/join.js: which joins a node accepts. A field that the body does not have is
-- `none`; a pattern of the blacklist, a regular expression, is its test.
use ringpop_node.Common.{
  ℕ, ◌≡◌, String, Bool, true, false, not, ◌&&◌, ◌||◌, List, [], ◌∷◌, Option, none, some,
  if◌then◌else◌, str_eq, arith, ◌↔◌, ◌≢◌, refl, ap, subst, ◌∙◌, inl, inr, In, codes, eq_iff,
}
use ringpop_node.Server.HostPort.{
  validate_host_port, validate_host_port_lem, colons, after_colon, is_number,
}
use ringpop_node.Config.{Env}
use ringpop_node.Member.{Change}
use ringpop_node.Membership.State.{Membership}
use ringpop_node.Gossip.Dissemination.{membership_as_changes}

-- What the handler reads of the node.
pub record Node : Type 0 where
  pub env : Env
  pub app : String
  pub is_denying_joins : Bool
  pub member_blacklist : Option (List (String → Bool))
  pub membership : Membership

pub data JoinError : Type 0 where
  body_missing fields_missing deny_join self_join invalid_join_source blacklisted invalid_join_app :
      JoinError

pub record JoinBody : Type 0 where
  pub app : Option String
  pub source : Option String
  pub incarnation_number : Option ℕ

pub record JoinReply : Type 0 where
  pub app : String
  pub coordinator : String
  pub membership : List Change
  pub membership_checksum : Option ℕ

-- What the handler calls back with.
pub data JoinAnswer : Type 0 where
  rejected : JoinError → JoinAnswer
  accepted : JoinReply → JoinAnswer

-- A validation gives the error that it calls back with, if any.
unfoldable pub validate_denying_joins : Node → Option JoinError
validate_denying_joins node = if node.is_denying_joins then some deny_join else none

-- `anyBlacklisted`: some pattern of the list matches.
any_matches : List (String → Bool) → String → Bool
any_matches [] joiner = false
any_matches (pattern_test ∷ tests) joiner = pattern_test joiner || any_matches tests joiner

unfoldable pub any_blacklisted : Node → String → Bool
unfolding any_matches
any_blacklisted node joiner = elim node.member_blacklist [
  | none ↦ false
  | some tests ↦ any_matches tests joiner
]

unfoldable pub validate_joiner_address : Node → String → Option JoinError
validate_joiner_address node joiner =
    if str_eq joiner node.env.whoami
    then some self_join
    else if not (validate_host_port joiner)
    then some invalid_join_source
    else if any_blacklisted node joiner
    then some blacklisted
    else none

unfoldable pub validate_joiner_app : Node → String → Option JoinError
validate_joiner_app node app = if str_eq app node.app then none else some invalid_join_app

join_reply : Node → JoinReply
join_reply node = record {
  app = node.app;
  coordinator = node.env.whoami;
  membership = membership_as_changes node.env.whoami node.membership;
  membership_checksum = node.membership.checksum;
}

-- The validations run in this order, and the first that fails answers.
unfoldable pub validate_join : Node → String → String → JoinAnswer
unfolding validate_denying_joins validate_joiner_address validate_joiner_app join_reply
validate_join node app source = elim (validate_denying_joins node) [
  | some e ↦ rejected e
  | none ↦ elim (validate_joiner_address node source) [
    | some e ↦ rejected e
    | none ↦ elim (validate_joiner_app node app) [
      | some e ↦ rejected e
      | none ↦ accepted (join_reply node)
    ]
  ]
]

unfoldable pub validate_fields : Node → Option String → Option String → Option ℕ → JoinAnswer
unfolding validate_join
validate_fields node (some app) (some source) (some number) = validate_join node app source
validate_fields node _ _ _ = rejected fields_missing

unfoldable pub handle_join : Node → Option JoinBody → JoinAnswer
unfolding validate_fields
handle_join node none = rejected body_missing
handle_join node (some body) = validate_fields node body.app body.source body.incarnation_number

-- The joiner may join: the node does not deny joins, the joiner is another node of the same app, its host and
-- port has one colon, which a number follows, and no pattern of the blacklist matches it.
pub record MayJoin (node : Node) (app source : String) : Type 0 where
  pub allowed : node.is_denying_joins ≡ false
  pub other : source ≢ node.env.whoami
  pub one_colon : colons (codes source) ≡ 1
  pub numbered : is_number (after_colon (codes source)) ≡ true
  pub unlisted :
      (tests : List (String → Bool)) (test : String → Bool)
      → node.member_blacklist ≡ some tests
      → In test tests
      → test source ≡ false
  pub same_app : app ≡ node.app

abbrev pub is_accepted : JoinAnswer → Bool
is_accepted (accepted reply) = true
is_accepted (rejected e) = false

no_match :
    (tests : List (String → Bool)) (joiner : String)
    → (any_matches tests joiner ≡ false)
      ↔ ((test : String → Bool) → In test tests → test joiner ≡ false)
unfolding any_matches
no_match [] joiner = ((λ h test k. absurd k), λ h. refl)
no_match (t ∷ tests) joiner =
    let rest = no_match tests joiner in
    (
      (λ h test k. elim k [
        | inl e ↦ ap (λ u. u joiner) e ∙ ground (arith, h)
        | inr i ↦ rest.0 (ground (arith, h)) test i
      ]),
      (λ h. ground (arith, h t (inl refl), rest.1 (λ test i. h test (inr i)))),
    )

not_blacklisted :
    (node : Node) (joiner : String)
    → (any_blacklisted node joiner ≡ false) ↔ (
        (tests : List (String → Bool)) (test : String → Bool)
        → node.member_blacklist ≡ some tests
        → In test tests
        → test joiner ≡ false)
unfolding any_blacklisted
not_blacklisted node joiner = go node.member_blacklist
  where
    go :
        (list : Option (List (String → Bool)))
        → (elim list [ none ↦ false | some tests ↦ any_matches tests joiner ] ≡ false) ↔ (
            (tests : List (String → Bool)) (test : String → Bool)
            → list ≡ some tests
            → In test tests
            → test joiner ≡ false)
    go none = ((λ h tests test e k. cc (e)), λ h. refl)
    go (some own) = (
      (λ h tests test e k. (no_match own joiner).0 h test (subst (In test) (same tests e) k)),
      (λ h. (no_match own joiner).1 (λ test k. h own test refl k)),
    )
      where
        same : (tests : List (String → Bool)) → some own ≡ some tests → tests ≡ own
        same tests e = cc (e)

-- The guards of the handler, in the order in which they stand.
guards :
    (node : Node) (app source : String) (number : ℕ)
    → is_accepted (
        handle_join node (
          some (record { app = some app; source = some source; incarnation_number = some number })))
      ≡ (not node.is_denying_joins
          && (not (str_eq source node.env.whoami)
              && (validate_host_port source
                  && (not (any_blacklisted node source) && str_eq app node.app))))
unfolding handle_join validate_fields validate_join validate_denying_joins validate_joiner_address
    validate_joiner_app
guards node app source number = ground arith

-- A complete body is accepted exactly if the joiner may join: the node does not deny joins, the joiner is
-- another node of the same app, its host and port has one colon, which a number follows after spaces and a
-- sign, and no pattern of the blacklist matches it.
pub handle_join-accepts :
    (node : Node) (app source : String) (number : ℕ)
    → (is_accepted (
          handle_join node (
            some
              (record { app = some app; source = some source; incarnation_number = some number })))
        ≡ true)
      ↔ MayJoin node app source
handle_join-accepts node app source number =
    let g = guards node app source number in
    let port = validate_host_port_lem source in
    let black = not_blacklisted node source in
    (
      (λ h. record {
        allowed = ground (arith, h, g);
        other = λ e. ground (arith, h, g, e, eq_iff source node.env.whoami);
        one_colon = ground (arith, h, g, port);
        numbered = ground (arith, h, g, port);
        unlisted = black.0 (ground (arith, h, g));
        same_app = ground (arith, h, g, eq_iff app node.app);
      }),
      (λ v.
          let clear = black.1 v.unlisted in
          ground (
            arith,
            g,
            port,
            clear,
            v.allowed,
            v.other,
            v.one_colon,
            v.numbered,
            v.same_app,
            eq_iff source node.env.whoami,
            eq_iff app node.app,
          )),
    )
