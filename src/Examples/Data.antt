-- ===== src/Examples/Data.antt =====
-- A node `a:1` that knows itself and `b:1`, which is suspect.
use ringpop_node.Common.{
  ℕ, ◌≡◌, ◌≢◌, refl, inl, inr, String, true, false, [], ◌∷◌, none, some, arith, if◌then◌else◌, ◌==◌,
  lookup, eq_iff, str_eq, subst, sym,
}
use ringpop_node.Config.{Config, Env}
use ringpop_node.Member.{Change, Member, Status, alive, suspect}
use ringpop_node.Membership.State.{Membership}
use ringpop_node.Membership.Consistency.{IsConsistent}

abbrev pub config : Config
config = record {
  damp_scoring_enabled = true;
  damp_scoring_initial = 0;
  damp_scoring_min = 0;
  damp_scoring_max = 10000;
  damp_scoring_penalty = 500;
  damp_scoring_half_life = 60;
  damp_scoring_reuse_limit = 2500;
  damp_scoring_suppress_limit = 5000;
  damp_scoring_suppress_duration = 3600000;
  damped_max_percentage = 10;
  damp_req_n_val = 6;
  damp_req_r_val = 3;
}

abbrev pub env : Env
env = record {
  whoami = "a:1";
  config = config;
  round_decayed = λ score _ _ _. score;
  ceil_log10 = λ _. 1;
  hash_func = λ _. 7;
}

abbrev pub change : String → ℕ → Status → Change
change address number status = record {
  id = some number;
  timestamp = 0;
  address = address;
  incarnation_number = number;
  status = status;
  source = some "a:1";
  source_incarnation_number = some 1;
  damp_score = none;
  damped_timestamp = none;
}

abbrev pub member : String → ℕ → Status → Member
member address number status = record {
  address = address;
  status = status;
  incarnation_number = number;
  damp_score = some 0;
  damped_timestamp = none;
  last_update_timestamp = some 0;
  last_update_damp_score = some 0;
}

abbrev pub members : Membership
members = record {
  heap = λ r. if r == 0 then member "a:1" 1 alive else member "b:1" 2 suspect;
  next = 2;
  members = 0 ∷ 1 ∷ [];
  members_by_address = ("a:1", 0) ∷ ("b:1", 1) ∷ [];
  checksum = none;
  stashed_updates = none;
  local_member = some 0;
}

-- The node alone, before it is ready, with two stashed changes.
abbrev pub starting : Membership
starting = record members {
  next = 1;
  members = 0 ∷ [];
  members_by_address = ("a:1", 0) ∷ [];
  stashed_updates = some ((change "b:1" 2 alive ∷ []) ∷ (change "c:1" 3 suspect ∷ []) ∷ []);
}

pub members-IsConsistent : IsConsistent env members
unfolding lookup
members-IsConsistent = record {
  indexed = λ a r h. ground (arith, h, eq_iff "a:1" a, eq_iff "b:1" a);
  listed = λ r h. elim h [
    | inl e ↦
        subst (λ r. lookup (members.heap r).address members.members_by_address ≡ some r) (sym e)
          refl
    | inr (inl e) ↦
        subst (λ r. lookup (members.heap r).address members.members_by_address ≡ some r) (sym e)
          refl
    | inr (inr h) ↦ absurd h
  ];
  distinct = (ground arith, (ground arith, tt));
  local = λ r h. ground (arith, h);
}

pub starting-IsConsistent : IsConsistent env starting
unfolding lookup
starting-IsConsistent = record {
  indexed = λ a r h. ground (arith, h, eq_iff "a:1" a);
  listed = λ r h. elim h [
    | inl e ↦
        subst (λ r. lookup (starting.heap r).address starting.members_by_address ≡ some r) (sym e)
          refl
    | inr h ↦ absurd h
  ];
  distinct = (ground arith, tt);
  local = λ r h. ground (arith, h);
}

pub starting_alone : (a : String) → a ≢ "a:1" → lookup a starting.members_by_address ≡ none
unfolding lookup
starting_alone a n = ground (arith, n, eq_iff "a:1" a)

pub differ : (a b : String) → str_eq a b ≡ false → a ≢ b
differ a b h e = ground (arith, h, e, eq_iff a b)
