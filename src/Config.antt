-- ===== src/Config.antt =====
-- config.js and index.js: the configuration values that the modelled parts read, and what a node
-- takes from outside the repository.
use ringpop_node.Common.{ℕ, ◌≤◌, String, Bool, List}

-- `Config.prototype.get` at the keys that are read.
pub record Config : Type 0 where
  pub damp_scoring_enabled : Bool
  pub damp_scoring_initial : ℕ
  pub damp_scoring_min : ℕ
  pub damp_scoring_max : ℕ
  pub damp_scoring_penalty : ℕ
  pub damp_scoring_half_life : ℕ
  pub damp_scoring_reuse_limit : ℕ
  pub damp_scoring_suppress_limit : ℕ
  pub damp_scoring_suppress_duration : ℕ
  pub damped_max_percentage : ℕ
  pub damp_req_n_val : ℕ
  pub damp_req_r_val : ℕ

-- `round_decayed score now last half_life` is
-- `Math.round(score * Math.pow(Math.E, -((now - last) / 1000) * Math.LN2 / halfLife))`,
-- `ceil_log10 n` is `Math.ceil(Math.log(n) / Math.log(10))`, and `hash_func` the hash of the package
-- farmhash at a string's codes.
pub record Env : Type 0 where
  pub whoami : String
  pub config : Config
  pub open config use *
  pub round_decayed : ℕ → ℕ → ℕ → ℕ → ℕ
  pub ceil_log10 : ℕ → ℕ
  pub hash_func : List ℕ → ℕ

-- What is known of the decay: while the clock does not run backwards, a score does not grow.
abbrev pub Decays : Env → Type 0
Decays e =
    (score now last half_life : ℕ) → last ≤ now → e.round_decayed score now last half_life ≤ score
