-- ===== src/Gossip/Damper/Scores.antt =====
-- lib/gossip/damper.js: which members the collected damp scores say should be damped. A response
-- is the array of scores it holds, or none where it holds no array. An address that no response
-- scores has no entry, so it is not damped even if no score is asked for.
use mathlib.Core.List.{append-nil, append_assoc}
use ringpop_node.Common.{
  ℕ, ◌≡◌, refl, sym, ap, ◌∙◌, ◌⊎◌, inl, inr, String, Bool, true, false, ◌&&◌, ◌||◌, List, [], ◌∷◌,
  ◌++◌, Option, none, some, arith, length, keep, every, length-append, leb, if◌then◌else◌, Dict,
  lookup, insert, keys, lookup-insert, get_or, is_some, str_eq, eq_iff, Bool-cases, contains,
  contains-keys,
}
use ringpop_node.Config.{Env}

pub record Score : Type 0 where
  pub member : String
  pub damp_score : ℕ

unfoldable pub group_scores : List Score → Dict (List Score) → Dict (List Score)
group_scores [] grouped = grouped
group_scores (s ∷ ss) grouped =
    group_scores ss (insert s.member (get_or (lookup s.member grouped) [] ++ s ∷ []) grouped)

unfoldable pub group_damp_scores_by_flapper :
    List (Option (List Score)) → Dict (List Score) → Dict (List Score)
unfolding group_scores
group_damp_scores_by_flapper [] grouped = grouped
group_damp_scores_by_flapper (none ∷ rs) grouped = group_damp_scores_by_flapper rs grouped
group_damp_scores_by_flapper (some scores ∷ rs) grouped =
    group_damp_scores_by_flapper rs (group_scores scores grouped)

unfoldable pub have_all_scores_exceeded_limit : ℕ → List Score → Bool
have_all_scores_exceeded_limit limit scores = every (λ (s : Score). leb limit s.damp_score) scores

unfoldable pub find_flappers_to_damp : Dict (List Score) → ℕ → ℕ → List String
unfolding have_all_scores_exceeded_limit
find_flappers_to_damp grouped r_val limit =
    keep
      (λ address.
        let scores = get_or (lookup address grouped) [] in
        leb r_val (length scores) && have_all_scores_exceeded_limit limit scores)
      (keys grouped)

unfoldable pub get_members_to_damp : Env → ℕ → List (Option (List Score)) → List String
unfolding group_damp_scores_by_flapper find_flappers_to_damp
get_members_to_damp env r_val responses =
    find_flappers_to_damp (group_damp_scores_by_flapper responses []) r_val
      env.config.damp_scoring_suppress_limit

-- All the scores of the responses, in order.
abbrev pub all_scores : List (Option (List Score)) → List Score
all_scores [] = []
all_scores (none ∷ rs) = all_scores rs
all_scores (some scores ∷ rs) = scores ++ all_scores rs

-- The scores about one address.
abbrev pub scores_of : String → List Score → List Score
scores_of a ss = keep (λ (s : Score). str_eq s.member a) ss

lookup-group_scores :
    (a : String) (ss : List Score) (g : Dict (List Score))
    → get_or (lookup a (group_scores ss g)) [] ≡ get_or (lookup a g) [] ++ scores_of a ss
unfolding group_scores
lookup-group_scores a [] g = sym (append-nil (get_or (lookup a g) []))
lookup-group_scores a (s ∷ ss) g =
    lookup-group_scores a ss (insert s.member (get_or (lookup s.member g) [] ++ s ∷ []) g)
    ∙ (ap (λ (o : Option (List Score)). get_or o [] ++ scores_of a ss)
          (lookup-insert s.member a (get_or (lookup s.member g) [] ++ s ∷ []) g)
        ∙ added (Bool-cases (str_eq s.member a)))
  where
    added :
        (str_eq s.member a ≡ true) ⊎ (str_eq s.member a ≡ false)
        → get_or
              (if str_eq s.member a
                then some (get_or (lookup s.member g) [] ++ s ∷ [])
                else lookup a g)
              []
            ++ scores_of a ss
          ≡ get_or (lookup a g) [] ++ scores_of a (s ∷ ss)
    added (inl e) = ground (
      arith,
      e,
      eq_iff s.member a,
      append_assoc (get_or (lookup a g) []) (s ∷ []) (scores_of a ss),
    )
    added (inr e) = ground (arith, e)

known-group_scores :
    (a : String) (ss : List Score) (g : Dict (List Score))
    → is_some (lookup a (group_scores ss g))
      ≡ (is_some (lookup a g) || leb 1 (length (scores_of a ss)))
unfolding group_scores
known-group_scores a [] g = ground arith
known-group_scores a (s ∷ ss) g =
    let scores = get_or (lookup s.member g) [] ++ s ∷ [] in
    ground
      (arith, known-group_scores a ss (insert s.member scores g), lookup-insert s.member a scores g)

scores_of-append :
    (a : String) (xs ys : List Score) → scores_of a (xs ++ ys) ≡ scores_of a xs ++ scores_of a ys
scores_of-append a [] ys = refl
scores_of-append a (x ∷ xs) ys =
    ground
      (arith, scores_of-append a xs ys, append_assoc (x ∷ []) (scores_of a xs) (scores_of a ys))

-- What is collected for an address.
lookup-group :
    (a : String) (rs : List (Option (List Score))) (g : Dict (List Score))
    → (get_or (lookup a (group_damp_scores_by_flapper rs g)) []
        ≡ get_or (lookup a g) [] ++ scores_of a (all_scores rs))
      × (is_some (lookup a (group_damp_scores_by_flapper rs g))
          ≡ (is_some (lookup a g) || leb 1 (length (scores_of a (all_scores rs)))))
unfolding group_damp_scores_by_flapper
lookup-group a [] g = (sym (append-nil (get_or (lookup a g) [])), ground arith)
lookup-group a (none ∷ rs) g = lookup-group a rs g
lookup-group a (some ss ∷ rs) g =
    let (held, known) = lookup-group a rs (group_scores ss g) in
    (
      held
          ∙ (ap (λ t. t ++ scores_of a (all_scores rs)) (lookup-group_scores a ss g)
              ∙ (append_assoc (get_or (lookup a g) []) (scores_of a ss)
                    (scores_of a (all_scores rs))
                  ∙ ap (λ t. get_or (lookup a g) [] ++ t)
                      (sym (scores_of-append a ss (all_scores rs))))),
      ground (
        arith,
        known,
        known-group_scores a ss g,
        scores_of-append a ss (all_scores rs),
        length-append (scores_of a ss) (scores_of a (all_scores rs)),
      ),
    )

contains-keep :
    (p : String → Bool) (a : String) (xs : List String)
    → contains a (keep p xs) ≡ (contains a xs && p a)
unfolding contains
contains-keep p a [] = refl
contains-keep p a (x ∷ xs) = elim (Bool-cases (p x)) [
  | inl e ↦ rw e (ground (arith, e, contains-keep p a xs, eq_iff x a, eq_iff a x))
  | inr e ↦ rw e (ground (arith, e, contains-keep p a xs, eq_iff x a, eq_iff a x))
]

-- A member is damped exactly if some response scores it, at least the wanted number of scores is
-- there for it, and none of them is below the suppress limit.
pub get_members_to_damp_lem :
    (env : Env) (r_val : ℕ) (responses : List (Option (List Score))) (a : String)
    → contains a (get_members_to_damp env r_val responses) ≡ (
        leb 1 (length (scores_of a (all_scores responses)))
        && (leb r_val (length (scores_of a (all_scores responses)))
            && every
                (λ (s : Score). leb env.config.damp_scoring_suppress_limit s.damp_score)
                (scores_of a (all_scores responses))))
unfolding get_members_to_damp find_flappers_to_damp have_all_scores_exceeded_limit lookup
get_members_to_damp_lem env r_val responses a =
    let grouped = group_damp_scores_by_flapper responses [] in
    let (held, known) = lookup-group a responses [] in
    let enough : List Score → Bool = λ scores.
      leb r_val (length scores)
      && every (λ (s : Score). leb env.config.damp_scoring_suppress_limit s.damp_score) scores in
    unfold get_members_to_damp in
    contains-keep (λ address. enough (get_or (lookup address grouped) [])) a (keys grouped)
    ∙ (ap (λ b. b && enough (get_or (lookup a grouped) [])) (contains-keys a grouped ∙ known)
        ∙ ap (λ scores. leb 1 (length (scores_of a (all_scores responses))) && enough scores) held)
