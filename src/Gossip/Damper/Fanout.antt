-- ===== src/Gossip/Damper/Fanout.antt =====
-- lib/gossip/damper.js: `_fanoutDampReqs`. The responses arrive in any order, as the calls of the
-- handler that each request was given.
use mathlib.Core.List.{append_assoc}
use ringpop_node.Common.{
  ℕ, suc, ◌+◌, ◌-◌, ◌<◌, ◌≤◌, ◌≡◌, refl, ap, inl, inr, true, false, List, [], ◌∷◌, ◌++◌, Option,
  none, some, length, length-append, take, ltb, leb, if◌then◌else◌, arith, Bool-cases, ◌∙◌,
}

-- A response is an error or a result; the callback is called with the results or with the errors.
pub data Response (E R : Type 0) : Type 0 where
  failed : E → Response E R
  replied : R → Response E R

pub data Outcome (E R : Type 0) : Type 0 where
  reported : List R → Outcome E R
  unattainable : List E → Outcome E R

-- The variables that the handlers share; `outcome` is there once `callback` is null.
pub record Fanout (E R : Type 0) : Type 0 where
  pub pending : ℕ
  pub errors : List E
  pub results : List R
  pub outcome : Option (Outcome E R)

unfoldable pub start_fanout : {E R : Type 0} → ℕ → Fanout E R
start_fanout n = record { pending = n; errors = []; results = []; outcome = none }

module _ {E R : Type 0} (r_val : ℕ) where
  unfoldable pub collect : Response E R → Fanout E R → Fanout E R
  collect (failed e) f = record f { pending = f.pending - 1; errors = f.errors ++ e ∷ [] }
  collect (replied r) f = record f { pending = f.pending - 1; results = f.results ++ r ∷ [] }

  unfoldable pub decide : Fanout E R → Fanout E R
  decide f =
      if leb r_val (length f.results)
      then record f { outcome = some (reported f.results) }
      else if ltb f.pending (r_val - length f.results)
      then record f { outcome = some (unattainable f.errors) }
      else f

  -- `onDampReq`: after the callback was called, a response is ignored.
  unfoldable pub on_damp_req : Response E R → Fanout E R → Fanout E R
  unfolding collect decide
  on_damp_req response f = elim f.outcome [ some o ↦ f | none ↦ decide (collect response f) ]

  unfoldable pub on_responses : List (Response E R) → Fanout E R → Fanout E R
  on_responses [] f = f
  on_responses (r ∷ rs) f = on_responses rs (on_damp_req r f)

  -- The results and the errors of the responses, in the order of arrival.
  abbrev pub results_of : List (Response E R) → List R
  results_of [] = []
  results_of (failed e ∷ rs) = results_of rs
  results_of (replied r ∷ rs) = r ∷ results_of rs

  abbrev pub errors_of : List (Response E R) → List E
  errors_of [] = []
  errors_of (failed e ∷ rs) = e ∷ errors_of rs
  errors_of (replied r ∷ rs) = errors_of rs

  -- The callback gets the first results, as many as are wanted, if there are so many, and else the errors up to
  -- the one after which they could no longer be reached.
  abbrev pub outcome_of : List (Response E R) → Outcome E R
  outcome_of rs =
      if leb r_val (length (results_of rs))
      then reported (take r_val (results_of rs))
      else unattainable (take (suc (length rs - r_val)) (errors_of rs))

  done_stays :
      (rs : List (Response E R)) (f : Fanout E R) (o : Outcome E R)
      → f.outcome ≡ some o
      → (on_responses rs f).outcome ≡ some o
  unfolding on_responses on_damp_req
  done_stays [] f o e = e
  done_stays (r ∷ rs) f o e = done_stays rs (on_damp_req r f) o (ground (arith, e))

  results_of-le : (rs : List (Response E R)) → length (results_of rs) ≤ length rs
  results_of-le [] = omega arith
  results_of-le (failed e ∷ rs) = omega (arith, results_of-le rs)
  results_of-le (replied r ∷ rs) = omega (arith, results_of-le rs)

  -- The outcome from a state of the variables on, with the responses that are still to come.
  outcome_from : Fanout E R → List (Response E R) → Outcome E R
  outcome_from f rs =
      if leb r_val (length f.results + length (results_of rs))
      then reported (f.results ++ take (r_val - length f.results) (results_of rs))
      else unattainable
          (f.errors ++ take (suc (length f.results + length rs - r_val)) (errors_of rs))

  -- The last possible error, and one that leaves the wanted number in reach; the last result that is wanted, and
  -- one before it.
  out_of_reach :
      (f : Fanout E R) (x : E) (rs : List (Response E R))
      → length f.results + suc (length rs) ≡ r_val
      → some (unattainable (f.errors ++ x ∷ [])) ≡ some (outcome_from f (failed x ∷ rs))
  unfolding outcome_from
  out_of_reach f x rs h =
      let test : leb r_val (length f.results + length (results_of rs)) ≡ false =
        ground (arith, h, results_of-le rs) in
      let count : length f.results + suc (length rs) - r_val ≡ 0 = omega (arith, h) in
      rw (test, count) refl

  in_reach :
      (f : Fanout E R) (x : E) (rs : List (Response E R))
      → r_val ≤ length f.results + length rs
      → some (outcome_from (record f { pending = f.pending - 1; errors = f.errors ++ x ∷ [] }) rs)
        ≡ some (outcome_from f (failed x ∷ rs))
  unfolding outcome_from
  in_reach f x rs h =
      let count : length f.results + suc (length rs) - r_val
          ≡ suc (length f.results + length rs - r_val) =
        omega (arith, h) in
      rw count (
        ap
          (λ es. some (
            if leb r_val (length f.results + length (results_of rs))
            then reported (f.results ++ take (r_val - length f.results) (results_of rs))
            else unattainable es))
          (append_assoc f.errors (x ∷ [])
            (take (suc (length f.results + length rs - r_val)) (errors_of rs))))

  last_wanted :
      (f : Fanout E R) (x : R) (rs : List (Response E R))
      → length f.results + 1 ≡ r_val
      → some (reported (f.results ++ x ∷ [])) ≡ some (outcome_from f (replied x ∷ rs))
  unfolding outcome_from
  last_wanted f x rs h =
      let test : leb r_val (length f.results + suc (length (results_of rs))) ≡ true =
        ground (arith, h) in
      let count : r_val - length f.results ≡ 1 = omega (arith, h) in rw (test, count) refl

  still_wanted :
      (f : Fanout E R) (x : R) (rs : List (Response E R))
      → length f.results + 1 < r_val
      → some (outcome_from (record f { pending = f.pending - 1; results = f.results ++ x ∷ [] }) rs)
        ≡ some (outcome_from f (replied x ∷ rs))
  unfolding outcome_from
  still_wanted f x rs h =
      let grown : length (f.results ++ x ∷ []) ≡ length f.results + 1 =
        length-append f.results (x ∷ []) in
      let left : r_val - length f.results ≡ suc (r_val - (length f.results + 1)) =
        omega (arith, h) in
      let all : length f.results + suc (length (results_of rs))
          ≡ length f.results + 1 + length (results_of rs) =
        omega arith in
      let count : length f.results + suc (length rs) ≡ length f.results + 1 + length rs =
        omega arith in
      rw (grown, left, all, count)
        (ap
          (λ results. some (
            if leb r_val (length f.results + 1 + length (results_of rs))
            then reported results
            else unattainable
                (f.errors ++ take (suc (length f.results + 1 + length rs - r_val)) (errors_of rs))))
          (append_assoc f.results (x ∷ []) (take (r_val - (length f.results + 1)) (results_of rs))))

  on_responses-outcome_from :
      (rs : List (Response E R)) (f : Fanout E R)
      → f.outcome ≡ none
      → f.pending ≡ length rs
      → length f.results < r_val
      → r_val ≤ length f.results + f.pending
      → (on_responses rs f).outcome ≡ some (outcome_from f rs)
  unfolding on_responses outcome_from
  on_responses-outcome_from [] f e p lt le = absurd (omega (arith, p, lt, le))
  on_responses-outcome_from (failed x ∷ rs) f e p lt le =
      let g = record f { pending = f.pending - 1; errors = f.errors ++ x ∷ [] } in
      elim (Bool-cases (ltb (f.pending - 1) (r_val - length f.results))) [
        | inl few ↦
            (let q : on_damp_req (failed x) f
                  ≡ record g { outcome = some (unattainable g.errors) } =
                unfold on_damp_req in ground (arith, e, few) in
              ap (λ h. (on_responses rs h).outcome) q
              ∙ (done_stays rs (record g { outcome = some (unattainable g.errors) })
                    (unattainable g.errors) refl
                  ∙ out_of_reach f x rs (ground (arith, le, p, lt, few))))
        | inr enough ↦
            (let q : on_damp_req (failed x) f ≡ g =
                unfold on_damp_req in ground (arith, e, enough) in
              ap (λ h. (on_responses rs h).outcome) q
              ∙ (on_responses-outcome_from rs g e (ground arith) lt (ground (arith, enough))
                  ∙ in_reach f x rs (ground (arith, enough, p, lt))))
      ]
  on_responses-outcome_from (replied x ∷ rs) f e p lt le =
      let g = record f { pending = f.pending - 1; results = f.results ++ x ∷ [] } in
      let grown : length (f.results ++ x ∷ []) ≡ length f.results + 1 =
        length-append f.results (x ∷ []) in
      elim (Bool-cases (leb r_val (length g.results))) [
        | inl full ↦
            (let q : on_damp_req (replied x) f ≡ record g { outcome = some (reported g.results) } =
                unfold on_damp_req in ground (arith, e, full) in
              ap (λ h. (on_responses rs h).outcome) q
              ∙ (done_stays rs (record g { outcome = some (reported g.results) })
                    (reported g.results) refl
                  ∙ last_wanted f x rs (ground (arith, grown, full, lt))))
        | inr more ↦
            (let q : on_damp_req (replied x) f ≡ g =
                unfold on_damp_req in ground (arith, e, more, grown) in
              ap (λ h. (on_responses rs h).outcome) q
              ∙ (on_responses-outcome_from rs g e (ground arith) (ground (arith, more))
                    (ground (arith, grown))
                  ∙ still_wanted f x rs (ground (arith, grown, more))))
      ]

  -- Once every selected member has answered or failed to, in any order, the callback has been called: with the
  -- first results, exactly as many as were wanted, if so many members replied, and else with the errors up to
  -- the one after which the wanted number was out of reach. (The wanted number is at least 1 and at most the
  -- number of members.)
  pub fanout-outcome_of :
      (responses : List (Response E R))
      → 0 < r_val
      → r_val ≤ length responses
      → (on_responses responses (start_fanout (length responses))).outcome
        ≡ some (outcome_of responses)
  unfolding start_fanout outcome_from
  fanout-outcome_of responses pos le =
      let replies : 0 + length (results_of responses) ≡ length (results_of responses) =
        omega arith in
      let wanted : r_val - 0 ≡ r_val = omega arith in
      let all : 0 + length responses ≡ length responses = omega arith in
      on_responses-outcome_from responses (start_fanout (length responses)) refl refl (omega arith)
        (omega arith)
      ∙ rw (replies, wanted, all) refl
