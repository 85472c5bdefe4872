-- ===== src/Middleware/Stack.antt =====
-- lib/middleware/stack.js. A middleware may change the request's object and its arguments; what it
-- hands on to its callback is what its function here returns. A missing method is `none`. The index
-- `i` of the code is the number of middlewares still to be called on the way back.
use ringpop_node.Common.{
  ℕ, zero, suc, ◌≡◌, refl, ap, ◌∙◌, List, [], ◌∷◌, Option, none, some, length, get_elem?,
}

pub record Middleware (Req Args Res : Type 0) : Type 0 where
  pub request : Option (Req → Args → Req × Args)
  pub response : Option (Req → Res → Req × Res)

module _ {Req Args Res : Type 0} where
  -- One call of a middleware's method, or the step past one that does not have it.
  unfoldable pub call_request : Middleware Req Args Res → Req → Args → Req × Args
  call_request m req args = elim m.request [ none ↦ (req, args) | some f ↦ f req args ]

  unfoldable pub call_response : Option (Middleware Req Args Res) → Req → Res → Req × Res
  call_response none req res = (req, res)
  call_response (some m) req res = elim m.response [ none ↦ (req, res) | some f ↦ f req res ]

  -- `callResponseMiddleware`, from the index `i` down.
  unfoldable pub call_response_middleware :
      List (Middleware Req Args Res) → ℕ → Req → Res → Req × Res
  unfolding call_response
  call_response_middleware ms zero req res = (req, res)
  call_response_middleware ms (suc i) req res =
      let answer = call_response (get_elem? ms i) req res in
      call_response_middleware ms i answer.0 answer.1

  -- `callRequestMiddleware`, over the middlewares that are left.
  unfoldable pub call_request_middleware : List (Middleware Req Args Res) → Req → Args → Req × Args
  unfolding call_request
  call_request_middleware [] req args = (req, args)
  call_request_middleware (m ∷ ms) req args =
      let asked = call_request m req args in call_request_middleware ms asked.0 asked.1

  unfoldable pub run :
      List (Middleware Req Args Res) → (Req → Args → Req × Res) → Req → Args → Req × Res
  unfolding call_request_middleware call_response_middleware
  run ms handler req args =
      let asked = call_request_middleware ms req args in
      let answer = handler asked.0 asked.1 in
      call_response_middleware ms (length ms) answer.0 answer.1

  -- A middleware wrapped round a handler.
  abbrev pub wrap : Middleware Req Args Res → (Req → Args → Req × Res) → Req → Args → Req × Res
  wrap m handler req args =
      let asked = call_request m req args in
      let answer = handler asked.0 asked.1 in call_response (some m) answer.0 answer.1

  -- The documented order: each middleware is wrapped round all that follow it.
  abbrev pub nest :
      List (Middleware Req Args Res) → (Req → Args → Req × Res) → Req → Args → Req × Res
  nest [] handler = handler
  nest (m ∷ ms) handler = wrap m (nest ms handler)

  -- The first middleware is the last to see the response.
  call_response_middleware-suc :
      (m : Middleware Req Args Res) (ms : List (Middleware Req Args Res)) (i : ℕ) (req : Req)
      (res : Res)
      → call_response_middleware (m ∷ ms) (suc i) req res
        ≡ call_response
            (some m)
            (call_response_middleware ms i req res).0
            (call_response_middleware ms i req res).1
  unfolding call_response_middleware
  call_response_middleware-suc m ms zero req res = refl
  call_response_middleware-suc m ms (suc i) req res =
      call_response_middleware-suc m ms i (call_response (get_elem? ms i) req res).0
        (call_response (get_elem? ms i) req res).1

  -- A run of the stack is the handler with the middlewares nested round it in the order of the list:
  -- each request method is called before those after it and each response method after them.
  pub run-nest :
      (ms : List (Middleware Req Args Res)) (handler : Req → Args → Req × Res) (req : Req)
      (args : Args)
      → run ms handler req args ≡ nest ms handler req args
  unfolding run
  run-nest [] handler req args = refl
  run-nest (m ∷ ms) handler req args =
      let asked =
        call_request_middleware ms (call_request m req args).0 (call_request m req args).1 in
      let answer = handler asked.0 asked.1 in
      call_response_middleware-suc m ms (length ms) answer.0 answer.1
      ∙ ap (λ r. call_response (some m) r.0 r.1)
          (run-nest ms handler (call_request m req args).0 (call_request m req args).1)
