-- ===== src/SelfEvict/Hooks.antt =====
-- `registerHooks` and its errors.
use ringpop_node.Common.{
  ◌≡◌, ◌≢◌, refl, subst, String, Bool, true, not, ◌&&◌, Option, none, some, lookup, insert, is_some,
  lookup-insert, if◌then◌else◌, str_eq, arith,
}
use ringpop_node.SelfEvict.{
  SelfEvict, SelfEvictHooks, SelfEvictError, Method, absent, function, no_function, is_absent,
  is_no_function, register_named, field_required, argument_required, duplicate_hook,
  method_required, invalid_option, pre_evict, post_evict, register_hooks,
}

-- Hooks that can be registered under a name: one method at least, and functions only.
abbrev pub is_registrable : SelfEvictHooks → Bool
is_registrable hooks =
    not (is_absent hooks.pre && is_absent hooks.post)
    && (not (is_no_function hooks.pre) && not (is_no_function hooks.post))

-- The cause of an error of hooks with a name. The name is tested first, then that there is a method, then
-- that the methods are functions, `preEvict` first.
abbrev pub Causes : String → SelfEvictHooks → SelfEvict → SelfEvictError → Type 0
Causes name hooks s (duplicate_hook taken) = (taken ≡ name) × (is_some (lookup name s.hooks) ≡ true)
Causes name hooks s method_required =
    (lookup name s.hooks ≡ none) × (hooks.pre ≡ absent) × (hooks.post ≡ absent)
Causes name hooks s (invalid_option pre_evict) =
    (lookup name s.hooks ≡ none) × (hooks.pre ≡ no_function)
Causes name hooks s (invalid_option post_evict) =
    (lookup name s.hooks ≡ none) × (hooks.pre ≢ no_function) × (hooks.post ≡ no_function)
Causes name hooks s _ = ⊥

-- What a call with a name may give: hooks that are then registered, or an error with its cause.
abbrev pub Registers :
    String → SelfEvictHooks → SelfEvict → SelfEvict × Option SelfEvictError → Type 0
Registers name hooks s (s', none) =
    (lookup name s.hooks ≡ none)
    × (is_registrable hooks ≡ true)
    × ((asked : String)
        → lookup asked s'.hooks ≡ (if str_eq name asked then some hooks else lookup asked s.hooks))
    × (s'.phases ≡ s.phases)
Registers name hooks s (s', some error) = (s' ≡ s) × Causes name hooks s error

-- Without hooks, or with hooks without a name, the call gives the error for that and changes nothing.
abbrev pub RegistersAny :
    Option SelfEvictHooks → SelfEvict → SelfEvict × Option SelfEvictError → Type 0
RegistersAny none s (s', result) = (s' ≡ s) × (result ≡ some argument_required)
RegistersAny (some hooks) s (s', result) =
    ((hooks.name ≡ none) → (s' ≡ s) × (result ≡ some field_required))
    × ((name : String) → hooks.name ≡ some name → Registers name hooks s (s', result))

register_named-Registers :
    (hooks : SelfEvictHooks) (name : String) (s : SelfEvict)
    → Registers name hooks s (register_named name hooks s)
unfolding register_named
register_named-Registers hooks name s = go (lookup name s.hooks) refl hooks.pre hooks.post refl refl
  where
    go :
        (known : Option SelfEvictHooks)
        → lookup name s.hooks ≡ known
        → (pre post : Method) → hooks.pre ≡ pre
        → hooks.post ≡ post
        → Registers name hooks s (
            if is_some known
            then (s, some (duplicate_hook name))
            else if is_absent pre && is_absent post
            then (s, some method_required)
            else if is_no_function pre
            then (s, some (invalid_option pre_evict))
            else if is_no_function post
            then (s, some (invalid_option post_evict))
            else (record s { hooks = insert name hooks s.hooks }, none))
    go (some h) k pre post a b = (refl, (refl, rw k refl))
    go none k absent absent a b = (refl, (k, a, b))
    go none k absent function a b =
        (k, ground (arith, a, b), (λ asked. lookup-insert name asked hooks s.hooks), refl)
    go none k absent no_function a b = (refl, (k, (λ e. ground (arith, a, e)), b))
    go none k function absent a b =
        (k, ground (arith, a, b), (λ asked. lookup-insert name asked hooks s.hooks), refl)
    go none k function function a b =
        (k, ground (arith, a, b), (λ asked. lookup-insert name asked hooks s.hooks), refl)
    go none k function no_function a b = (refl, (k, (λ e. ground (arith, a, e)), b))
    go none k no_function absent a b = (refl, (k, a))
    go none k no_function function a b = (refl, (k, a))
    go none k no_function no_function a b = (refl, (k, a))

-- With an error `registerHooks` changes nothing, and the error names the first cause there is: no hooks, no
-- name, a name that is taken, no method, or a method that is no function; without one there is none of these,
-- and exactly the given hooks were put under the name.
pub register_hooks-RegistersAny :
    (hooks : Option SelfEvictHooks) (s : SelfEvict) → RegistersAny hooks s (register_hooks hooks s)
unfolding register_hooks
register_hooks-RegistersAny none s = (refl, refl)
register_hooks-RegistersAny (some hooks) s = go hooks.name refl
  where
    result : Option String → SelfEvict × Option SelfEvictError
    result n = elim n [ none ↦ (s, some field_required) | some own ↦ register_named own hooks s ]

    go :
        (n : Option String)
        → hooks.name ≡ n
        → RegistersAny (some hooks) s ((result n).0, (result n).1)
    go none e = ((λ h. (refl, refl)), λ name h. ground (arith, e, h))
    go (some own) e = (
      (λ h. ground (arith, e, h)),
      (λ name h.
          subst (λ n. Registers n hooks s (register_named own hooks s)) (same name h)
            (register_named-Registers hooks own s)),
    )
      where
        same : (name : String) → hooks.name ≡ some name → own ≡ name
        same name h = cc (e, h)
