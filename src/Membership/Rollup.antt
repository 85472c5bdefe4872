-- ===== src/Membership/Rollup.antt =====
-- lib/membership/rollup.js: the buffer of the updates that are logged together.
--
-- A flush gives what it logs and whether it emitted `flushed`; a timer is the time at which it was set.
use mathlib.Core.List.{append_assoc, append-nil}
use ringpop_node.Common.{
  ℕ, zero, suc, ◌+◌, ◌-◌, ◌≡◌, refl, sym, ap, ◌∙◌, String, Bool, true, false, List, [], ◌∷◌, ◌++◌,
  Option, none, some, Dict, lookup, insert, length, get_or, leb, ltb, if◌then◌else◌, str_eq, eq_iff,
  lookup-insert,
}
use ringpop_node.Member.{Change}

pub record Rollup : Type 0 where
  pub flush_interval : ℕ
  pub max_num_updates : ℕ
  pub buffer : Dict (List (ℕ × Change))
  pub first_update_time : Option ℕ
  pub last_flush_time : Option ℕ
  pub last_update_time : Option ℕ
  pub flush_timer : Option ℕ

unfoldable pub new_rollup : ℕ → Option ℕ → Rollup
new_rollup flush_interval max_num_updates = record {
  flush_interval = flush_interval;
  max_num_updates = get_or max_num_updates 250;
  buffer = [];
  first_update_time = none;
  last_flush_time = none;
  last_update_time = none;
  flush_timer = none;
}

abbrev pub entries : String → Dict (List (ℕ × Change)) → List (ℕ × Change)
entries address buffer = get_or (lookup address buffer) []

unfoldable pub add_updates : ℕ → List Change → Dict (List (ℕ × Change)) → Dict (List (ℕ × Change))
add_updates ts [] buffer = buffer
add_updates ts (update ∷ updates) buffer =
    add_updates ts updates
      (insert update.address (entries update.address buffer ++ (ts, update) ∷ []) buffer)

unfoldable pub get_num_updates : Dict (List (ℕ × Change)) → ℕ
get_num_updates [] = 0
get_num_updates ((address, updates) ∷ buffer) = length updates + get_num_updates buffer

-- What a flush logs: the number of updates, and the buffer if they are not too many.
pub record Flushed : Type 0 where
  pub num_updates : ℕ
  pub updates : Option (Dict (List (ℕ × Change)))

unfoldable pub flush_entries : ℕ → Dict (List (ℕ × Change)) → Rollup → Rollup × Option Flushed
unfolding get_num_updates
flush_entries now [] r = (r, none)
flush_entries now (entry ∷ rest) r = (
  record r {
    buffer = [];
    first_update_time = none;
    last_update_time = none;
    last_flush_time = some now;
  },
  some (record {
    num_updates = get_num_updates (entry ∷ rest);
    updates =
        if ltb (get_num_updates (entry ∷ rest)) r.max_num_updates
        then some (entry ∷ rest)
        else none;
  }),
)

unfoldable pub flush_buffer : ℕ → Rollup → Rollup × Option Flushed
unfolding flush_entries
flush_buffer now r = flush_entries now r.buffer r

unfoldable pub renew_flush_timer : ℕ → Rollup → Rollup
renew_flush_timer now r = record r { flush_timer = some now }

unfoldable pub destroy_rollup : Rollup → Rollup
destroy_rollup r = record r { flush_timer = none }

-- `firstUpdateTime` is not set while it is absent or 0.
abbrev pub set_or : ℕ → Option ℕ → Option ℕ
set_or now none = some now
set_or now (some zero) = some now
set_or now (some (suc n)) = some (suc n)

-- After the flush of `trackUpdates`.
unfoldable pub file_updates : ℕ → List Change → Rollup → Rollup
unfolding add_updates renew_flush_timer
file_updates now updates r =
    let timed =
      renew_flush_timer now (record r { first_update_time = set_or now r.first_update_time }) in
    record timed { buffer = add_updates now updates timed.buffer; last_update_time = some now }

-- Whether the last update is long ago.
abbrev pub is_quiet : ℕ → Rollup → Bool
is_quiet now r = leb r.flush_interval (now - get_or r.last_update_time 0)

unfoldable pub track_updates : ℕ → List Change → Rollup → Rollup × Option Flushed
unfolding file_updates flush_buffer
track_updates now [] r = (r, none)
track_updates now (update ∷ updates) r =
    if is_quiet now r
    then (let (flushed, log) = flush_buffer now r in
        (file_updates now (update ∷ updates) flushed, log))
    else (file_updates now (update ∷ updates) r, none)

-- The updates about an address with their time.
abbrev pub stamped : ℕ → String → List Change → List (ℕ × Change)
stamped ts address [] = []
stamped ts address (u ∷ us) =
    if str_eq u.address address then (ts, u) ∷ stamped ts address us else stamped ts address us

entries-add_updates :
    (ts : ℕ) (address : String) (us : List Change) (buffer : Dict (List (ℕ × Change)))
    → entries address (add_updates ts us buffer) ≡ entries address buffer ++ stamped ts address us
unfolding add_updates
entries-add_updates ts address [] buffer = sym (append-nil (entries address buffer))
entries-add_updates ts address (u ∷ us) buffer =
    entries-add_updates ts address us
      (insert u.address (entries u.address buffer ++ (ts, u) ∷ []) buffer)
    ∙ (ap (λ o. get_or o [] ++ stamped ts address us)
          (lookup-insert u.address address (entries u.address buffer ++ (ts, u) ∷ []) buffer)
        ∙ go (str_eq u.address address) refl)
  where
    go :
        (same : Bool)
        → str_eq u.address address ≡ same
        → get_or
              (if same
                then some (entries u.address buffer ++ (ts, u) ∷ [])
                else lookup address buffer)
              []
            ++ stamped ts address us
          ≡ entries address buffer
            ++ (if same then (ts, u) ∷ stamped ts address us else stamped ts address us)
    go true e =
        append_assoc (entries u.address buffer) ((ts, u) ∷ []) (stamped ts address us)
        ∙ ap (λ a. entries a buffer ++ (ts, u) ∷ stamped ts address us)
            ((eq_iff u.address address).0 e)
    go false e = refl

flush_buffer-empty : (now : ℕ) (r : Rollup) → (flush_buffer now r).0.buffer ≡ []
unfolding flush_buffer flush_entries
flush_buffer-empty now r = go r.buffer refl
  where
    go : (b : Dict (List (ℕ × Change))) → r.buffer ≡ b → (flush_entries now b r).0.buffer ≡ []
    go [] e = e
    go (entry ∷ rest) e = refl

-- After `trackUpdates` with some updates, the buffer holds for each address what it held, unless the last
-- update was long ago, and then the new updates about it with their time, in their order.
pub track_updates_lem :
    (now : ℕ) (u : Change) (us : List Change) (r : Rollup) (address : String)
    → entries address (track_updates now (u ∷ us) r).0.buffer
      ≡ (if is_quiet now r then [] else entries address r.buffer) ++ stamped now address (u ∷ us)
unfolding track_updates file_updates renew_flush_timer lookup
track_updates_lem now u us r address = go (is_quiet now r)
  where
    go :
        (quiet : Bool)
        → entries address
            (if◌then◌else◌ {A = Rollup × Option Flushed} quiet
              (file_updates now (u ∷ us) (flush_buffer now r).0, (flush_buffer now r).1)
              (file_updates now (u ∷ us) r, none)).0.buffer
          ≡ (if quiet then [] else entries address r.buffer) ++ stamped now address (u ∷ us)
    go true =
        entries-add_updates now address (u ∷ us) (flush_buffer now r).0.buffer
        ∙ ap (λ b. entries address b ++ stamped now address (u ∷ us)) (flush_buffer-empty now r)
    go false = entries-add_updates now address (u ∷ us) r.buffer
