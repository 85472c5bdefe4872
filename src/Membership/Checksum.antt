-- ===== src/Membership/Checksum.antt =====
-- lib/membership/index.js: `generateChecksumString`, `computeChecksum` and `_emitChecksumUpdate`.
-- A string that is built is the list of its codes.
pub mod Order
use Prim.Native.Nat.Ordering.{lt, eq, gt}
use ringpop_node.Common.{
  ℕ, zero, suc, ◌+◌, ◌/◌, ◌%◌, ◌<◌, String, ◌≡◌, refl, Bool, true, false, List, [], ◌∷◌, ◌++◌, map,
  Option, none, some, length, codes, compare_words, if◌then◌else◌, ltb, ◌==◌, arith,
}
use ringpop_node.Config.{Env}
use ringpop_node.Member.{
  Member, Change, Status, alive, faulty, leave, suspect, tombstone, unknown, is_tombstone,
}
use ringpop_node.Membership.State.{Membership, member_list}
use ringpop_node.Membership.Events.{Counts, Event, checksum_computed, checksum_update}

-- The decimal digits of a number; `suc n` rounds are enough for `n`.
digits_from : ℕ → ℕ → List ℕ
digits_from zero n = []
digits_from (suc fuel) n =
    let rest = digits_from fuel (n / 10) in
    if ltb n 10 then (b'0' + n) ∷ [] else rest ++ (b'0' + n % 10) ∷ []

unfoldable pub decimal : ℕ → List ℕ
unfolding digits_from
decimal n = digits_from (suc n) n

unfoldable pub status_codes : Status → List ℕ
status_codes alive = codes "alive"
status_codes faulty = codes "faulty"
status_codes leave = codes "leave"
status_codes suspect = codes "suspect"
status_codes tombstone = codes "tombstone"
status_codes (unknown s) = codes s

-- `copiedMembers.sort(…)` by address: a stable sort, by insertion.
unfoldable pub insert_sorted : Member → List Member → List Member
insert_sorted m [] = m ∷ []
insert_sorted m (x ∷ xs) = elim (compare_words (codes x.address) (codes m.address)) [
  | lt ↦ x ∷ insert_sorted m xs
  | eq ↦ m ∷ x ∷ xs
  | gt ↦ m ∷ x ∷ xs
]

unfoldable pub sort_by_address : List Member → List Member
unfolding insert_sorted
sort_by_address [] = []
sort_by_address (m ∷ ms) = insert_sorted m (sort_by_address ms)

-- What one member adds to the string.
unfoldable pub member_string : Member → List ℕ
member_string m =
    if is_tombstone m.status
    then []
    else codes m.address ++ (status_codes m.status ++ (decimal m.incarnation_number ++ b';' ∷ []))

unfoldable pub concat_strings : List Member → List ℕ
unfolding member_string
concat_strings [] = []
concat_strings (m ∷ ms) = member_string m ++ concat_strings ms

-- `s.slice(0, -1)`.
unfoldable pub drop_last : List ℕ → List ℕ
drop_last [] = []
drop_last (a ∷ []) = []
drop_last (a ∷ b ∷ r) = a ∷ drop_last (b ∷ r)

unfoldable pub generate_checksum_string : List Member → List ℕ
unfolding sort_by_address concat_strings drop_last
generate_checksum_string ms = drop_last (concat_strings (sort_by_address ms))

-- `membershipStatusCounts`.
count_status : Status → Counts → Counts
count_status alive c = record c { alives = c.alives + 1 }
count_status faulty c = record c { faulties = c.faulties + 1 }
count_status leave c = record c { leaves = c.leaves + 1 }
count_status suspect c = record c { suspects = c.suspects + 1 }
count_status tombstone c = record c { tombstones = c.tombstones + 1 }
count_status (unknown s) c = c

unfoldable pub status_counts : Counts → List Member → Counts
unfolding count_status
status_counts c [] = c
status_counts c (m ∷ ms) = status_counts (count_status m.status c) ms

abbrev pub no_counts : Counts
no_counts = record { alives = 0; faulties = 0; leaves = 0; suspects = 0; tombstones = 0 }

differs : Option ℕ → ℕ → Bool
differs none b = true
differs (some a) b = if a == b then false else true

unfoldable pub compute_checksum : Env → Membership → Membership × List Event
unfolding generate_checksum_string differs
compute_checksum env m =
    let checksum = env.hash_func (generate_checksum_string (member_list m)) in
    (
      record m { checksum = some checksum },
      checksum_computed checksum m.checksum
          ∷ (if differs m.checksum checksum
              then checksum_update checksum (status_counts no_counts (member_list m)) ∷ []
              else []),
    )
