-- ===== src/Member/Precedence.antt =====
-- The order behind `shouldProcessGossip`: an update overrides a member by incarnation number first
-- and by the precedence of its status second.
use ringpop_node.Common.{
  ℕ, ◌≡◌, Bool, true, false, ◌&&◌, ◌||◌, some, arith, ltb, ◌==◌, ltb_int, ltb_int_trans,
  ltb_int_negtrans, ltb_int_irrefl, ltb_int_asymm, eq_of_ltb_int,
}
use ringpop_node.Member.{Status, Change, Member, should_process_gossip, status_precedence}

-- What a node knows of an address: an incarnation number and a status.
pub record Known : Type 0 where
  pub incarnation_number : ℕ
  pub status : Status

-- `a` is older than `b`.
unfoldable pub older : Known → Known → Bool
older a b =
    ltb a.incarnation_number b.incarnation_number
    || (a.incarnation_number == b.incarnation_number
        && ltb_int (status_precedence a.status) (status_precedence b.status))

abbrev pub known_of : Member → Known
known_of m = record { incarnation_number = m.incarnation_number; status = m.status }

abbrev pub claim_of : Change → Known
claim_of c = record { incarnation_number = c.incarnation_number; status = c.status }

-- An update about a known member is processed exactly if it is newer than what is known.
pub should_process_gossip_known :
    (m : Member) (c : Change) → should_process_gossip (some m) c ≡ older (known_of m) (claim_of c)
unfolding should_process_gossip older
should_process_gossip_known m c = ground arith

pub older_irrefl : (a : Known) → older a a ≡ false
unfolding older
older_irrefl a = ground (arith, ltb_int_irrefl (status_precedence a.status))

pub older_asymm : (a b : Known) → older a b ≡ true → older b a ≡ false
unfolding older
older_asymm a b h =
    ground (arith, ltb_int_asymm (status_precedence a.status) (status_precedence b.status))

pub older_trans : (a b c : Known) → older a b ≡ true → older b c ≡ true → older a c ≡ true
unfolding older
older_trans a b c h k = ground (
  arith,
  ltb_int_trans (status_precedence a.status) (status_precedence b.status)
      (status_precedence c.status),
)

-- Two claims of which neither is older agree on the incarnation number and on the precedence.
pub eq_of_older :
    (a b : Known)
    → older a b ≡ false
    → older b a ≡ false
    → (a.incarnation_number ≡ b.incarnation_number)
      × (status_precedence a.status ≡ status_precedence b.status)
unfolding older
eq_of_older a b h k =
    ground (arith, eq_of_ltb_int (status_precedence a.status) (status_precedence b.status))

pub older_negtrans : (a b c : Known) → older a b ≡ false → older b c ≡ false → older a c ≡ false
unfolding older
older_negtrans a b c h k = ground (
  arith,
  ltb_int_negtrans (status_precedence a.status) (status_precedence b.status)
      (status_precedence c.status),
  ltb_int_trans (status_precedence a.status) (status_precedence b.status)
      (status_precedence c.status),
)
