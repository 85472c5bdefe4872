-- ===== src/Gossip/Dissemination/Sources.antt =====
-- Whether a change came from the present incarnation of a sender.
use ringpop_node.Common.{
  ℕ, ◌≡◌, refl, ◌≢◌, ◌∙◌, ap, String, true, Option, none, some, eq_iff, arith,
}
use ringpop_node.Member.{Change}
use ringpop_node.Gossip.Dissemination.{issued, filter_change, truthy_text, truthy_number, same_text}

pub filter_issued :
    (sender : Option String) (incarnation : Option ℕ) (c : Change)
    → filter_change sender incarnation (issued c) ≡ filter_change sender incarnation c
unfolding filter_change issued
filter_issued sender incarnation c = refl

-- The change came from the sender at its incarnation; a sender without address or with incarnation number
-- zero cannot be told.
pub record IsFrom (sender : Option String) (incarnation : Option ℕ) (c : Change) : Type 0 where
  pub address : String
  pub number : ℕ
  pub sent_by : sender ≡ some address
  pub sent_at : incarnation ≡ some number
  pub present : (address ≢ "") × (number ≢ 0)
  pub source : c.source ≡ some address
  pub source_number : c.source_incarnation_number ≡ some number

pub IsFrom-filter_change :
    (sender : Option String) (incarnation : Option ℕ) (c : Change)
    → IsFrom sender incarnation c
    → filter_change sender incarnation c ≡ true
unfolding filter_change truthy_text truthy_number same_text
IsFrom-filter_change sender incarnation c v =
    rw (v.sent_by, v.sent_at, v.source, v.source_number, filter_change)
      (ground (arith, v.present.0, v.present.1, eq_iff v.address "", eq_iff v.address v.address))

pub filter_change-true :
    (sender : Option String) (incarnation : Option ℕ) (c : Change)
    → filter_change sender incarnation c ≡ true
    → IsFrom sender incarnation c
unfolding filter_change truthy_text truthy_number same_text
filter_change-true sender incarnation c h =
    go sender incarnation c.source c.source_incarnation_number refl refl refl refl
  where
    go :
        (s : Option String) (i : Option ℕ) (t : Option String) (j : Option ℕ)
        → sender ≡ s
        → incarnation ≡ i
        → c.source ≡ t
        → c.source_incarnation_number ≡ j
        → IsFrom sender incarnation c
    go none i t j e k p q = ground (arith, h, e)
    go (some s) none t j e k p q = ground (arith, h, e, k)
    go (some s) (some n) none j e k p q = ground (arith, h, e, k, p)
    go (some s) (some n) (some t) none e k p q = ground (arith, h, e, k, p, q)
    go (some s) (some n) (some t) (some o) e k p q = record {
      address = s;
      number = n;
      sent_by = e;
      sent_at = k;
      present = (
        (λ z. ground (arith, h, e, k, p, q, z, eq_iff s "")),
        λ z. ground (arith, h, e, k, p, q, z),
      );
      source = p ∙ ap some (ground (arith, h, e, k, p, q, eq_iff s t));
      source_number = q ∙ ap some (ground (arith, h, e, k, p, q));
    }
