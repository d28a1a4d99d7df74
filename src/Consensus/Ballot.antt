-- ===== src/Consensus/Ballot.antt =====
-- app/consensus/ballot.py. A named tuple is compared field by field: the round, then the node's id.
pub mod Order
use matricxon.Base.{
  ℕ, ◌≡◌, ◌⊎◌, inl, inr, String, Bool, true, false, not, ◌&&◌, ◌||◌, arith, ltb, Eq, ◌==◌, ap,
  nat_eq, string_eq, beq_self, beq-cases, ◌↔◌, refl, max,
}
use matricxon.Base.Text.{text_ltb, text_ltb_irrefl, text_ltb_trans, text_ltb_total}
use text.Mathlib.TextEquality.{eq_iff}

pub record Ballot : Type 0 where
  pub round : ℕ
  pub node : String

abbrev pub zero_ballot : Ballot
zero_ballot = record { round = 0; node = "" }

-- `a < b`
unfoldable pub ballot_ltb : Ballot → Ballot → Bool
ballot_ltb a b = ltb a.round b.round || (a.round == b.round && text_ltb a.node b.node)

-- `a >= b`
abbrev pub ballot_geb : Ballot → Ballot → Bool
ballot_geb a b = not (ballot_ltb a b)

Ballot-path : {a b : Ballot} → a.round ≡ b.round → a.node ≡ b.node → a ≡ b
Ballot-path p q = λ i. record { round = p i; node = q i }

abbrev pub same_ballot : Ballot → Ballot → Bool
same_ballot a b = a.round == b.round && a.node == b.node

pub same_ballot_iff : (a b : Ballot) → (same_ballot a b ≡ true) ↔ (a ≡ b)
same_ballot_iff a b = (
  λ h. Ballot-path (ground arith) ((eq_iff a.node b.node).0 (ground arith)),
  λ p.
      ground (
        arith,
        ap (λ (c : Ballot). c.round) p,
        ap (λ (c : Ballot). c.node) p,
        eq_iff a.node b.node,
      ),
)

instance abbrev pub ballot_eq : Eq Ballot
ballot_eq = record { beq = same_ballot; beq_iff = same_ballot_iff }

pub ballot_ltb_irrefl : (a : Ballot) → ballot_ltb a a ≡ false
unfolding ballot_ltb
ballot_ltb_irrefl a = ground (arith, text_ltb_irrefl a.node)

pub ballot_ltb_trans :
    (a b c : Ballot) → ballot_ltb a b ≡ true → ballot_ltb b c ≡ true → ballot_ltb a c ≡ true
unfolding ballot_ltb
ballot_ltb_trans a b c h k = ground (arith, text_ltb_trans a.node b.node c.node)

-- Of two ballots that differ one is before the other, so two nodes never share one.
pub ballot_ltb_total : (a b : Ballot) → ballot_ltb a b ≡ false → ballot_ltb b a ≡ false → a ≡ b
unfolding ballot_ltb
ballot_ltb_total a b h k =
    Ballot-path (ground arith) (text_ltb_total a.node b.node (ground arith) (ground arith))
