-- ===== src/Consensus/Ballot/Order.antt =====
-- The order of ballots as relations, with the laws that the protocol's proofs use.
use matricxon.Base.{◌<◌}
use matricxon.Base.{◌≤◌, ◌≡◌, ◌⊎◌, inl, inr, true, false, arith, Bool-cases, sym, subst}
use matricxon.Consensus.Ballot.{
  Ballot, ballot_ltb, ballot_ltb_irrefl, ballot_ltb_trans, ballot_ltb_total,
}

abbrev pub Lt : Ballot → Ballot → Type 0
Lt a b = ballot_ltb a b ≡ true

abbrev pub Le : Ballot → Ballot → Type 0
Le a b = ballot_ltb b a ≡ false

pub lt_irrefl : (a : Ballot) → Lt a a → ⊥
lt_irrefl a h = cc (ballot_ltb_irrefl a)

pub lt_trans : (a b c : Ballot) → Lt a b → Lt b c → Lt a c
lt_trans = ballot_ltb_trans

pub le_refl : (a : Ballot) → Le a a
le_refl = ballot_ltb_irrefl

pub le_of_lt : (a b : Ballot) → Lt a b → Le a b
le_of_lt a b h = elim (Bool-cases (ballot_ltb b a)) [
  | inl k ↦ absurd (lt_irrefl a (lt_trans a b a h k))
  | inr k ↦ k
]

pub not-lt_of_le : (a b : Ballot) → Le a b → Lt b a → ⊥
not-lt_of_le a b h k = cc

pub le_cases : (a b : Ballot) → Le a b → Lt a b ⊎ (a ≡ b)
le_cases a b h = elim (Bool-cases (ballot_ltb a b)) [
  | inl k ↦ inl k
  | inr k ↦ inr (ballot_ltb_total a b k h)
]

pub total : (a b : Ballot) → Lt a b ⊎ Le b a
total a b = elim (Bool-cases (ballot_ltb a b)) [ inl k ↦ inl k | inr k ↦ inr k ]

pub le_lt_trans : (a b c : Ballot) → Le a b → Lt b c → Lt a c
le_lt_trans a b c h k = elim (le_cases a b h) [
  | inl l ↦ lt_trans a b c l k
  | inr p ↦ subst (λ x. Lt x c) (sym p) k
]

pub lt_le_trans : (a b c : Ballot) → Lt a b → Le b c → Lt a c
lt_le_trans a b c h k = elim (le_cases b c k) [
  | inl l ↦ lt_trans a b c h l
  | inr p ↦ subst (λ x. Lt a x) p h
]

pub le_trans : (a b c : Ballot) → Le a b → Le b c → Le a c
le_trans a b c h k = elim (le_cases a b h) [
  | inl l ↦ le_of_lt a c (lt_le_trans a b c l k)
  | inr p ↦ subst (λ x. Le x c) (sym p) k
]

pub round-le : (a b : Ballot) → Le a b → a.round ≤ b.round
unfolding ballot_ltb
round-le a b h = ground arith

pub lt_of_round : (a b : Ballot) → a.round < b.round → Lt a b
unfolding ballot_ltb
lt_of_round a b h = ground arith

pub le_antisymm : (a b : Ballot) → Le a b → Le b a → a ≡ b
le_antisymm a b h k = ballot_ltb_total a b k h
