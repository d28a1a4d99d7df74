-- ===== src/Consensus/Proposer/Plan.antt =====
-- What `Campaign.plan` proposes: the best entry of a slot, a no-op for a gap, and nothing for a
-- slot that is known to be chosen.
use matricxon.Base.{
  ℕ, zero, suc, ◌+◌, ◌-◌, ◌≤◌, ◌<◌, ◌≡◌, ◌⊎◌, inl, inr, [], ◌∷◌, some, true, false, arith, In,
  nat_eq, Bool-cases, refl, max, beq-cases, ap, sym, subst,
}
use matricxon.Base.Dict.{Dict, get, has}
use matricxon.Consensus.Ballot.{Ballot}
use matricxon.Consensus.Command.{Command}
use matricxon.Consensus.Proposer.{Campaign, planned, fill, last_slot, plan_of, plan, best_of}

-- What the plan says of a pair: the slot is at or above the start, it is not known to be chosen, and
-- the command is the planned one.
abbrev pub IsFilled : ℕ → Dict ℕ (Ballot × Command) → Dict ℕ Command → ℕ → Command → Type 0
IsFilled slot best chosen i c = (slot ≤ i) × (has i chosen ≡ false) × (c ≡ planned best i)

head-IsFilled :
    (slot : ℕ) (best : Dict ℕ (Ballot × Command)) (chosen : Dict ℕ Command) (i : ℕ) (c : Command)
    → has slot chosen ≡ false
    → ◌≡◌ {A = ℕ × Command} (i, c) (slot, planned best slot)
    → IsFilled slot best chosen i c
head-IsFilled slot best chosen i c h p = (
  omega (arith, q),
  subst (λ k. has k chosen ≡ false) (sym q) h,
  subst (λ k. c ≡ planned best k) (sym q) (ap (λ (x : ℕ × Command). x.1) p),
)
  where
    q : i ≡ slot
    q = ap (λ (x : ℕ × Command). x.0) p

fill-IsFilled :
    (n slot : ℕ) (best : Dict ℕ (Ballot × Command)) (chosen : Dict ℕ Command) (i : ℕ) (c : Command)
    → In (i, c) (fill n slot best chosen)
    → IsFilled slot best chosen i c
unfolding fill
fill-IsFilled zero slot best chosen i c m = absurd m
fill-IsFilled (suc n) slot best chosen i c m = elim (Bool-cases (has slot chosen)) [
  | inl h ↦ later (fill-IsFilled n (slot + 1) best chosen i c (rw h at m))
  | inr h ↦
      let m' : In (i, c) ((slot, planned best slot) ∷ fill n (slot + 1) best chosen) = rw h at m in
      elim m' [
        | inl p ↦ head-IsFilled slot best chosen i c h p
        | inr k ↦ later (fill-IsFilled n (slot + 1) best chosen i c k)
      ]
]
  where
    later : IsFilled (slot + 1) best chosen i c → IsFilled slot best chosen i c
    later (l, h, p) = (omega arith, h, p)

fill-all :
    (n slot : ℕ) (best : Dict ℕ (Ballot × Command)) (chosen : Dict ℕ Command) (i : ℕ)
    → slot ≤ i
    → i < slot + n
    → (has i chosen ≡ true) ⊎ In (i, planned best i) (fill n slot best chosen)
unfolding fill
fill-all zero slot best chosen i l h = absurd (omega arith)
fill-all (suc n) slot best chosen i l h = elim (beq-cases i slot) [
  | inl p ↦ elim (Bool-cases (has slot chosen)) [
    | inl k ↦ inl (rw p k)
    | inr k ↦ inr (rw (k, p) (inl refl))
  ]
  | inr q ↦ elim (fill-all n (slot + 1) best chosen i (ground arith) (omega arith)) [
    | inl k ↦ inl k
    | inr m ↦ elim (Bool-cases (has slot chosen)) [
      | inl k ↦ inr (rw k m)
      | inr k ↦ inr (rw k (inr m))
    ]
  ]
]

last-ge : (n : ℕ) (best : Dict ℕ (Ballot × Command)) → n ≤ last_slot n best
unfolding last_slot
last-ge n [] = omega arith
last-ge n ((j, w) ∷ best) = omega (arith, last-ge (max n j) best)

last-le :
    (n i : ℕ) (best : Dict ℕ (Ballot × Command)) (v : Ballot × Command)
    → get i best ≡ some v
    → i ≤ last_slot n best
unfolding get last_slot
last-le n i [] v h = absurd (cc)
last-le n i ((j, w) ∷ best) v h = elim (beq-cases j i) [
  | inl p ↦ omega (arith, last-ge (max n j) best)
  | inr q ↦ last-le (max n j) i best v (ground arith)
]

plan_of-IsFilled :
    (best : Dict ℕ (Ballot × Command)) (slot : ℕ) (chosen : Dict ℕ Command) (i : ℕ) (c : Command)
    → In (i, c) (plan_of best slot chosen)
    → IsFilled slot best chosen i c
unfolding plan_of
plan_of-IsFilled [] slot chosen i c m = absurd m
plan_of-IsFilled (e ∷ es) slot chosen i c m =
    fill-IsFilled (last_slot 0 (e ∷ es) + 1 - slot) slot (e ∷ es) chosen i c m

plan_of-all :
    (best : Dict ℕ (Ballot × Command)) (slot : ℕ) (chosen : Dict ℕ Command) (i : ℕ)
    (v : Ballot × Command)
    → slot ≤ i
    → get i best ≡ some v
    → (has i chosen ≡ true) ⊎ In (i, planned best i) (plan_of best slot chosen)
unfolding plan_of get
plan_of-all [] slot chosen i v l h = absurd (cc)
plan_of-all (e ∷ es) slot chosen i v l h =
    fill-all (last_slot 0 (e ∷ es) + 1 - slot) slot (e ∷ es) chosen i l
      (omega (arith, last-le 0 i (e ∷ es) v h))

-- The same of the plan of a campaign.
pub plan-IsFilled :
    (slot : ℕ) (chosen : Dict ℕ Command) (camp : Campaign) (i : ℕ) (c : Command)
    → In (i, c) (plan slot chosen camp)
    → IsFilled slot (best_of camp) chosen i c
unfolding plan
plan-IsFilled slot chosen camp = plan_of-IsFilled (best_of camp) slot chosen

pub plan-best_of :
    (slot : ℕ) (chosen : Dict ℕ Command) (camp : Campaign) (i : ℕ) (v : Ballot × Command)
    → slot ≤ i
    → get i (best_of camp) ≡ some v
    → (has i chosen ≡ true) ⊎ In (i, planned (best_of camp) i) (plan slot chosen camp)
unfolding plan
plan-best_of slot chosen camp i v l h = plan_of-all (best_of camp) slot chosen i v l h
