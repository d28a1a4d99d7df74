-- ===== src/Consensus/Node/Leading/Known.antt =====
-- The first free slot of a new leader is past everything that it knows of.
use matricxon.Base.{
  ℕ, ◌≤◌, ◌+◌, ◌≡◌, [], ◌∷◌, true, inl, inr, In, arith, max, nat_eq, ap, beq-cases,
}
use matricxon.Base.Dict.{Dict, has}
use matricxon.Consensus.Command.{Command}
use matricxon.Consensus.Node.Leading.{greatest, past_known}

greatest-ge : (k : ℕ) (d : Dict ℕ Command) → k ≤ greatest k d
unfolding greatest
greatest-ge k [] = omega arith
greatest-ge k ((i, c) ∷ d) = omega (arith, greatest-ge (max k (i + 1)) d)

greatest-has : (k i : ℕ) (d : Dict ℕ Command) → has i d ≡ true → i + 1 ≤ greatest k d
unfolding greatest has
greatest-has k i [] h = absurd (cc)
greatest-has k i ((j, c) ∷ d) h = elim (beq-cases j i) [
  | inl p ↦ omega (arith, greatest-ge (max k (j + 1)) d)
  | inr q ↦ greatest-has (max k (j + 1)) i d (ground arith)
]

greatest-In : (k i : ℕ) (c : Command) (d : Dict ℕ Command) → In (i, c) d → i + 1 ≤ greatest k d
unfolding greatest
greatest-In k i c [] m = absurd m
greatest-In k i c ((j, w) ∷ d) (inl p) =
    omega (arith, greatest-ge (max k (j + 1)) d, ap (λ (x : ℕ × Command). x.0) p)
greatest-In k i c ((j, w) ∷ d) (inr m) = greatest-In (max k (j + 1)) i c d m

-- The first free slot of a new leader is past each slot that it knows to be chosen.
pub past_known-chosen :
    (chosen plan : Dict ℕ Command) (i : ℕ) → has i chosen ≡ true → i + 1 ≤ past_known chosen plan
unfolding past_known
past_known-chosen chosen plan i h =
    omega (arith, greatest-has 0 i chosen h, greatest-ge (greatest 0 chosen) plan)

-- The first free slot of a new leader is past each slot of its plan.
pub past_known-plan :
    (chosen plan : Dict ℕ Command) (i : ℕ) (c : Command)
    → In (i, c) plan
    → i + 1 ≤ past_known chosen plan
unfolding past_known
past_known-plan chosen plan i c m = greatest-In (greatest 0 chosen) i c plan m
