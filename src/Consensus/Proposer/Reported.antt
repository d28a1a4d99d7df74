-- ===== src/Consensus/Proposer/Reported.antt =====
-- What `Campaign.plan` proposes, in terms of what the promises of the campaign report.
use matricxon.Base.{
  ℕ, ◌≤◌, ◌≡◌, ◌⊎◌, inl, inr, String, List, none, some, true, false, In, Option-cases, nat_eq,
  subst, sym, ◌∙◌, of_some,
}
use matricxon.Base.Dict.{Dict, get, has}
use matricxon.Consensus.Ballot.{Ballot}
use matricxon.Consensus.Ballot.Order.{Le}
use matricxon.Consensus.Command.{Command, noop}
use matricxon.Consensus.Messages.{Entry}
use matricxon.Consensus.Proposer.{Campaign, planned, plan, best_of}
use matricxon.Consensus.Proposer.Best.{best_of-Covers, best_of_origin}
use matricxon.Consensus.Proposer.Plan.{plan-IsFilled, plan-best_of}

-- Some promise of the campaign reports that a command was accepted in a slot under a ballot.
abbrev pub Reported : Campaign → ℕ → Ballot → Command → Type 0
Reported camp i b c = (a : String) × (es : List Entry) × In (a, es) camp.promises × In (i, b, c) es

-- The command is reported for the slot under a ballot that no ballot reported for it exceeds.
abbrev pub Highest : Campaign → ℕ → Command → Type 0
Highest camp i c =
    (b : Ballot) × Reported camp i b c
    × ((b' : Ballot) (c' : Command) → Reported camp i b' c' → Le b' b)

-- What may be proposed for a slot: a command reported under the highest ballot, or a no-op if no
-- promise reports the slot.
abbrev pub Allowed : Campaign → ℕ → Command → Type 0
Allowed camp i c =
    Highest camp i c ⊎ ((c ≡ noop) × ((b : Ballot) (c' : Command) → Reported camp i b c' → ⊥))

module _ (camp : Campaign) (i : ℕ) where
  -- The best entry of the slot is a reported one of the highest ballot.
  best-Highest : (v : Ballot × Command) → get i (best_of camp) ≡ some v → Highest camp i v.1
  best-Highest v h = (v.0, best_of_origin camp i v h, high)
    where
      high : (b : Ballot) (c : Command) → Reported camp i b c → Le b v.0
      high b c (a, es, m, k) =
          let (w, found, le) = best_of-Covers camp a es i b c m k in
          subst (λ (x : Ballot × Command). Le b x.0) (of_some (sym found ∙ h)) le

  no_best-Reported :
      get i (best_of camp) ≡ none → (b : Ballot) (c : Command) → Reported camp i b c → ⊥
  no_best-Reported h b c (a, es, m, k) =
      let (w, found, le) = best_of-Covers camp a es i b c m k in absurd (cc (sym h ∙ found))

  planned-some :
      (v : Ballot × Command) → get i (best_of camp) ≡ some v → planned (best_of camp) i ≡ v.1
  unfolding planned
  planned-some v h = rw (h, planned)

  planned-none : get i (best_of camp) ≡ none → planned (best_of camp) i ≡ noop
  unfolding planned
  planned-none h = rw (h, planned)

  planned-Allowed : Allowed camp i (planned (best_of camp) i)
  planned-Allowed = elim (Option-cases (get i (best_of camp))) [
    | inl h ↦ inr (planned-none h, no_best-Reported h)
    | inr (v, h) ↦ inl (subst (Highest camp i) (sym (planned-some v h)) (best-Highest v h))
  ]

-- Every proposal of the plan is for a slot from the start on that is not known to be chosen. Its
-- command is one that a promise of the campaign reports for the slot, under a ballot that no ballot
-- reported for the slot exceeds; or it is the no-op, and no promise reports the slot.
pub plan-Allowed :
    (slot : ℕ) (chosen : Dict ℕ Command) (camp : Campaign) (i : ℕ) (c : Command)
    → In (i, c) (plan slot chosen camp)
    → (slot ≤ i) × (has i chosen ≡ false) × Allowed camp i c
plan-Allowed slot chosen camp i c m =
    let (l, h, p) = plan-IsFilled slot chosen camp i c m in
    (l, h, subst (Allowed camp i) (sym p) (planned-Allowed camp i))

-- A slot from the start on that some promise of the campaign reports is known to be chosen, or it is
-- in the plan with a command that a promise reports for it under a ballot that no ballot reported
-- for it exceeds.
pub plan-Reported :
    (slot : ℕ) (chosen : Dict ℕ Command) (camp : Campaign) (i : ℕ) (b : Ballot) (c : Command)
    → slot ≤ i
    → Reported camp i b c
    → (has i chosen ≡ true) ⊎ ((d : Command) × In (i, d) (plan slot chosen camp) × Highest camp i d)
plan-Reported slot chosen camp i b c l (a, es, m, k) =
    let (v, h, le) = best_of-Covers camp a es i b c m k in
    elim (plan-best_of slot chosen camp i v l h) [
      | inl known ↦ inl known
      | inr n ↦ inr (
        planned (best_of camp) i,
        n,
        subst (Highest camp i) (sym (planned-some camp i v h)) (best-Highest camp i v h),
      )
    ]
