-- ===== src/Consensus/Quorum/Bounds.antt =====
-- The wait before the next campaign, and when a leader gives up.
use native.Mathlib.Nat.{mul-le-mul, mul-le-mul_left}
use matricxon.Base.Count.{count-le}
use matricxon.Base.{
  Bool, Option-cases, beq-cases, and_split, beq_self, ltb→lt, lt→ltb, of_some, some, sym, ◌∙◌,
  subst, inl, inr, ◌-◌, zero, suc, [], ◌∷◌, refl, ◌&&◌, ◌↔◌, ℕ, ◌+◌, ◌*◌, ◌^◌, ◌≤◌, ◌<◌, ◌≡◌,
  String, List, true, not, arith, min, count_by, ◌==◌, string_eq,
}
use matricxon.Base.Dict.{get}
use matricxon.Consensus.Quorum.{
  max_backoff, QuorumWatch, next_campaign_wait, reachable, must_step_down, heard_within,
  became_leader,
}

-- The last message of the voter is less than a timeout old.
abbrev pub RecentlyHeard : String → ℕ → QuorumWatch → Type 0
RecentlyHeard v now w = (at : ℕ) × (get v w.heard ≡ some at) × (now < at + w.timeout)

power_pos : (n : ℕ) → 1 ≤ 2 ^ n
power_pos zero = omega arith
power_pos (suc n) = omega (arith, power_pos n)

-- A draw below one puts the wait between one timeout and eight, whatever failed before.
pub next_campaign_wait-bounds :
    (draw : ℕ) (w : QuorumWatch)
    → draw < 1000
    → (w.timeout ≤ (next_campaign_wait draw w).1) × ((next_campaign_wait draw w).1 ≤ 8 * w.timeout)
unfolding next_campaign_wait
next_campaign_wait-bounds draw w h = (omega (arith, low), omega (arith, high))
  where
    factor : ℕ
    factor = min (2 ^ (w.failures + 1 - 1)) max_backoff

    low : w.timeout * 1000 * 1 ≤ w.timeout * (1000 + draw) * factor
    low =
        mul-le-mul (mul-le-mul_left w.timeout (omega arith))
          (omega (arith, power_pos (w.failures + 1 - 1)))

    high : w.timeout * (1000 + draw) * factor ≤ w.timeout * 2000 * 4
    high = mul-le-mul (mul-le-mul_left w.timeout (omega arith)) (omega arith)

-- A voter counts as heard exactly if its last message is less than a timeout old.
heard_within-true :
    (v : String) (now : ℕ) (w : QuorumWatch) → (heard_within v now w ≡ true) ↔ RecentlyHeard v now w
unfolding heard_within
heard_within-true v now w = elim (Option-cases (get v w.heard)) [
  | inl h ↦ (λ k. absurd (cc (rw (heard_within, h) at k)), λ (at, k, l). absurd (cc (sym h ∙ k)))
  | inr (at, h) ↦ (
    λ k. (at, h, ltb→lt _ _ (rw (heard_within, h) at k)),
    λ (at', k, l).
        rw (heard_within, h)
          (lt→ltb _ _ (subst (λ x. now < x + w.timeout) (of_some (sym k ∙ h)) l)),
  )
]

-- Two tests that pass on the same elements count the same.
count_by_iff :
    (p q : String → Bool) (xs : List String)
    → ((x : String) → (p x ≡ true) ↔ (q x ≡ true))
    → count_by p xs ≡ count_by q xs
count_by_iff p q xs h =
    omega (arith, count-le p q xs (λ x. (h x).0), count-le q p xs (λ x. (h x).1))

-- Whatever test tells the voters that are not the leader itself and whose last message is less than
-- a timeout old: a leader gives up exactly if it has led for a whole timeout and it and the voters
-- that pass the test are together fewer than a majority.
pub must_step_down_iff :
    (me : String) (voters : List String) (quorum now : ℕ) (w : QuorumWatch)
    (reached : String → Bool)
    → ((v : String) → (reached v ≡ true) ↔ ((v ≡ me → ⊥) × RecentlyHeard v now w))
    → (must_step_down me voters quorum now w ≡ true)
      ↔ ((w.leader_since + w.timeout ≤ now) × (1 + count_by reached voters < quorum))
unfolding must_step_down reachable
must_step_down_iff me voters quorum now w reached h =
    let same = count_by_iff reached (λ v. not (v == me) && heard_within v now w) voters agree in
    ground (arith, same)
  where
    agree : (v : String) → (reached v ≡ true) ↔ ((not (v == me) && heard_within v now w) ≡ true)
    agree v = (
      λ k.
          let (other, heard) = (h v).0 k in
          elim (beq-cases v me) [
            | inl p ↦ absurd (other p)
            | inr q ↦ rw (q, (heard_within-true v now w).1 heard) refl
          ],
      λ k.
          let (a, b) = and_split (not (v == me)) (heard_within v now w) k in
          elim (beq-cases v me) [
            | inl p ↦
                let c : not (v == v) ≡ true = subst (λ x. not (v == x) ≡ true) (sym p) a in
                absurd (cc (rw (beq_self v) at c))
            | inr q ↦ (h v).1 (
              (λ p. absurd (cc (sym q ∙ subst (λ x. (v == x) ≡ true) p (beq_self v)))),
              (heard_within-true v now w).0 b,
            )
          ],
    )

-- A leader that has heard from no voter since its election counts only itself, at any time.
reachable-became_leader :
    (me : String) (voters : List String) (now later : ℕ) (w : QuorumWatch)
    → reachable me voters later (became_leader now w) ≡ 1
unfolding reachable became_leader heard_within get
reachable-became_leader me [] now later w = refl
reachable-became_leader me (v ∷ vs) now later w =
    ground (arith, reachable-became_leader me vs now later w)
