-- ===== src/Consensus/Catchup/Due.antt =====
-- When the next batch of the log is due.
use matricxon.Base.{
  and_split, refl, sym, subst, ◌&&◌, not, ℕ, ◌+◌, ◌≤◌, ◌<◌, ◌⊎◌, ◌≡◌, inl, inr, none, some, true,
  false, Option, Bool-cases, ◌∙◌, arith, nat_eq, string_eq, ◌==◌,
}
use matricxon.Consensus.Catchup.{
  taken_in, within, Position, CatchUpPolicy, same_position, moved, waits,
}

-- The next batch is due: none was asked for, the last one has been taken in, or the node has not
-- moved for a second.
abbrev pub Due : ℕ → Position → CatchUpPolicy → Type 0
Due now here p =
    (p.asked_at ≡ none)
    ⊎ ((last : Position) × (p.asked_at ≡ some last)
        × ((last.0 < here.0) ⊎ (last.1 + p.batch ≤ here.1) ⊎ Stuck))
  where
    Stuck : Type 0
    Stuck =
        (p.seen ≡ some here)
        × ((p.moved_at ≡ none) ⊎ ((at : ℕ) × (p.moved_at ≡ some at) × (at + 1000 ≤ now)))

seen-same : (o : Option Position) (here : Position) → same_position o here ≡ true → o ≡ some here
unfolding same_position
seen-same none here h = absurd (cc h)
seen-same (some (e, s)) (e', s') h =
    let (p, q) = and_split (e == e') (s == s') h in
    λ i. some ((nat_eq.beq_iff e e').0 p i, (nat_eq.beq_iff s s').0 q i)

moved-cases :
    (now : ℕ) (here : Position) (p : CatchUpPolicy)
    → ((p.seen ≡ some here) × (moved now here p ≡ p))
      ⊎ (moved now here p ≡ record p { seen = some here; moved_at = some now })
unfolding moved
moved-cases now here p = elim (Bool-cases (same_position p.seen here)) [
  | inl k ↦ inl (seen-same p.seen here k, rw k)
  | inr k ↦ inr (rw k)
]

taken_in-true :
    (here last : Position) (batch : ℕ)
    → taken_in here last batch ≡ true
    → (last.0 < here.0) ⊎ (last.1 + batch ≤ here.1)
unfolding taken_in
taken_in-true here last batch h = ground arith

within-false :
    (now : ℕ) (o : Option ℕ)
    → within now o 1000 ≡ false
    → (o ≡ none) ⊎ ((at : ℕ) × (o ≡ some at) × (at + 1000 ≤ now))
within-false now none h = inl refl
within-false now (some at) h = inr (at, refl, ground arith)

waits-some :
    (now : ℕ) (here last : Position) (p : CatchUpPolicy)
    → p.asked_at ≡ some last
    → waits now here p ≡ (not (taken_in here last p.batch) && within now p.moved_at 1000)
unfolding waits
waits-some now here last p e = rw (e, waits)

not_waiting :
    (now : ℕ) (here last : Position) (p : CatchUpPolicy)
    → p.asked_at ≡ some last
    → waits now here p ≡ false
    → (last.0 < here.0) ⊎ (last.1 + p.batch ≤ here.1) ⊎ (within now p.moved_at 1000 ≡ false)
not_waiting now here last p e h = elim (Bool-cases (taken_in here last p.batch)) [
  | inl t ↦ elim (taken_in-true here last p.batch t) [ inl k ↦ inl k | inr k ↦ inr (inl k) ]
  | inr f ↦ inr (inr (ground (arith, sym (waits-some now here last p e) ∙ h, f)))
]

pub waits-Due :
    (now : ℕ) (here : Position) (p : CatchUpPolicy) (o : Option Position)
    → p.asked_at ≡ o
    → waits now here (moved now here p) ≡ false
    → Due now here p
waits-Due now here p none e h = inl e
waits-Due now here p (some last) e h = inr (
  last,
  e,
  elim (moved-cases now here p) [
    | inl (same, q) ↦
        elim (not_waiting now here last p e (subst (λ x. waits now here x ≡ false) q h)) [
          | inl k ↦ inl k
          | inr (inl k) ↦ inr (inl k)
          | inr (inr k) ↦ inr (inr (same, within-false now p.moved_at k))
        ]
    | inr q ↦
        elim (not_waiting now here last (record p { seen = some here; moved_at = some now }) e
          (subst (λ x. waits now here x ≡ false) q h)) [
            | inl k ↦ inl k
            | inr (inl k) ↦ inr (inl k)
            | inr (inr k) ↦ absurd (ground (arith, k))
          ]
  ],
)
