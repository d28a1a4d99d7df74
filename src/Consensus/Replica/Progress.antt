-- ===== src/Consensus/Replica/Progress.antt =====
-- The loop of `advance_all` ends: each round takes one entry of the log for good.
use matricxon.Consensus.Replica.Log.{apply_next-Round, apply_next-chosen}
use matricxon.Base.{
  sym, subst, ap, Option, String, string_eq, ℕ, zero, suc, ◌+◌, ◌≤◌, ◌≡◌, ◌⊎◌, inl, inr, List, [],
  ◌∷◌, none, some, true, false, not, Bool, Option-cases, refl, nat_eq, arith, length, count_by,
  beq-cases,
}
use matricxon.Base.Dict.{Dict, get, get-In}
use matricxon.Base.Count.{count-le, count-lt}
use matricxon.Consensus.Command.{Command}
use matricxon.Consensus.Replica.{
  Replica, Fault, bad_payload, chosen_at, before, seal, apply_next, advance, advance_all,
  total_chosen, remember, skip_slot,
}

-- The entries of the log that are not before a position.
ahead : ℕ → ℕ → ℕ → ℕ × Command → Bool
ahead e slot e' p = not (before e' p.0 e slot)

remaining : ℕ → ℕ → Dict ℕ (Dict ℕ Command) → ℕ
remaining e slot [] = 0
remaining e slot ((e', d) ∷ log) = count_by (ahead e slot e') d + remaining e slot log

-- A position that is later.
Later : ℕ → ℕ → ℕ → ℕ → Type 0
Later e slot e' slot' = before e slot e' slot' ≡ true

ahead-Later :
    (e slot e' slot' k : ℕ) (p : ℕ × Command)
    → Later e slot e' slot'
    → ahead e' slot' k p ≡ true
    → ahead e slot k p ≡ true
unfolding Later ahead
ahead-Later e slot e' slot' k p h q = ground arith

remaining-le :
    (e slot e' slot' : ℕ) (log : Dict ℕ (Dict ℕ Command))
    → Later e slot e' slot'
    → remaining e' slot' log ≤ remaining e slot log
unfolding remaining
remaining-le e slot e' slot' [] h = omega arith
remaining-le e slot e' slot' ((k, d) ∷ log) h = omega (
  arith,
  count-le (ahead e' slot' k) (ahead e slot k) d (λ p. ahead-Later e slot e' slot' k p h),
  remaining-le e slot e' slot' log h,
)

passed :
    (e slot e' slot' j : ℕ) (c : Command)
    → j ≡ e
    → Later e slot e' slot'
    → ahead e' slot' j (slot, c) ≡ false
unfolding Later ahead
passed e slot e' slot' j c p h = ground arith

at_it : (e slot j : ℕ) (c : Command) → j ≡ e → ahead e slot j (slot, c) ≡ true
unfolding ahead
at_it e slot j c p = ground arith

remaining-lt :
    (e slot e' slot' : ℕ) (log : Dict ℕ (Dict ℕ Command)) (c : Command)
    → Later e slot e' slot'
    → chosen_at e slot log ≡ some c
    → remaining e' slot' log + 1 ≤ remaining e slot log
unfolding remaining chosen_at get
remaining-lt e slot e' slot' [] c h k = absurd (cc)
remaining-lt e slot e' slot' ((j, d) ∷ log) c h k = elim (beq-cases j e) [
  | inl p ↦ omega (
    arith,
    remaining-le e slot e' slot' log h,
    count-lt (ahead e' slot' j) (ahead e slot j) d (slot, c)
        (λ p. ahead-Later e slot e' slot' j p h) (get-In slot c d (ground arith))
        (passed e slot e' slot' j c p h) (at_it e slot j c p),
  )
  | inr q ↦ omega (
    arith,
    remaining-lt e slot e' slot' log c h (ground arith),
    count-le (ahead e' slot' j) (ahead e slot j) d (λ p. ahead-Later e slot e' slot' j p h),
  )
]

count-le-length : {A : Type 0} (p : A → Bool) (xs : List A) → count_by p xs ≤ length xs
count-le-length p [] = omega arith
count-le-length p (x ∷ xs) = ground (arith, count-le-length p xs)

remaining-total :
    (e slot : ℕ) (log : Dict ℕ (Dict ℕ Command)) → remaining e slot log ≤ total_chosen log
unfolding remaining total_chosen
remaining-total e slot [] = omega arith
remaining-total e slot ((j, d) ∷ log) =
    omega (arith, count-le-length (ahead e slot j) d, remaining-total e slot log)

one_on : (e slot : ℕ) → Later e slot e (slot + 1)
unfolding Later
one_on e slot = ground arith

-- A round of the loop moves the position on.
seal-Later :
    (c : Command) (e : ℕ) (members : Dict String String) (r : Replica)
    → Later r.epoch r.next_slot (seal c e members r).epoch (seal c e members r).next_slot
unfolding Later seal remember
seal-Later c e members r = ground arith

apply_next-Later :
    (c : Command) (r r' : Replica)
    → apply_next c r ≡ some r'
    → Later r.epoch r.next_slot r'.epoch r'.next_slot
unfolding remember
apply_next-Later c r r' h = elim (apply_next-Round c r r' h) [
  | inl p ↦ at_position r' (skip_slot r) p (one_on r.epoch r.next_slot)
  | inr (inl (e, members, p)) ↦ at_position r' (seal c e members r) p (seal-Later c e members r)
  | inr (inr (m, result, p)) ↦ at_position r' _ p (one_on r.epoch r.next_slot)
]
  where
    at_position :
        (x y : Replica)
        → x ≡ y
        → Later r.epoch r.next_slot y.epoch y.next_slot
        → Later r.epoch r.next_slot x.epoch x.next_slot
    at_position x y p l =
        subst (λ (z : Replica). Later r.epoch r.next_slot z.epoch z.next_slot) (sym p) l

-- The loop stands still: at a slot that is not chosen, or on a fault.
abbrev pub Stopped : Replica × Option Fault → Type 0
Stopped (r, fault) =
    ((fault ≡ none) × (chosen_at r.epoch r.next_slot r.chosen ≡ none))
    ⊎ ((fault ≡ some bad_payload)
        × ((c : Command) × (chosen_at r.epoch r.next_slot r.chosen ≡ some c)
            × (apply_next c r ≡ none)))

advance-Stopped :
    (n : ℕ) (r : Replica) → remaining r.epoch r.next_slot r.chosen + 1 ≤ n → Stopped (advance n r)
unfolding advance
advance-Stopped zero r h = absurd (omega arith)
advance-Stopped (suc n) r h = elim (Option-cases (chosen_at r.epoch r.next_slot r.chosen)) [
  | inl p ↦ rw (p, advance) (inl (refl, p))
  | inr (c, p) ↦ elim (Option-cases (apply_next c r)) [
    | inl q ↦ rw (p, advance, q) (inr (refl, (c, p, q)))
    | inr (r', q) ↦ rw (p, advance, q) (advance-Stopped n r' (fewer c r' p q))
  ]
]
  where
    fewer :
        (c : Command) (r' : Replica)
        → chosen_at r.epoch r.next_slot r.chosen ≡ some c
        → apply_next c r ≡ some r'
        → remaining r'.epoch r'.next_slot r'.chosen + 1 ≤ n
    fewer c r' p q = omega (
      arith,
      ap (remaining r'.epoch r'.next_slot) (apply_next-chosen c r r' q),
      remaining-lt r.epoch r.next_slot r'.epoch r'.next_slot r.chosen c (apply_next-Later c r r' q)
          p,
      h,
    )

-- The rounds that `advance_all` has are enough: it ends at a slot that is not chosen, or at one
-- whose command the state machine refuses.
pub advance_all-Stopped : (r : Replica) → Stopped (advance_all r)
unfolding advance_all
advance_all-Stopped r =
    advance-Stopped (suc (total_chosen r.chosen)) r
      (omega (arith, remaining-total r.epoch r.next_slot r.chosen))
