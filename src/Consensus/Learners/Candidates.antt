-- ===== src/Consensus/Learners/Candidates.antt =====
-- Which nodes may become voters.
use mathlib.Core.Path.{subst₂}
use matricxon.Base.{
  String, List, ℕ, ◌≡◌, ◌≤◌, ◌+◌, false, true, In, [], ◌∷◌, inl, inr, arith, map, Bool-cases,
  contains, string_eq, nat_eq, ◌==◌, ap, sym, refl,
}
use matricxon.Base.Sort.{sort, sort-In}
use matricxon.Consensus.Learners.{Sighting, Learners, fresh, usable, found, closer, caught_up}

-- What `caught_up` offers of a node: it does not vote, was seen lately in this epoch, has an address,
-- and lacks no more than the slack.
pub record CaughtUp (voters : List String) (e next_slot slack now : ℕ) (n : String) (a : String)
    (s : Sighting) : Type 0 where
  pub learner : contains n voters ≡ false
  pub seen_lately : now ≤ s.at + fresh
  pub same_epoch : s.epoch ≡ e
  pub addressed : (s.address == "") ≡ false
  pub close : next_slot ≤ slack + s.next_slot
  pub address : a ≡ s.address

usable-CaughtUp :
    (voters : List String) (e next_slot slack now : ℕ) (n : String) (s : Sighting)
    → usable voters e next_slot slack now n s ≡ true
    → CaughtUp voters e next_slot slack now n s.address s
unfolding usable
usable-CaughtUp voters e next_slot slack now n s h = record {
  learner = ground arith;
  seen_lately = ground arith;
  same_epoch = ground arith;
  addressed = ground arith;
  close = ground arith;
  address = refl;
}

abbrev Candidate : List String → ℕ → ℕ → ℕ → ℕ → Learners → String → String → Type 0
Candidate voters e next_slot slack now l n a =
    (s : Sighting) × In (n, s) l × CaughtUp voters e next_slot slack now n a s

found-Candidate :
    (voters : List String) (e next_slot slack now : ℕ) (l : Learners) (k : ℕ) (n a : String)
    → In (k, n, a) (found voters e next_slot slack now l)
    → Candidate voters e next_slot slack now l n a
unfolding found
found-Candidate voters e next_slot slack now [] k n a m = absurd m
found-Candidate voters e next_slot slack now ((j, s) ∷ l) k n a m =
    elim (Bool-cases (usable voters e next_slot slack now j s)) [
      | inr h ↦ later (found-Candidate voters e next_slot slack now l k n a (rw h at m))
      | inl h ↦
          let m' : In (k, n, a)
              ((s.next_slot, j, s.address) ∷ found voters e next_slot slack now l) =
            rw h at m in
          elim m' [
            | inl p ↦
                let q : n ≡ j = ap (λ (t : ℕ × String × String). t.1) p in
                let r : a ≡ s.address = ap (λ (t : ℕ × String × String). t.2) p in
                (
                  s,
                  inl (λ i. (q i, s)),
                  subst₂ (λ x y. CaughtUp voters e next_slot slack now x y s) (sym q) (sym r)
                      (usable-CaughtUp voters e next_slot slack now j s h),
                )
            | inr q ↦ later (found-Candidate voters e next_slot slack now l k n a q)
          ]
    ]
  where
    later :
        Candidate voters e next_slot slack now l n a
        → Candidate voters e next_slot slack now ((j, s) ∷ l) n a
    later (s', q, ok) = (s', inr q, ok)

pair-In :
    (xs : List (ℕ × String × String)) (n a : String)
    → In {A = String × String} (n, a) (map (λ (t : ℕ × String × String). (t.1, t.2)) xs)
    → (k : ℕ) × In {A = ℕ × String × String} (k, n, a) xs
pair-In [] n a m = absurd m
pair-In ((k, x, y) ∷ xs) n a (inl p) = (k, inl (λ i. (k, (p i).0, (p i).1)))
pair-In (x ∷ xs) n a (inr m) = let (k, q) = pair-In xs n a m in (k, inr q)

-- Every node that is offered for promotion was seen, is not a voter, and is close enough behind.
pub caught_up-CaughtUp :
    (voters : List String) (e next_slot slack now : ℕ) (l : Learners) (n a : String)
    → In (n, a) (caught_up voters e next_slot slack now l)
    → (s : Sighting) × In (n, s) l × CaughtUp voters e next_slot slack now n a s
unfolding caught_up
caught_up-CaughtUp voters e next_slot slack now l n a m =
    let (k, q) = pair-In (sort closer (found voters e next_slot slack now l)) n a m in
    found-Candidate voters e next_slot slack now l k n a (sort-In closer (k, n, a) _ q)
