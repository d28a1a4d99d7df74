-- ===== src/Consensus/Acceptor/Reports.antt =====
-- What a promise reports of the entries that an acceptor holds.
use matricxon.Base.{
  subst, sym, keep, List, leb→le, Bool, ℕ, ◌≤◌, ◌≡◌, inl, inr, [], ◌∷◌, some, true, In, Bool-cases,
  nat_eq, leb, le→leb,
}
use matricxon.Base.Dict.{Dict, get, get-In}
use matricxon.Base.Sort.{sort_items, In-sort, sort-In, In-keep, keep-In}
use matricxon.Consensus.Ballot.{Ballot, ballot_eq}
use matricxon.Consensus.Command.{Command, command_eq}
use matricxon.Consensus.Acceptor.{entries, report}

In-entries :
    (d : Dict ℕ (Ballot × Command)) (i : ℕ) (v : Ballot × Command)
    → In (i, v) d
    → In (i, v.0, v.1) (entries d)
unfolding entries
In-entries [] i v m = absurd m
In-entries ((j, (b, c)) ∷ d) i v (inl p) = inl (λ k. ((p k).0, (p k).1.0, (p k).1.1))
In-entries ((j, (b, c)) ∷ d) i v (inr m) = inr (In-entries d i v m)

entries-In :
    (d : Dict ℕ (Ballot × Command)) (i : ℕ) (b : Ballot) (c : Command)
    → In (i, b, c) (entries d)
    → In (i, (b, c)) d
unfolding entries
entries-In [] i b c m = absurd m
entries-In ((j, (b', c')) ∷ d) i b c (inl p) = inl (λ k. ((p k).0, ((p k).1, (p k).2)))
entries-In ((j, (b', c')) ∷ d) i b c (inr m) = inr (entries-In d i b c m)

-- A promise reports every entry that the acceptor holds in a slot from the asked one on.
pub In-report :
    (from_slot : ℕ) (d : Dict ℕ (Ballot × Command)) (i : ℕ) (v : Ballot × Command)
    → from_slot ≤ i
    → get i d ≡ some v
    → In (i, v.0, v.1) (report from_slot d)
unfolding report
In-report from_slot d i v l h =
    In-keep (λ e. leb from_slot e.0) (i, v.0, v.1) (entries (sort_items d))
      (In-entries (sort_items d) i v (In-sort (λ p q. leb p.0 q.0) (i, v) d (get-In i v d h)))
      (le→leb from_slot i l)

-- An entry that a promise reports is one that the acceptor holds.
pub report-In :
    (from_slot : ℕ) (d : Dict ℕ (Ballot × Command)) (i : ℕ) (b : Ballot) (c : Command)
    → In (i, b, c) (report from_slot d)
    → In (i, (b, c)) d
unfolding report
report-In from_slot d i b c m =
    sort-In (λ p q. leb p.0 q.0) (i, (b, c)) d
      (entries-In (sort_items d) i b c
        (keep-In (λ e. leb from_slot e.0) (i, b, c) (entries (sort_items d)) m))

keep_holds : {A : Type 0} (p : A → Bool) (x : A) (xs : List A) → In x (keep p xs) → p x ≡ true
unfolding keep
keep_holds p x [] m = absurd m
keep_holds p x (y ∷ ys) m = elim (Bool-cases (p y)) [
  | inl h ↦
      let m' : In x (y ∷ keep p ys) = rw h at m in
      elim m' [ inl q ↦ subst (λ z. p z ≡ true) (sym q) h | inr k ↦ keep_holds p x ys k ]
  | inr h ↦ keep_holds p x ys (rw h at m)
]

-- It is in a slot from the asked one on.
pub report-from :
    (from_slot : ℕ) (d : Dict ℕ (Ballot × Command)) (i : ℕ) (b : Ballot) (c : Command)
    → In (i, b, c) (report from_slot d)
    → from_slot ≤ i
unfolding report
report-from from_slot d i b c m =
    leb→le from_slot i (keep_holds (λ e. leb from_slot e.0) (i, b, c) (entries (sort_items d)) m)
