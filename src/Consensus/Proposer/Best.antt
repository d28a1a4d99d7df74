-- ===== src/Consensus/Proposer/Best.antt =====
-- The first loop of `Campaign.plan`: for each slot the entry of the highest ballot, among all that
-- the promises report.
use matricxon.Base.{of_some}
use matricxon.Base.{
  ℕ, ◌≡◌, ◌⊎◌, inl, inr, String, List, [], ◌∷◌, some, true, false, arith, refl, In, nat_eq,
  Option-cases, Bool-cases, beq-cases, sym, subst, ap, ◌∙◌,
}
use matricxon.Base.Dict.{Dict, get, put, get-put, get-put_self}
use matricxon.Consensus.Ballot.{Ballot}
use matricxon.Consensus.Ballot.Order.{Le, le_refl, le_trans, le_of_lt}
use matricxon.Consensus.Command.{Command}
use matricxon.Consensus.Messages.{Entry}
use matricxon.Consensus.Proposer.{Campaign, replaces, better, best_entries, best_promises, best_of}

abbrev Best : Type 0
Best = Dict ℕ (Ballot × Command)

-- `best` has an entry for the slot at this ballot or a higher one.
abbrev pub Covers : Best → ℕ → Ballot → Type 0
Covers best i b = (v : Ballot × Command) × (get i best ≡ some v) × Le b v.0

better-put :
    (best : Best) (i : ℕ) (b : Ballot) (c : Command)
    → replaces (get i best) b ≡ true
    → better best (i, b, c) ≡ put i (b, c) best
unfolding better
better-put best i b c h = rw h

better_keep :
    (best : Best) (i : ℕ) (b : Ballot) (c : Command)
    → replaces (get i best) b ≡ false
    → better best (i, b, c) ≡ best
unfolding better
better_keep best i b c h = rw h

not-replaces :
    (best : Best) (i : ℕ) (b : Ballot) → replaces (get i best) b ≡ false → Covers best i b
unfolding replaces
not-replaces best i b h = elim (Option-cases (get i best)) [
  | inl e ↦ absurd (ground (arith, e))
  | inr (old, e) ↦ (old, e, ground (arith, e))
]

replaces-le :
    (best : Best) (i : ℕ) (b : Ballot) (v : Ballot × Command)
    → get i best ≡ some v
    → replaces (get i best) b ≡ true
    → Le v.0 b
unfolding replaces
replaces-le best i b v e h = le_of_lt v.0 b (ground (arith, e))

-- One entry: it is covered afterwards, what was covered stays so, and nothing else comes in.
better-Covers_new :
    (best : Best) (i : ℕ) (b : Ballot) (c : Command) → Covers (better best (i, b, c)) i b
better-Covers_new best i b c = elim (Bool-cases (replaces (get i best) b)) [
  | inl h ↦ rw (better-put best i b c h) ((b, c), get-put_self i (b, c) best, le_refl b)
  | inr h ↦ rw (better_keep best i b c h) (not-replaces best i b h)
]

put-Covers :
    (best : Best) (j i : ℕ) (b' b : Ballot) (c' : Command)
    → replaces (get j best) b' ≡ true
    → Covers best i b
    → Covers (put j (b', c') best) i b
put-Covers best j i b' b c' r (v, h, l) = elim (beq-cases j i) [
  | inl p ↦ (
    (b', c'),
    subst (λ k. get k (put j (b', c') best) ≡ some (b', c')) p (get-put_self j (b', c') best),
    le_trans b v.0 b' l (replaces-le best j b' v (subst (λ k. get k best ≡ some v) (sym p) h) r),
  )
  | inr q ↦ (v, ground (arith, get-put j i (b', c') best), l)
]

better-Covers :
    (best : Best) (e : Entry) (i : ℕ) (b : Ballot) → Covers best i b → Covers (better best e) i b
better-Covers best (j, b', c') i b w = elim (Bool-cases (replaces (get j best) b')) [
  | inl h ↦ rw (better-put best j b' c' h) (put-Covers best j i b' b c' h w)
  | inr h ↦ rw (better_keep best j b' c' h) w
]

Entry-path :
    {i j : ℕ} {v w : Ballot × Command} → i ≡ j → v ≡ w → ◌≡◌ {A = Entry} (i, v.0, v.1) (j, w.0, w.1)
Entry-path p q = λ k. (p k, (q k).0, (q k).1)

put_origin :
    (best : Best) (j i : ℕ) (b : Ballot) (c : Command) (v : Ballot × Command)
    → get i (put j (b, c) best) ≡ some v
    → (get i best ≡ some v) ⊎ (◌≡◌ {A = Entry} (i, v.0, v.1) (j, b, c))
put_origin best j i b c v h = elim (beq-cases j i) [
  | inl p ↦ inr (
      Entry-path (sym p) (
        of_some (
          sym h
          ∙ subst (λ k. get k (put j (b, c) best) ≡ some (b, c)) p (get-put_self j (b, c) best))))
  | inr q ↦ inl (ground (arith, get-put j i (b, c) best))
]

better_origin :
    (best : Best) (e : Entry) (i : ℕ) (v : Ballot × Command)
    → get i (better best e) ≡ some v
    → (get i best ≡ some v) ⊎ (◌≡◌ {A = Entry} (i, v.0, v.1) e)
better_origin best (j, b, c) i v h = elim (Bool-cases (replaces (get j best) b)) [
  | inl r ↦ put_origin best j i b c v (rw (better-put best j b c r) at h)
  | inr r ↦ inl (rw (better_keep best j b c r) at h)
]

-- All entries of one promise.
entries-Covers :
    (best : Best) (es : List Entry) (i : ℕ) (b : Ballot)
    → Covers best i b
    → Covers (best_entries best es) i b
unfolding best_entries
entries-Covers best [] i b w = w
entries-Covers best (e ∷ es) i b w =
    entries-Covers (better best e) es i b (better-Covers best e i b w)

entries-Covers_new :
    (best : Best) (es : List Entry) (i : ℕ) (b : Ballot) (c : Command)
    → In (i, b, c) es
    → Covers (best_entries best es) i b
unfolding best_entries
entries-Covers_new best [] i b c m = absurd m
entries-Covers_new best (e ∷ es) i b c (inl p) =
    entries-Covers (better best e) es i b
      (subst (λ x. Covers (better best x) i b) p (better-Covers_new best i b c))
entries-Covers_new best (e ∷ es) i b c (inr m) = entries-Covers_new (better best e) es i b c m

entries_origin :
    (best : Best) (es : List Entry) (i : ℕ) (v : Ballot × Command)
    → get i (best_entries best es) ≡ some v
    → (get i best ≡ some v) ⊎ In (i, v.0, v.1) es
unfolding best_entries
entries_origin best [] i v h = inl h
entries_origin best (e ∷ es) i v h = elim (entries_origin (better best e) es i v h) [
  | inl k ↦ elim (better_origin best e i v k) [ inl o ↦ inl o | inr p ↦ inr (inl p) ]
  | inr m ↦ inr (inr m)
]

-- All promises.
promises-Covers :
    (best : Best) (ps : Dict String (List Entry)) (i : ℕ) (b : Ballot)
    → Covers best i b
    → Covers (best_promises best ps) i b
unfolding best_promises
promises-Covers best [] i b w = w
promises-Covers best ((a, es) ∷ ps) i b w =
    promises-Covers (best_entries best es) ps i b (entries-Covers best es i b w)

promises-Covers_new :
    (best : Best) (ps : Dict String (List Entry)) (a : String) (es : List Entry) (i : ℕ)
    (b : Ballot) (c : Command)
    → In (a, es) ps
    → In (i, b, c) es
    → Covers (best_promises best ps) i b
unfolding best_promises
promises-Covers_new best [] a es i b c m k = absurd m
promises-Covers_new best ((a', es') ∷ ps) a es i b c (inl p) k =
    promises-Covers (best_entries best es') ps i b (
      entries-Covers_new best es' i b c
        (subst (In (i, b, c)) (ap (λ (x : String × List Entry). x.1) p) k))
promises-Covers_new best ((a', es') ∷ ps) a es i b c (inr m) k =
    promises-Covers_new (best_entries best es') ps a es i b c m k

promises_origin :
    (best : Best) (ps : Dict String (List Entry)) (i : ℕ) (v : Ballot × Command)
    → get i (best_promises best ps) ≡ some v
    → (get i best ≡ some v)
      ⊎ ((a : String) × (es : List Entry) × In (a, es) ps × In (i, v.0, v.1) es)
unfolding best_promises
promises_origin best [] i v h = inl h
promises_origin best ((a, es) ∷ ps) i v h = elim (promises_origin (best_entries best es) ps i v h) [
  | inl k ↦ elim (entries_origin best es i v k) [ inl o ↦ inl o | inr m ↦ inr (a, es, inl refl, m) ]
  | inr (a', es', m, k) ↦ inr (a', es', inr m, k)
]

-- Whatever a promise of the campaign reports for a slot, the plan's entry for that slot has the
-- same ballot or a higher one.
pub best_of-Covers :
    (c : Campaign) (a : String) (es : List Entry) (i : ℕ) (b : Ballot) (command : Command)
    → In (a, es) c.promises
    → In (i, b, command) es
    → Covers (best_of c) i b
unfolding best_of
best_of-Covers c = promises-Covers_new [] c.promises

-- The plan's entry for a slot is one that some promise of the campaign reports.
pub best_of_origin :
    (c : Campaign) (i : ℕ) (v : Ballot × Command)
    → get i (best_of c) ≡ some v
    → (a : String) × (es : List Entry) × In (a, es) c.promises × In (i, v.0, v.1) es
unfolding best_of get
best_of_origin c i v h = elim (promises_origin [] c.promises i v h) [
  | inl k ↦ absurd (cc)
  | inr w ↦ w
]
