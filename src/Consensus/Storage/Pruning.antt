-- ===== src/Consensus/Storage/Pruning.antt =====
-- What `DurableState.prune` forgets, and what it keeps.
use matricxon.Base.{
  ltb, sym, ◌∙◌, beq_self, ℕ, ◌≡◌, Option, none, some, leb, [], ◌∷◌, inl, inr, arith, refl, ap,
  beq-cases, if◌then◌else◌, nat_eq, ◌==◌, keep,
}
use matricxon.Base.Dict.{Dict, get, get_or}
use matricxon.Consensus.Replica.{before}
use matricxon.Consensus.Ballot.{zero_ballot}
use matricxon.Consensus.Messages.{Image}
use matricxon.Consensus.Storage.{
  EpochState, DurableState, empty_epoch, epoch_state, from_slot_on, prune_first, prune,
}

pub get-from_slot_on :
    {V : Type 0} (from k : ℕ) (d : Dict ℕ V)
    → get k (from_slot_on from d) ≡ (if leb from k then get k d else none)
unfolding get from_slot_on keep
get-from_slot_on from k [] = ground arith
get-from_slot_on from k ((j, v) ∷ d) = ground (arith, get-from_slot_on from k d)

-- The state of one epoch under the base.
abbrev cut : ℕ → ℕ → ℕ → EpochState → EpochState
cut first slot e st =
    if e == first
    then record st {
      accepted = from_slot_on slot st.accepted;
      chosen = from_slot_on slot st.chosen;
    }
    else st

get-prune_first :
    (first slot e : ℕ) (d : Dict ℕ EpochState)
    → get e (prune_first first slot d)
      ≡ elim (get e d) [ none ↦ none | some st ↦ some (cut first slot e st) ]
unfolding get prune_first
get-prune_first first slot e [] = refl
get-prune_first first slot e ((j, st) ∷ d) = elim (beq-cases j e) [
  | inl p ↦ rw (p, beq_self e) refl
  | inr q ↦ rw (q, get) (get-prune_first first slot e d)
]

opened : Option EpochState → EpochState
opened none = empty_epoch
opened (some st) = st

opened-eq : (o : Option EpochState) → (elim o [ none ↦ empty_epoch | some st ↦ st ]) ≡ opened o
unfolding opened
opened-eq none = refl
opened-eq (some st) = refl

cut-chosen :
    (b : Image) (e k : ℕ) (o : Option EpochState)
    → get k
        (opened (elim (if leb b.epoch e then o else none) [
          | none ↦ none
          | some st ↦ some (cut b.epoch b.slot e st)
        ])).chosen
      ≡ (if before e k b.epoch b.slot then none else get k (opened o).chosen)
unfolding opened get
cut-chosen b e k none = ground arith
cut-chosen b e k (some st) = ground (arith, get-from_slot_on b.slot k st.chosen)

cut-accepted :
    (b : Image) (e k : ℕ) (o : Option EpochState)
    → get k
        (opened (elim (if leb b.epoch e then o else none) [
          | none ↦ none
          | some st ↦ some (cut b.epoch b.slot e st)
        ])).accepted
      ≡ (if before e k b.epoch b.slot then none else get k (opened o).accepted)
unfolding opened get
cut-accepted b e k none = ground arith
cut-accepted b e k (some st) = ground (arith, get-from_slot_on b.slot k st.accepted)

epochs-prune :
    (d : DurableState) (b : Image)
    → d.snapshot ≡ some b
    → (prune d).epochs ≡ prune_first b.epoch b.slot (from_slot_on b.epoch d.epochs)
unfolding prune
epochs-prune d b h = rw (h, prune)

epoch_state-prune :
    (d : DurableState) (b : Image) (e : ℕ)
    → d.snapshot ≡ some b
    → epoch_state e (prune d)
      ≡ opened (elim (if leb b.epoch e then get e d.epochs else none) [
        | none ↦ none
        | some st ↦ some (cut b.epoch b.slot e st)
      ])
unfolding epoch_state prune
epoch_state-prune d b e h =
    ap (get_or e empty_epoch) (epochs-prune d b h)
    ∙ opened-eq (get e (prune_first b.epoch b.slot (from_slot_on b.epoch d.epochs)))
    ∙ ap opened (
        get-prune_first b.epoch b.slot e (from_slot_on b.epoch d.epochs)
        ∙ ap
            (λ (o : Option EpochState). elim o [
              | none ↦ none
              | some st ↦ some (cut b.epoch b.slot e st)
            ])
            (get-from_slot_on b.epoch e d.epochs))

cut-promised :
    (b : Image) (e : ℕ) (o : Option EpochState)
    → (opened (elim (if leb b.epoch e then o else none) [
      | none ↦ none
      | some st ↦ some (cut b.epoch b.slot e st)
    ])).promised
      ≡ (if ltb e b.epoch then zero_ballot else (opened o).promised)
unfolding opened
cut-promised b e none = ground arith
cut-promised b e (some st) = ground arith

promised-prune :
    (d : DurableState) (b : Image) (e : ℕ)
    → d.snapshot ≡ some b
    → (epoch_state e (prune d)).promised
      ≡ (if ltb e b.epoch then zero_ballot else (epoch_state e d).promised)
unfolding epoch_state
promised-prune d b e h =
    ap (λ (st : EpochState). st.promised) (epoch_state-prune d b e h)
    ∙ cut-promised b e (get e d.epochs)
    ∙ ap (λ (st : EpochState). if ltb e b.epoch then zero_ballot else st.promised)
        (sym (opened-eq (get e d.epochs)))

genesis-prune : (d : DurableState) (b : Image) → d.snapshot ≡ some b → (prune d).genesis ≡ d.genesis
unfolding prune
genesis-prune d b h = rw (h, prune)

snapshot-prune :
    (d : DurableState) (b : Image) → d.snapshot ≡ some b → (prune d).snapshot ≡ d.snapshot
unfolding prune
snapshot-prune d b h = rw (h, prune) h

-- Pruning to a snapshot forgets exactly what the epochs accepted and chose before the position of
-- the snapshot, and what the epochs before that of the snapshot promised: every other entry, the
-- promise of every other epoch, the first voters and the snapshot itself stay.
pub get-prune :
    (d : DurableState) (b : Image) (e k : ℕ)
    → d.snapshot ≡ some b
    → (get k (epoch_state e (prune d)).chosen
        ≡ (if before e k b.epoch b.slot then none else get k (epoch_state e d).chosen))
      × (get k (epoch_state e (prune d)).accepted
          ≡ (if before e k b.epoch b.slot then none else get k (epoch_state e d).accepted))
      × ((epoch_state e (prune d)).promised
          ≡ (if ltb e b.epoch then zero_ballot else (epoch_state e d).promised))
      × ((prune d).genesis ≡ d.genesis)
      × ((prune d).snapshot ≡ d.snapshot)
unfolding epoch_state
get-prune d b e k h = (
  ap (λ (st : EpochState). get k st.chosen) (epoch_state-prune d b e h)
      ∙ cut-chosen b e k (get e d.epochs)
      ∙ ap (λ (st : EpochState). if before e k b.epoch b.slot then none else get k st.chosen)
          (sym (opened-eq (get e d.epochs))),
  ap (λ (st : EpochState). get k st.accepted) (epoch_state-prune d b e h)
      ∙ cut-accepted b e k (get e d.epochs)
      ∙ ap (λ (st : EpochState). if before e k b.epoch b.slot then none else get k st.accepted)
          (sym (opened-eq (get e d.epochs))),
  promised-prune d b e h,
  genesis-prune d b h,
  snapshot-prune d b h,
)
