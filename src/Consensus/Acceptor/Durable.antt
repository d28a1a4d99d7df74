-- ===== src/Consensus/Acceptor/Durable.antt =====
-- What an acceptor has saved when it answers: the lines that make the store's state its own.
use matricxon.Base.{Option, none, some, subst}
use matricxon.Consensus.Acceptor.Replies.{raise_promise-SameIdentity}
use matricxon.Consensus.Acceptor.{Command}
use matricxon.Base.{
  ◌≡◌, inl, inr, List, [], ◌∷◌, ◌++◌, Bool-cases, ltb, ℕ, ap, sym, refl, ◌∙◌, nat_eq,
}
use mathlib.Core.List.{append-nil, append_assoc}
use matricxon.Base.Dict.{get, put, get-put_self}
use matricxon.Consensus.Ballot.{Ballot, ballot_ltb}
use matricxon.Consensus.Messages.{Prepare, Accept}
use matricxon.Consensus.Storage.{
  empty_epoch, EpochState, DurableState, Line, epoch_state, set_epoch, write, replay,
}
use matricxon.Consensus.Acceptor.{
  Acceptor, raise_promise, record_entry, same_entry, on_prepare, on_accept,
}

pub epoch_state-set_epoch :
    (e : ℕ) (s : EpochState) (d : DurableState) → epoch_state e (set_epoch e s d) ≡ s
unfolding epoch_state set_epoch
epoch_state-set_epoch e s d =
    ap (λ (o : Option EpochState). elim o [ none ↦ empty_epoch | some w ↦ w ])
      (get-put_self e s d.epochs)

-- The acceptor saved lines after those of before, and a store whose state was the acceptor's is
-- again the acceptor's once it has taken these lines.
abbrev pub Saved : Acceptor → Acceptor → Type 0
Saved a a' =
    (lines : List Line) × (a'.saved ≡ a.saved ++ lines)
    × ((d : DurableState)
        → epoch_state a.epoch d ≡ a.state
        → epoch_state a.epoch (replay d lines) ≡ a'.state)

Saved-none : (a : Acceptor) → Saved a a
unfolding replay
Saved-none a = ([], sym (append-nil a.saved), λ d h. h)

raise_promise-Saved : (b : Ballot) (a : Acceptor) → Saved a (raise_promise b a)
unfolding raise_promise replay write
raise_promise-Saved b a = elim (Bool-cases (ballot_ltb a.state.promised b)) [
  | inl h ↦ rw h (
    Line.p a.epoch b ∷ [],
    refl,
    λ d k. epoch_state-set_epoch a.epoch _ d ∙ ap (λ (s : EpochState). record s { promised = b }) k,
  )
  | inr h ↦ rw h (Saved-none a)
]

replay-append :
    (d : DurableState) (xs ys : List Line) → replay d (xs ++ ys) ≡ replay (replay d xs) ys
unfolding replay
replay-append d [] ys = refl
replay-append d (x ∷ xs) ys = replay-append (write d x) xs ys

Saved-then : (a b c : Acceptor) → a.epoch ≡ b.epoch → Saved a b → Saved b c → Saved a c
Saved-then a b c same (xs, p, f) (ys, q, g) = (
  xs ++ ys,
  q ∙ ap (λ zs. zs ++ ys) p ∙ append_assoc a.saved xs ys,
  λ d h.
      ap (epoch_state a.epoch) (replay-append d xs ys)
      ∙ subst (λ e. epoch_state e (replay (replay d xs) ys) ≡ c.state) (sym same)
          (g (replay d xs) (subst (λ e. epoch_state e (replay d xs) ≡ b.state) same (f d h))),
)

record_entry-Saved :
    (slot : ℕ) (b : Ballot) (c : Command) (a : Acceptor) → Saved a (record_entry slot b c a)
unfolding record_entry replay write
record_entry-Saved slot b c a = (
  Line.a a.epoch slot b c ∷ [],
  refl,
  λ d k.
      epoch_state-set_epoch a.epoch _ d
      ∙ ap (λ (s : EpochState). record s { accepted = put slot (b, c) s.accepted }) k,
)

-- The lines that an acceptor saves while it answers a Prepare bring a store that held its state to
-- the state that it has afterwards, and the lines of before stay.
pub on_prepare-Saved : (m : Prepare) (a : Acceptor) → Saved a (on_prepare m a).0
unfolding on_prepare
on_prepare-Saved m a = elim (Bool-cases (ballot_ltb m.ballot a.state.promised)) [
  | inl h ↦ rw h (Saved-none a)
  | inr h ↦ rw h (raise_promise-Saved m.ballot a)
]

-- The lines that an acceptor saves while it answers an Accept bring a store that held its state to
-- the state that it has afterwards, and the lines of before stay.
pub on_accept-Saved : (m : Accept) (a : Acceptor) → Saved a (on_accept m a).0
unfolding on_accept
on_accept-Saved m a = elim (Bool-cases (ltb m.slot a.floor)) [
  | inl f ↦ rw f (Saved-none a)
  | inr f ↦ elim (Bool-cases (ballot_ltb m.ballot a.state.promised)) [
    | inl h ↦ rw (f, h) (Saved-none a)
    | inr h ↦ elim (Bool-cases (same_entry (get m.slot a.state.accepted) m.ballot m.command)) [
      | inl s ↦ rw (f, h, s) (raise_promise-Saved m.ballot a)
      | inr s ↦
          rw (f, h, s)
            (Saved-then a (raise_promise m.ballot a)
              (record_entry m.slot m.ballot m.command (raise_promise m.ballot a))
              (sym (raise_promise-SameIdentity m.ballot a).epoch) (raise_promise-Saved m.ballot a)
              (record_entry-Saved m.slot m.ballot m.command (raise_promise m.ballot a)))
    ]
  ]
]
