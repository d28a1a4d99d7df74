-- ===== src/Consensus/Protocol/Votes.antt =====
-- The step that accepts a command.
use matricxon.Base.{some}
use matricxon.Base.{
  ℕ, ◌≡◌, inl, inr, String, List, [], ◌∷◌, true, In, Bool-cases, max, nat_eq, string_eq, arith, sym,
  ap, ◌∙◌, subst, refl, ◌==◌, ◌&&◌, and_split, beq-cases,
}
use mathlib.Core.Path.{subst₂}
use matricxon.Base.Dict.{get}
use matricxon.Consensus.Ballot.{Ballot, ballot_eq}
use matricxon.Consensus.Ballot.Order.{Le, le_refl, le_trans}
use matricxon.Consensus.Command.{Command}
use matricxon.Consensus.Messages.{Accept, Message, accept, promise, prepare, commit}
use matricxon.Consensus.Acceptor
use matricxon.Consensus.Acceptor.{Acceptor}
use matricxon.Consensus.Acceptor.Replies.{Took, agreement, on_accept_lem}
use matricxon.Consensus.Proposer.Best.{Covers}
use matricxon.Consensus.Protocol.{Seat, System, at_node, raised, after_accept}
use matricxon.Consensus.Protocol.Facts.{promised, Proposed, Voted, has_vote, Grows, Proposed-later}
use matricxon.Consensus.Protocol.Invariant.{
  AcceptorOk, Inv, Allowed, has_vote-append, at_node-Grows, at_node-Inv, StageOk-later,
}
use matricxon.Consensus.Protocol.Acceptors.{refuse-Inv, no_accepts-Quiet}

module _ (voters : List String) (s : System) (n : String) (m : Accept) (x : Acceptor)
    (inv : Inv voters s) (member : In n voters) (sent : In (accept m) s.sent)
    (took : Took m (s.acceptor n) x) where
  abbrev before : Acceptor
  before = s.acceptor n

  abbrev seat : Seat
  seat = record (s.seat n) { round_seen = max (s.seat n).round_seen m.ballot.round }

  abbrev new : List Message
  new = agreement m before ∷ []

  abbrev then_on : System
  then_on = at_node n x seat new s

  -- The only new vote.
  new-vote :
      (j : String) (b : Ballot) (i : ℕ)
      → has_vote new j b i ≡ true
      → (j ≡ n) × (b ≡ m.ballot) × (i ≡ m.slot)
  new-vote j b i h =
      let h' : (before.id == j && m.ballot == b && m.slot == i) ≡ true = ground arith in
      let (h'', r) = and_split (before.id == j && m.ballot == b) (m.slot == i) h' in
      let (p, q) = and_split (before.id == j) (m.ballot == b) h'' in
      (
        sym ((string_eq.beq_iff before.id j).0 p) ∙ (inv.acceptors n).id,
        sym ((ballot_eq.beq_iff m.ballot b).0 q),
        sym ((nat_eq.beq_iff m.slot i).0 r),
      )

  vote-Allowed : Allowed s n x seat new
  vote-Allowed = record {
    le = subst (Le (promised s n)) (sym took.promised) took.allowed;
    pos = omega arith;
    votes = λ j b i h.
        let (p, q, r) = new-vote j b i h in (p, subst (Le (promised s n)) (sym q) took.allowed);
  }

  vote-Grows : Grows s then_on
  vote-Grows = at_node-Grows s n x seat new vote-Allowed

  later_promise : (b : Ballot) → Le b (promised s n) → Le b x.state.promised
  later_promise b le =
      subst (Le b) (sym took.promised) (le_trans b (promised s n) m.ballot le took.allowed)

  vote-backed :
      (i : ℕ) (v : Ballot × Command)
      → In (i, v) x.state.accepted
      → Proposed then_on v.0 i v.1 × Le v.0 x.state.promised
  vote-backed i v k = elim (took.only i v k) [
    | inl (p, q) ↦
        let there : Proposed s m.ballot m.slot m.command = (m, sent, refl, refl, refl) in
        subst₂ (λ j (w : Ballot × Command). Proposed then_on w.0 j w.1 × Le w.0 x.state.promised)
          (sym p) (sym q)
          (
            Proposed-later vote-Grows m.ballot m.slot m.command there,
            subst (Le m.ballot) (sym took.promised) (le_refl m.ballot),
          )
    | inr old ↦
        let (p, le) = (inv.acceptors n).backed i v old in
        (Proposed-later vote-Grows v.0 i v.1 p, later_promise v.0 le)
  ]

  old-Covers :
      (b : Ballot) (i : ℕ)
      → Le b (promised s n)
      → Covers before.state.accepted i b
      → Covers x.state.accepted i b
  old-Covers b i le (w, there, high) = elim (beq-cases m.slot i) [
    | inl p ↦ (
      (m.ballot, m.command),
      subst (λ j. get j x.state.accepted ≡ some (m.ballot, m.command)) p took.here,
      le_trans b (promised s n) m.ballot le took.allowed,
    )
    | inr q ↦ (w, took.there i q ∙ there, high)
  ]

  abbrev VoteOk : Ballot → ℕ → Type 0
  VoteOk b i = In n voters × Le b x.state.promised × Covers x.state.accepted i b

  vote-votes : (b : Ballot) (i : ℕ) → Voted then_on n b i → VoteOk b i
  vote-votes b i v = elim (Bool-cases (has_vote new n b i)) [
    | inl h ↦
        let (p, q, r) = new-vote n b i h in
        subst₂ VoteOk (sym q) (sym r) (
          member,
          subst (Le m.ballot) (sym took.promised) (le_refl m.ballot),
          ((m.ballot, m.command), took.here, le_refl m.ballot),
        )
    | inr h ↦
        let (mem, le, cov) =
          (inv.acceptors n).votes b i (ground (arith, has_vote-append new s.sent n b i)) in
        (mem, later_promise b le, old-Covers b i le cov)
  ]

  vote-AcceptorOk : AcceptorOk voters then_on n x seat
  vote-AcceptorOk = record {
    id = took.same.id ∙ (inv.acceptors n).id;
    heard = omega (arith, ap (λ (b : Ballot). b.round) took.promised);
    backed = vote-backed;
    votes = vote-votes;
  }

  other : (y : Message) → In y new → (y ≡ agreement m before → ⊥) → ⊥
  other y (inl p) f = f p
  other y (inr k) f = k

  vote-Inv : Inv voters then_on
  vote-Inv = at_node-Inv voters s n x seat new vote-Allowed inv (record {
    acceptor = vote-AcceptorOk;
    stage =
        StageOk-later voters vote-Grows n seat.stage
          (λ b h. no_accepts-Quiet s n x seat new (λ a k. other (accept a) k cc) b) (inv.stages n);
    promises = λ a k. absurd (other (promise a) k cc);
    requests = λ a k. absurd (other (prepare a) k cc);
    proposals = λ a k. absurd (other (accept a) k cc);
    unique = λ a c k. absurd (other (accept a) k cc);
    commits = λ a k. absurd (other (commit a) k cc);
  })

-- Answering an Accept keeps the invariant.
pub after_accept-Inv :
    (voters : List String) (e : ℕ) (s : System) (n : String) (m : Accept)
    → Inv voters s
    → In n voters
    → In (accept m) s.sent
    → Inv voters (after_accept voters e n m s)
unfolding after_accept
after_accept-Inv voters e s n m inv member sent = elim (on_accept_lem m (s.acceptor n)) [
  | inl (w, p) ↦ subst outcome (sym p) (refuse-Inv voters s n _ inv)
  | inr (f, took, p) ↦
      subst (λ reply. outcome ((Acceptor.on_accept m (s.acceptor n)).0, reply)) (sym p)
        (vote-Inv voters s n m (Acceptor.on_accept m (s.acceptor n)).0 inv member sent took)
]
  where
    outcome : Acceptor × Message → Type 0
    outcome (a, reply) =
        Inv voters (at_node n a (raised voters e reply m.ballot.round (s.seat n)) (reply ∷ []) s)
