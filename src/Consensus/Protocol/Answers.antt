-- ===== src/Consensus/Protocol/Answers.antt =====
-- The steps that promise: a node campaigns, and an acceptor hears a Prepare.
use matricxon.Base.{
  ℕ, ◌+◌, ◌≡◌, inl, inr, String, List, [], ◌∷◌, In, max, nat_eq, string_eq, arith, sym, ap, subst,
  refl,
}
use matricxon.Consensus.Protocol.{
  Command, campaigning, Seat, System, at_node, majority, raised, new_ballot, new_prepare,
  after_campaign, after_prepare,
}
use matricxon.Consensus.Ballot.{Ballot}
use matricxon.Consensus.Ballot.Order.{Le, le_of_lt, not-lt_of_le, lt_of_round}
use matricxon.Consensus.Messages.{Prepare, Message, prepare}
use matricxon.Consensus.Acceptor.{Acceptor}
use matricxon.Consensus.Acceptor.Replies.{on_prepare_cases}
use matricxon.Consensus.Protocol.Facts.{promised, Proposed}
use matricxon.Consensus.Protocol.Invariant.{Inv, StageOk-later}
use matricxon.Consensus.Protocol.Acceptors.{refuse-Inv, grant-Inv}
use matricxon.Consensus.Proposer

module _ (voters : List String) (e : ℕ) (s : System) (n : String) (inv : Inv voters s)
    (member : In n voters) where
  -- Answering a Prepare keeps the invariant.
  pub after_prepare-Inv :
      (m : Prepare) → In (prepare m) s.sent → Inv voters (after_prepare voters e n m s)
  unfolding after_prepare
  after_prepare-Inv m sent = elim (on_prepare_cases m (s.acceptor n)) [
    | inl (l, p) ↦ subst outcome (sym p) (refuse-Inv voters s n _ inv)
    | inr (l, p) ↦ subst outcome (sym p) (
        grant-Inv voters s n m
          (record (s.seat n) { round_seen = max (s.seat n).round_seen m.ballot.round }) [] inv
          member l (inv.requests m sent) (omega arith) (omega arith) (λ j b i. refl)
          (λ x k. absurd k)
          (λ g quiet q. StageOk-later voters g n (s.seat n).stage (λ b h. quiet b) (inv.stages n)))
  ]
    where
      outcome : Acceptor × Message → Type 0
      outcome (a, reply) =
          Inv voters (at_node n a (raised voters e reply m.ballot.round (s.seat n)) (reply ∷ []) s)

  abbrev ballot : Ballot
  ballot = new_ballot voters e n s

  own_higher : Le (promised s n) ballot
  own_higher =
      le_of_lt (promised s n) ballot
        (lt_of_round (promised s n) ballot (omega (arith, (inv.acceptors n).heard)))

  -- A ballot that a node has just drawn is nobody's: nothing was proposed under it.
  own_fresh : (i : ℕ) (c : Command) → Proposed s ballot i c → ⊥
  own_fresh i c p = omega (arith, inv.rounds ballot i c p, (inv.acceptors n).heard)

  -- A campaign keeps the invariant.
  pub after_campaign-Inv : Inv voters (after_campaign voters e n s)
  unfolding after_campaign Proposer.new_campaign
  after_campaign-Inv = elim (on_prepare_cases (new_prepare voters e n s) (s.acceptor n)) [
    | inl (l, p) ↦ absurd (not-lt_of_le (promised s n) ballot own_higher l)
    | inr (l, p) ↦ subst outcome (sym p) (
        grant-Inv voters s n (new_prepare voters e n s) seat
          (prepare (new_prepare voters e n s) ∷ []) inv member l (omega arith) (omega arith)
          (omega arith) (λ j b i. refl) only
          (λ g quiet q. record {
            node = refl;
            round = omega (arith, ap (λ (b : Ballot). b.round) q);
            quorum = refl;
            distinct = tt;
            counted = λ a es k. absurd k;
            fresh = λ i c k. own_fresh i c (quiet ballot i c k);
          }))
  ]
    where
      seat : Seat
      seat = record (s.seat n) {
        round_seen = (s.seat n).round_seen + 1;
        stage = campaigning (Proposer.new_campaign ballot (majority voters));
      }

      outcome : Acceptor × Message → Type 0
      outcome (a, reply) =
          Inv voters (at_node n a seat (reply ∷ prepare (new_prepare voters e n s) ∷ []) s)

      only :
          (x : Message)
          → In x (prepare (new_prepare voters e n s) ∷ [])
          → x ≡ prepare (new_prepare voters e n s)
      only x (inl p) = p
      only x (inr k) = absurd k
