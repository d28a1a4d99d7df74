-- ===== src/Consensus/Protocol/Acceptors.antt =====
-- The steps of the acceptors: a campaign's own promise, an answer to a Prepare, one to an Accept.
use matricxon.Base.{
  ℕ, ◌≤◌, ◌≡◌, ◌⊎◌, inl, inr, String, List, [], ◌∷◌, false, In, nat_eq, string_eq, arith, sym, ap,
  ◌∙◌, subst, refl, In-append_cases,
}
use matricxon.Consensus.Ballot.{Ballot, ballot_eq}
use matricxon.Consensus.Ballot.Order.{Lt, Le, le_refl, le_trans, le_cases}
use matricxon.Consensus.Command.{Command}
use matricxon.Consensus.Messages.{
  Nack, Prepare, Promise, Accept, Message, prepare, promise, accept, nack, commit,
}
use matricxon.Consensus.Acceptor.{Acceptor, raise_promise, report}
use matricxon.Consensus.Acceptor.Reports.{In-report, report-In}
use matricxon.Consensus.Acceptor.Replies.{
  granted, promised-raise_promise, accepted-raise_promise, raise_promise-SameIdentity,
}
use matricxon.Consensus.Proposer.Best.{Covers}
use matricxon.Consensus.Protocol.{Seat, System, at_node}
use matricxon.Consensus.Protocol.Facts.{
  promised, position, Proposed, Voted, has_vote, Grows, Proposed-later,
}
use matricxon.Consensus.Protocol.Safe.{PromiseOk}
use matricxon.Consensus.Protocol.Invariant.{
  AcceptorOk, StageOk, Inv, Quiet, Allowed, promised_here, has_vote-append, at_node-Grows,
  at_node-Inv, StageOk-later,
}
use matricxon.Consensus.Protocol.Seats.{moved-Allowed, moved-Grows, moved-AcceptorOk}

-- A change that sends no Accept proposes nothing.
pub no_accepts-Quiet :
    (s : System) (n : String) (x : Acceptor) (seat : Seat) (new : List Message)
    → ((m : Accept) → In (accept m) new → ⊥)
    → (b : Ballot) → Quiet s (at_node n x seat new s) b
no_accepts-Quiet s n x seat new none_new b i c (m, k, p, q, r) =
    elim (In-append_cases (accept m) new s.sent k) [
      | inl h ↦ absurd (none_new m h)
      | inr old ↦ (m, old, p, q, r)
    ]

-- A refusal changes nothing.
pub refuse-Inv :
    (voters : List String) (s : System) (n : String) (r : Nack)
    → Inv voters s
    → Inv voters (at_node n (s.acceptor n) (s.seat n) (nack r ∷ []) s)
refuse-Inv voters s n r inv =
    at_node-Inv voters s n (s.acceptor n) (s.seat n) new
      (moved-Allowed voters s n (s.seat n) new inv (λ j b i. refl) (omega arith)
        (inv.acceptors n).heard)
      inv
      (record {
        acceptor =
            moved-AcceptorOk voters s n (s.seat n) new inv (λ j b i. refl) (omega arith)
              (inv.acceptors n).heard;
        stage =
            StageOk-later voters
              (moved-Grows voters s n (s.seat n) new inv (λ j b i. refl) (omega arith)
                (inv.acceptors n).heard)
              n (s.seat n).stage
              (λ b h.
                no_accepts-Quiet s n (s.acceptor n) (s.seat n) new (λ m k. other (accept m) k cc) b)
              (inv.stages n);
        promises = λ m k. absurd (other (promise m) k cc);
        requests = λ m k. absurd (other (prepare m) k cc);
        proposals = λ m k. absurd (other (accept m) k cc);
        unique = λ m c k. absurd (other (accept m) k cc);
        commits = λ m k. absurd (other (commit m) k cc);
      })
  where
    new : List Message
    new = nack r ∷ []

    other : (x : Message) → In x new → (x ≡ nack r → ⊥) → ⊥
    other x (inl p) f = f p
    other x (inr k) f = k

-- A Prepare is granted, and the node may send Prepares of its own with the promise.
module _ (voters : List String) (s : System) (n : String) (m : Prepare) (seat : Seat)
    (rest : List Message) (inv : Inv voters s) (member : In n voters)
    (allowed : Le (promised s n) m.ballot) (asked : m.from_slot ≤ position s m.ballot.node)
    (pos : position s n ≤ seat.next_slot) (heard : m.ballot.round ≤ seat.round_seen)
    (silent : (j : String) (b : Ballot) (i : ℕ) → has_vote rest j b i ≡ false)
    (only : (x : Message) → In x rest → (x ≡ prepare m)) where
  abbrev before : Acceptor
  before = s.acceptor n

  abbrev after : Acceptor
  after = raise_promise m.ballot before

  abbrev answer : Message
  answer = granted m before

  abbrev then_on : System
  then_on = at_node n after seat (answer ∷ rest) s

  now_promised : after.state.promised ≡ m.ballot
  now_promised = promised-raise_promise m.ballot before allowed

  grant-Allowed : Allowed s n after seat (answer ∷ rest)
  grant-Allowed = record {
    le = subst (Le (promised s n)) (sym now_promised) allowed;
    pos = pos;
    votes = λ j b i h. absurd (cc (silent j b i));
  }

  grant-Grows : Grows s then_on
  grant-Grows = at_node-Grows s n after seat (answer ∷ rest) grant-Allowed

  now_promised_there : promised then_on n ≡ m.ballot
  now_promised_there = sym (promised_here s n after seat (answer ∷ rest)) ∙ now_promised

  old_vote : (b : Ballot) (i : ℕ) → Voted then_on n b i → Voted s n b i
  old_vote b i v = ground (arith, has_vote-append (answer ∷ rest) s.sent n b i, silent n b i)

  later_promise : (b : Ballot) → Le b (promised s n) → Le b after.state.promised
  later_promise b le =
      subst (Le b) (sym now_promised) (le_trans b (promised s n) m.ballot le allowed)

  grant-AcceptorOk : AcceptorOk voters then_on n after seat
  grant-AcceptorOk =
      let ok = inv.acceptors n in
      let kept = accepted-raise_promise m.ballot before in
      record {
        id = (raise_promise-SameIdentity m.ballot before).id ∙ ok.id;
        heard = omega (arith, ap (λ (b : Ballot). b.round) now_promised);
        backed = λ i v k.
            let (p, le) = ok.backed i v (subst (In (i, v)) kept k) in
            (Proposed-later grant-Grows v.0 i v.1 p, later_promise v.0 le);
        votes = λ b i v.
            let (mem, le, cov) = ok.votes b i (old_vote b i v) in
            (mem, later_promise b le, subst (λ d. Covers d i b) (sym kept) cov);
      }

  abbrev grant : Promise
  grant = record {
    sender = before.id;
    epoch = before.epoch;
    ballot = m.ballot;
    accepted = report m.from_slot before.state.accepted;
  }

  grant_reported :
      (i : ℕ) (b : Ballot) (c : Command)
      → In (i, b, c) grant.accepted
      → Proposed then_on b i c × (Lt b m.ballot ⊎ Proposed then_on m.ballot i c)
  grant_reported i b c k =
      let (p, le) =
        (inv.acceptors n).backed i (b, c) (report-In m.from_slot before.state.accepted i b c k) in
      let there : Proposed then_on b i c = Proposed-later grant-Grows b i c p in
      (
        there,
        elim (le_cases b m.ballot (le_trans b (promised s n) m.ballot le allowed)) [
          | inl l ↦ inl l
          | inr q ↦ inr (subst (λ x. Proposed then_on x i c) q there)
        ],
      )

  grant_complete :
      (i : ℕ) (b : Ballot)
      → position then_on m.ballot.node ≤ i
      → Voted then_on n b i
      → (b' : Ballot) × (c : Command) × In (i, b', c) grant.accepted × Le b b'
  grant_complete i b l v =
      let (mem, le, (w, there, high)) = (inv.acceptors n).votes b i (old_vote b i v) in
      (
        w.0,
        w.1,
        In-report m.from_slot before.state.accepted i w
            (omega (arith, asked, grant-Grows.positions m.ballot.node)) there,
        high,
      )

  grant-PromiseOk : PromiseOk voters then_on grant
  grant-PromiseOk =
      let own = (inv.acceptors n).id in
      record {
        member = subst (λ x. In x voters) (sym own) member;
        bound =
            subst (λ x. Le m.ballot (promised then_on x)) (sym own)
              (subst (Le m.ballot) (sym now_promised_there) (le_refl m.ballot));
        reported = grant_reported;
        complete = λ i b l v h. grant_complete i b l (subst (λ x. Voted then_on x b i) own v);
      }

  sent_by : (x : Message) → In x (answer ∷ rest) → (x ≡ answer) ⊎ (x ≡ prepare m)
  sent_by x (inl p) = inl p
  sent_by x (inr k) = inr (only x k)

  grant-Quiet : (b : Ballot) → Quiet s then_on b
  grant-Quiet b =
      no_accepts-Quiet s n after seat (answer ∷ rest)
        (λ a k. elim (sent_by (accept a) k) [ inl p ↦ cc | inr p ↦ cc ]) b

  pub grant-Inv :
      (Grows s then_on
        → ((b : Ballot) → Quiet s then_on b)
        → promised then_on n ≡ m.ballot
        → StageOk voters then_on n seat.stage)
      → Inv voters then_on
  grant-Inv stage = at_node-Inv voters s n after seat (answer ∷ rest) grant-Allowed inv (record {
    acceptor = grant-AcceptorOk;
    stage = stage grant-Grows grant-Quiet now_promised_there;
    promises = λ x k. elim (sent_by (promise x) k) [
      | inl p ↦ subst (PromiseOk voters then_on) (sym (of_promise p)) grant-PromiseOk
      | inr p ↦ absurd (cc)
    ];
    requests = λ x k. elim (sent_by (prepare x) k) [
      | inl p ↦ absurd (cc)
      | inr p ↦
          let q : x ≡ m = of_prepare p in
          subst (λ (y : Prepare). y.from_slot ≤ position then_on y.ballot.node) (sym q)
            (omega (arith, asked, grant-Grows.positions m.ballot.node))
    ];
    proposals = λ x k. elim (sent_by (accept x) k) [ inl p ↦ absurd (cc) | inr p ↦ absurd (cc) ];
    unique = λ x c k. elim (sent_by (accept x) k) [ inl p ↦ absurd (cc) | inr p ↦ absurd (cc) ];
    commits = λ x k. elim (sent_by (commit x) k) [ inl p ↦ absurd (cc) | inr p ↦ absurd (cc) ];
  })
    where
      of_promise : {a b : Promise} → promise a ≡ promise b → a ≡ b
      of_promise h = cc

      of_prepare : {a b : Prepare} → prepare a ≡ prepare b → a ≡ b
      of_prepare h = cc
