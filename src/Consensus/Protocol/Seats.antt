-- ===== src/Consensus/Protocol/Seats.antt =====
-- The steps that leave the acceptors alone: news, a restart, stepping down, counting an answer.
use matricxon.Base.{
  In-append_cases, contains, contains→In, beq_self, ◌||◌, ℕ, ◌+◌, ◌≤◌, ◌≡◌, inl, inr, String, List,
  [], ◌∷◌, Option, none, some, true, false, In, Distinct, nat_eq, string_eq, arith, sym, subst,
  refl, length,
}
use matricxon.Base.Count.{length-le-count}
use matricxon.Consensus.Protocol.Facts.{
  Chosen-later, promised, position, Proposed, Voted, has_vote, is_vote, Chosen, Grows,
  Proposed-later,
}
use matricxon.Consensus.Proposer.{on_ack, Leadership}
use matricxon.Consensus.Ballot.{ballot_eq, Ballot}
use matricxon.Consensus.Proposer.Acks.{InFlight, Counted, on_ack-Counted}
use matricxon.Consensus.Protocol.{
  announce, idle, leading, Seat, System, at_node, after_step_down, after_restart, after_news,
  after_accepted,
}
use matricxon.Consensus.Ballot.Order.{le_refl}
use matricxon.Consensus.Command.{Command}
use matricxon.Consensus.Messages.{
  Accepted, Commit, Message, prepare, promise, accept, accepted, commit,
}
use matricxon.Consensus.Acceptor.{max_round}
use matricxon.Consensus.Acceptor.Replies.{round-le-max_round}
use matricxon.Consensus.Protocol.Invariant.{
  has_vote-append, AcceptorOk, LeadOk, StageOk, Inv, Allowed, Quiet, at_node-Grows, at_node-Inv,
  StageOk-later, LeadOk-later,
}

-- A node keeps its acceptor, gets a new seat and sends messages that are no votes.
module _ (voters : List String) (s : System) (n : String) (seat : Seat) (new : List Message)
    (inv : Inv voters s) (silent : (j : String) (b : Ballot) (i : ℕ) → has_vote new j b i ≡ false)
    (pos : position s n ≤ seat.next_slot) (heard : (promised s n).round ≤ seat.round_seen) where
  abbrev moved : System
  moved = at_node n (s.acceptor n) seat new s

  pub moved-Allowed : Allowed s n (s.acceptor n) seat new
  moved-Allowed = record {
    le = le_refl (promised s n);
    pos = pos;
    votes = λ j b i h. absurd (cc (silent j b i));
  }

  pub moved-Grows : Grows s moved
  moved-Grows = at_node-Grows s n (s.acceptor n) seat new moved-Allowed

  pub moved-AcceptorOk : AcceptorOk voters moved n (s.acceptor n) seat
  moved-AcceptorOk =
      let ok = inv.acceptors n in
      record {
        id = ok.id;
        heard = heard;
        backed =
            λ i v k. let (p, le) = ok.backed i v k in (Proposed-later moved-Grows v.0 i v.1 p, le);
        votes = λ b i v. ok.votes b i (old_vote b i v);
      }
    where
      old_vote : (b : Ballot) (i : ℕ) → Voted moved n b i → Voted s n b i
      old_vote b i v = ground (arith, has_vote-append new s.sent n b i, silent n b i)

-- Nothing is sent, and the stage is a good one.
pub quiet_move :
    (voters : List String) (s : System) (n : String) (seat : Seat)
    → (inv : Inv voters s) → position s n ≤ seat.next_slot
    → (promised s n).round ≤ seat.round_seen
    → StageOk voters (at_node n (s.acceptor n) seat [] s) n seat.stage
    → Inv voters (at_node n (s.acceptor n) seat [] s)
quiet_move voters s n seat inv pos heard ok =
    at_node-Inv voters s n (s.acceptor n) seat []
      (moved-Allowed voters s n seat [] inv (λ j b i. refl) pos heard) inv
      (record {
        acceptor = moved-AcceptorOk voters s n seat [] inv (λ j b i. refl) pos heard;
        stage = ok;
        promises = λ m k. absurd k;
        requests = λ m k. absurd k;
        proposals = λ m k. absurd k;
        unique = λ m c k. absurd k;
        commits = λ m k. absurd k;
      })

module _ (voters : List String) (e : ℕ) (s : System) (n : String) (inv : Inv voters s) where
  -- Stepping down only forgets.
  pub after_step_down-Inv : Inv voters (after_step_down voters e n s)
  unfolding after_step_down
  after_step_down-Inv =
      quiet_move voters s n (record (s.seat n) { stage = idle }) inv (omega arith)
        (inv.acceptors n).heard tt

  -- So does a restart, and the acceptor's promise bounds the rounds that the node used.
  pub after_restart-Inv : Inv voters (after_restart voters e n s)
  unfolding after_restart
  after_restart-Inv =
      quiet_move voters s n
        (record (s.seat n) { round_seen = max_round (s.acceptor n); stage = idle }) inv
        (omega arith) (round-le-max_round (s.acceptor n)) tt

  pub after_news-Inv : (slots rounds : ℕ) → Inv voters (after_news voters e n slots rounds s)
  unfolding after_news
  after_news-Inv slots rounds = quiet_move voters s n seat inv (omega arith) heard (
      StageOk-later voters (moved-Grows voters s n seat [] inv (λ j b i. refl) (omega arith) heard)
        n (s.seat n).stage (λ b h i c p. p) (inv.stages n))
    where
      seat : Seat
      seat = record (s.seat n) {
        next_slot = (s.seat n).next_slot + slots;
        round_seen = (s.seat n).round_seen + rounds;
      }

      heard : (promised s n).round ≤ seat.round_seen
      heard = omega (arith, (inv.acceptors n).heard)

of_commit : {a b : Commit} → commit a ≡ commit b → a ≡ b
of_commit h = cc

has_vote-In :
    (ms : List Message) (m : Accepted)
    → In (accepted m) ms
    → has_vote ms m.sender m.ballot m.slot ≡ true
has_vote-In [] m k = absurd k
has_vote-In (x ∷ ms) m (inl p) =
    subst (λ y. (is_vote y m.sender m.ballot m.slot || has_vote ms m.sender m.ballot m.slot) ≡ true)
      p (rw (beq_self m.sender, beq_self m.ballot, beq_self m.slot))
has_vote-In (x ∷ ms) m (inr k) = ground (arith, has_vote-In ms m k)

-- An acceptance is counted for a slot in flight.
module _ (voters : List String) (e : ℕ) (s : System) (n : String) (m : Accepted) (l : Leadership)
    (inv : Inv voters s) (sent : In (accepted m) s.sent) (stage : (s.seat n).stage ≡ leading l)
    (same : m.ballot ≡ l.ballot) where
  lead_ok : LeadOk voters s n l
  lead_ok = subst (StageOk voters s n) stage (inv.stages n)

  backed_ack : In m.sender voters × Voted s m.sender l.ballot m.slot
  backed_ack =
      let v : Voted s m.sender m.ballot m.slot = has_vote-In s.sent m sent in
      (
        ((inv.acceptors m.sender).votes m.ballot m.slot v).0,
        subst (λ b. Voted s m.sender b m.slot) same v,
      )

  abbrev P : ℕ → Command → Type 0
  P i c = Proposed s l.ballot i c

  abbrev V : ℕ → String → Type 0
  V i a = In a voters × Voted s a l.ballot i

  with_inflight :
      (l' : Leadership)
      → l' ≡ record l { inflight = l'.inflight }
      → InFlight P V l'
      → LeadOk voters s n l'
  with_inflight l' same_l flights = subst (LeadOk voters s n) (sym same_l) (record {
    node = lead_ok.node;
    round = lead_ok.round;
    quorum = lead_ok.quorum;
    below = lead_ok.below;
    free = lead_ok.free;
    flight = flights;
  })

  acks-Chosen :
      (c : Command) (acks : List String)
      → P m.slot c
      → Distinct acks
      → l.quorum ≤ length acks
      → ((a : String) → In a acks → V m.slot a)
      → Chosen voters s m.slot c
  acks-Chosen c acks known distinct enough each = (
    l.ballot,
    λ a. contains a acks,
    omega (arith, lead_ok.quorum, length-le-count acks voters distinct (λ a k. (each a k).0)),
    known,
    λ a h. (each a (contains→In a acks h)).1,
  )

  abbrev announced : Command → Commit
  announced c = record { sender = n; epoch = e; slot = m.slot; command = c }

  announce-In :
      (out : Option Command) (x : Message)
      → In x (announce voters e n m.slot out)
      → (c : Command) × (out ≡ some c) × (x ≡ commit (announced c))
  announce-In none x k = absurd k
  announce-In (some c) x (inl p) = (c, refl, p)
  announce-In (some c) x (inr k) = absurd k

  announce-silent :
      (out : Option Command) (j : String) (b : Ballot) (i : ℕ)
      → has_vote (announce voters e n m.slot out) j b i ≡ false
  announce-silent none j b i = refl
  announce-silent (some c) j b i = refl

  -- The seat and the announcement, for a leadership that is good in the old system.
  module _ (l' : Leadership) (ok : LeadOk voters s n l') (out : Option Command)
      (chosen : (c : Command) → out ≡ some c → Chosen voters s m.slot c) where
    abbrev seat' : Seat
    seat' = record (s.seat n) { stage = leading l' }

    abbrev new : List Message
    new = announce voters e n m.slot out

    abbrev then_on : System
    then_on = at_node n (s.acceptor n) seat' new s

    grown : Grows s then_on
    grown =
        moved-Grows voters s n seat' new inv (announce-silent out) (omega arith)
          (inv.acceptors n).heard

    quiet : (b : Ballot) → Quiet s then_on b
    quiet b i c (a, k, p, q, r) = elim (In-append_cases (accept a) new s.sent k) [
      | inr old ↦ (a, old, p, q, r)
      | inl h ↦ let (c', o, x) = announce-In out (accept a) h in absurd (cc)
    ]

    announced-Chosen : (x : Commit) → In (commit x) new → Chosen voters then_on x.slot x.command
    announced-Chosen x k =
        let (c, o, p) = announce-In out (commit x) k in
        let q : x ≡ announced c = of_commit p in
        subst (λ (y : Commit). Chosen voters then_on y.slot y.command) (sym q)
          (Chosen-later grown voters m.slot c (chosen c o))

    counted_change : Inv voters then_on
    counted_change =
        at_node-Inv voters s n (s.acceptor n) seat' new
          (moved-Allowed voters s n seat' new inv (announce-silent out) (omega arith)
            (inv.acceptors n).heard)
          inv
          (record {
            acceptor =
                moved-AcceptorOk voters s n seat' new inv (announce-silent out) (omega arith)
                  (inv.acceptors n).heard;
            stage = LeadOk-later voters grown n l' (quiet l'.ballot) ok;
            promises = λ x k. let (c, o, p) = announce-In out (promise x) k in absurd (cc);
            requests = λ x k. let (c, o, p) = announce-In out (prepare x) k in absurd (cc);
            proposals = λ x k. let (c, o, p) = announce-In out (accept x) k in absurd (cc);
            unique = λ x c k. let (c', o, p) = announce-In out (accept x) k in absurd (cc);
            commits = announced-Chosen;
          })

  Counted-out :
      (r : Leadership × Option Command)
      → Counted P V m.slot m.sender l r
      → Inv voters (
          at_node n
            (s.acceptor n)
            (record (s.seat n) { stage = leading r.0 })
            (announce voters e n m.slot r.1)
            s)
  Counted-out (l', o) (same_l, flights, out, others, kept) =
      counted_change l' (with_inflight l' same_l flights) o λ c h.
        let (known, (acks, distinct, enough, each)) = out c h in
        acks-Chosen c acks known distinct enough each

  -- Counting an acceptance keeps the invariant; the command that it announces is chosen.
  pub after_accepted-Inv : Inv voters (after_accepted voters e n m l s)
  unfolding after_accepted
  after_accepted-Inv =
      Counted-out (on_ack m.slot m.sender l)
        (on_ack-Counted P V m.slot m.sender l lead_ok.flight backed_ack)
