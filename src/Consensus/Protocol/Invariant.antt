-- ===== src/Consensus/Protocol/Invariant.antt =====
-- The invariant of the protocol, and what one node's change must bring to keep it.
use mathlib.Core.Path.{subst₂, subst₃}
use matricxon.Base.{
  ℕ, ◌+◌, ◌≤◌, ◌≡◌, ◌⊎◌, inl, inr, String, List, [], ◌∷◌, ◌++◌, true, false, ◌||◌, In,
  In-append_cases, In-append_right, Distinct, Bool-cases, beq-cases, beq_self, string_eq, nat_eq,
  arith, sym, ap, ◌∙◌, subst, refl, ◌==◌,
}
use matricxon.Consensus.Ballot.{Ballot}
use matricxon.Consensus.Ballot.Order.{Le, le_refl, round-le}
use matricxon.Consensus.Command.{Command}
use matricxon.Consensus.Messages.{
  Prepare, Promise, Accept, Commit, Message, prepare, promise, accept, commit,
}
use matricxon.Consensus.Acceptor.{Acceptor}
use matricxon.Consensus.Proposer.{Campaign, Leadership}
use matricxon.Consensus.Proposer.Best.{Covers}
use matricxon.Consensus.Protocol.{
  Stage, idle, campaigning, leading, Seat, System, set_at, at_node, majority,
}
use matricxon.Consensus.Protocol.Facts.{
  promised, position, Proposed, Voted, has_vote, Chosen, SafeAt, Grows, Proposed-later,
  SafeAt-later, Chosen-later,
}
use matricxon.Consensus.Protocol.Safe.{PromiseOk, PromiseOk-later, CampaignOk}

-- What the votes of a node say of its acceptor.
pub record AcceptorOk (voters : List String) (s : System) (n : String) (a : Acceptor) (seat : Seat)
    : Type 0 where
  pub id : a.id ≡ n
  pub heard : a.state.promised.round ≤ seat.round_seen
  pub backed :
      (i : ℕ) (v : Ballot × Command)
      → In (i, v) a.state.accepted
      → Proposed s v.0 i v.1 × Le v.0 a.state.promised
  pub votes :
      (b : Ballot) (i : ℕ)
      → Voted s n b i
      → In n voters × Le b a.state.promised × Covers a.state.accepted i b

pub record LeadOk (voters : List String) (s : System) (n : String) (l : Leadership) : Type 0 where
  pub node : l.ballot.node ≡ n
  pub round : l.ballot.round ≤ (promised s n).round
  pub quorum : l.quorum ≡ majority voters
  pub below : (i : ℕ) (c : Command) → Proposed s l.ballot i c → i + 1 ≤ l.next_free_slot
  pub free : (i : ℕ) (c : Command) → l.next_free_slot ≤ i → SafeAt voters s l.ballot i c
  pub flight :
      (i : ℕ) (c : Command) (acks : List String)
      → In (i, (c, acks)) l.inflight
      → Proposed s l.ballot i c
        × Distinct acks
        × ((a : String) → In a acks → In a voters × Voted s a l.ballot i)

abbrev pub StageOk : List String → System → String → Stage → Type 0
StageOk voters s n idle = Unit
StageOk voters s n (campaigning c) = CampaignOk voters s n c
StageOk voters s n (leading l) = LeadOk voters s n l

pub record Inv (voters : List String) (s : System) : Type 0 where
  pub acceptors : (n : String) → AcceptorOk voters s n (s.acceptor n) (s.seat n)
  pub promises : (m : Promise) → In (promise m) s.sent → PromiseOk voters s m
  pub requests : (m : Prepare) → In (prepare m) s.sent → m.from_slot ≤ position s m.ballot.node
  pub unique : (b : Ballot) (i : ℕ) (c d : Command) → Proposed s b i c → Proposed s b i d → c ≡ d
  pub safe : (b : Ballot) (i : ℕ) (c : Command) → Proposed s b i c → SafeAt voters s b i c
  pub rounds :
      (b : Ballot) (i : ℕ) (c : Command) → Proposed s b i c → b.round ≤ (promised s b.node).round
  pub stages : (n : String) → StageOk voters s n (s.seat n).stage
  pub commits : (m : Commit) → In (commit m) s.sent → Chosen voters s m.slot m.command

-- Under the ballot nothing new is proposed.
abbrev pub Quiet : System → System → Ballot → Type 0
Quiet s t b = (i : ℕ) (c : Command) → Proposed t b i c → Proposed s b i c

module _ (voters : List String) {s t : System} (g : Grows s t) (n : String) where
  pub round_later : (b : Ballot) → b.round ≤ (promised s n).round → b.round ≤ (promised t n).round
  round_later b h = omega (arith, round-le (promised s n) (promised t n) (g.promises n))

  pub CampaignOk-later :
      (c : Campaign) → Quiet s t c.ballot → CampaignOk voters s n c → CampaignOk voters t n c
  CampaignOk-later c quiet ok = record {
    node = ok.node;
    round = round_later c.ballot ok.round;
    quorum = ok.quorum;
    distinct = ok.distinct;
    counted = λ a es k.
        let (m, sent, p, q, r) = ok.counted a es k in (m, g.sent (promise m) sent, p, q, r);
    fresh = λ i c' p. ok.fresh i c' (quiet i c' p);
  }

  pub LeadOk-later :
      (l : Leadership) → Quiet s t l.ballot → LeadOk voters s n l → LeadOk voters t n l
  LeadOk-later l quiet ok = record {
    node = ok.node;
    round = round_later l.ballot ok.round;
    quorum = ok.quorum;
    below = λ i c p. ok.below i c (quiet i c p);
    free = λ i c h. SafeAt-later g voters l.ballot i c (ok.free i c h);
    flight = λ i c acks k.
        let (p, d, each) = ok.flight i c acks k in
        (
          Proposed-later g l.ballot i c p,
          d,
          λ a h. let (m, v) = each a h in (m, g.votes a l.ballot i v),
        );
  }

  pub StageOk-later :
      (st : Stage)
      → ((b : Ballot) → b.node ≡ n → Quiet s t b)
      → StageOk voters s n st
      → StageOk voters t n st
  StageOk-later idle quiet ok = tt
  StageOk-later (campaigning c) quiet ok = CampaignOk-later c (quiet c.ballot ok.node) ok
  StageOk-later (leading l) quiet ok = LeadOk-later l (quiet l.ballot ok.node) ok

pub has_vote-append :
    (xs ys : List Message) (a : String) (b : Ballot) (i : ℕ)
    → has_vote (xs ++ ys) a b i ≡ (has_vote xs a b i || has_vote ys a b i)
has_vote-append [] ys a b i = refl
has_vote-append (x ∷ xs) ys a b i = ground (arith, has_vote-append xs ys a b i)

-- What a change at one node may bring.
pub record Allowed (s : System) (n : String) (x : Acceptor) (seat : Seat) (new : List Message)
    : Type 0 where
  pub le : Le (promised s n) x.state.promised
  pub pos : position s n ≤ seat.next_slot
  pub votes :
      (j : String) (b : Ballot) (i : ℕ) → has_vote new j b i ≡ true → (j ≡ n) × Le (promised s n) b

pub set_at_here : {A : Type 0} (n : String) (v : A) (f : String → A) → set_at n v f n ≡ v
set_at_here n v f = rw (beq_self n)

pub set_at_other :
    {A : Type 0} (n : String) (v : A) (f : String → A) (j : String)
    → (j == n) ≡ false
    → set_at n v f j ≡ f j
set_at_other n v f j h = rw h

module _ (s : System) (n : String) (x : Acceptor) (seat : Seat) (new : List Message) where
  abbrev after : System
  after = at_node n x seat new s

  pub promised_here : x.state.promised ≡ promised after n
  promised_here = ap (λ (a : Acceptor). a.state.promised) (sym (set_at_here n x s.acceptor))

  promised_grows :
      Le (promised s n) x.state.promised → (j : String) → Le (promised s j) (promised after j)
  promised_grows le j = elim (beq-cases j n) [
    | inl p ↦
        subst (λ k. Le (promised s k) (promised after k)) (sym p)
          (subst (Le (promised s n)) promised_here le)
    | inr q ↦
        subst (λ (a : Acceptor). Le (promised s j) a.state.promised)
          (sym (set_at_other n x s.acceptor j q)) (le_refl (promised s j))
  ]

  position_grows : position s n ≤ seat.next_slot → (j : String) → position s j ≤ position after j
  position_grows le j = elim (beq-cases j n) [
    | inl p ↦
        subst (λ k. position s k ≤ position after k) (sym p)
          (subst (λ (a : Seat). position s n ≤ a.next_slot) (sym (set_at_here n seat s.seat)) le)
    | inr q ↦
        subst (λ (a : Seat). position s j ≤ a.next_slot) (sym (set_at_other n seat s.seat j q))
          (omega arith)
  ]

  pub at_node-Grows : Allowed s n x seat new → Grows s after
  at_node-Grows al = record {
    sent = λ m k. In-append_right m new s.sent k;
    votes = λ a b i v. ground (arith, has_vote-append new s.sent a b i);
    promises = promised_grows al.le;
    new_votes = λ a b i v. elim (Bool-cases (has_vote new a b i)) [
      | inl h ↦ let (p, le) = al.votes a b i h in inr (subst (λ j. Le (promised s j) b) (sym p) le)
      | inr h ↦ inl (ground (arith, has_vote-append new s.sent a b i))
    ];
    positions = position_grows al.pos;
  }

-- The rest that a change must bring: its own acceptor and stage, and the facts behind each new
-- message. A proposal is new in its slot and names the node's own ballot.
pub record Brings (voters : List String) (t : System) (n : String) (x : Acceptor) (seat : Seat)
    (new : List Message) : Type 0 where
  pub acceptor : AcceptorOk voters t n x seat
  pub stage : StageOk voters t n seat.stage
  pub promises : (m : Promise) → In (promise m) new → PromiseOk voters t m
  pub requests : (m : Prepare) → In (prepare m) new → m.from_slot ≤ position t m.ballot.node
  pub proposals :
      (m : Accept)
      → In (accept m) new
      → (m.ballot.node ≡ n)
        × (m.ballot.round ≤ (promised t n).round)
        × SafeAt voters t m.ballot m.slot m.command
  pub unique :
      (m : Accept) (c : Command) → In (accept m) new → Proposed t m.ballot m.slot c → m.command ≡ c
  pub commits : (m : Commit) → In (commit m) new → Chosen voters t m.slot m.command

module _ (voters : List String) (s : System) (n : String) (x : Acceptor) (seat : Seat)
    (new : List Message) (al : Allowed s n x seat new) (inv : Inv voters s)
    (br : Brings voters (at_node n x seat new s) n x seat new) where
  abbrev now : System
  now = at_node n x seat new s

  g : Grows s now
  g = at_node-Grows s n x seat new al

  -- A proposal is an old one, or one that the change sends.
  proposal-cases :
      (b : Ballot) (i : ℕ) (c : Command)
      → Proposed now b i c
      → Proposed s b i c
        ⊎ ((m : Accept) × In (accept m) new × (m.ballot ≡ b) × (m.slot ≡ i) × (m.command ≡ c))
  proposal-cases b i c (m, k, p, q, r) = elim (In-append_cases (accept m) new s.sent k) [
    | inl h ↦ inr (m, h, p, q, r)
    | inr h ↦ inl (m, h, p, q, r)
  ]

  apart : (j : String) → (j == n) ≡ false → j ≡ n → ⊥
  apart j q p = cc (subst (λ k. (k == n) ≡ true) (sym p) (beq_self n))

  old_vote : (j : String) (b : Ballot) (i : ℕ) → (j == n) ≡ false → Voted now j b i → Voted s j b i
  old_vote j b i q v = elim (Bool-cases (has_vote new j b i)) [
    | inl h ↦ absurd (apart j q (al.votes j b i h).0)
    | inr h ↦ ground (arith, has_vote-append new s.sent j b i)
  ]

  acceptor_later :
      (j : String) (a : Acceptor) (at : Seat)
      → (j == n) ≡ false
      → AcceptorOk voters s j a at
      → AcceptorOk voters now j a at
  acceptor_later j a at q ok = record {
    id = ok.id;
    heard = ok.heard;
    backed = λ i v k. let (p, le) = ok.backed i v k in (Proposed-later g v.0 i v.1 p, le);
    votes = λ b i v. ok.votes b i (old_vote j b i q v);
  }

  acceptor_other :
      (j : String) → (j == n) ≡ false → AcceptorOk voters now j (now.acceptor j) (now.seat j)
  acceptor_other j q =
      subst₂ (AcceptorOk voters now j) (sym (set_at_other n x s.acceptor j q))
        (sym (set_at_other n seat s.seat j q))
        (acceptor_later j (s.acceptor j) (s.seat j) q (inv.acceptors j))

  Quiet-other : (j : String) → (j == n) ≡ false → (b : Ballot) → b.node ≡ j → Quiet s now b
  Quiet-other j q b h i c p = elim (proposal-cases b i c p) [
    | inl old ↦ old
    | inr (m, k, e, f, r) ↦
        absurd (apart j q (sym h ∙ ap (λ (y : Ballot). y.node) (sym e) ∙ (br.proposals m k).0))
  ]

  stage_other : (j : String) → (j == n) ≡ false → StageOk voters now j (now.seat j).stage
  stage_other j q =
      subst (λ (y : Seat). StageOk voters now j y.stage) (sym (set_at_other n seat s.seat j q))
        (StageOk-later voters g j (s.seat j).stage (Quiet-other j q) (inv.stages j))

  acceptor_here : AcceptorOk voters now n (now.acceptor n) (now.seat n)
  acceptor_here =
      subst₂ (AcceptorOk voters now n) (sym (set_at_here n x s.acceptor))
        (sym (set_at_here n seat s.seat)) br.acceptor

  stage_here : StageOk voters now n (now.seat n).stage
  stage_here =
      subst (λ (y : Seat). StageOk voters now n y.stage) (sym (set_at_here n seat s.seat)) br.stage

  unique_now :
      (b : Ballot) (i : ℕ) (c d : Command) → Proposed now b i c → Proposed now b i d → c ≡ d
  unique_now b i c d p p' = elim (proposal-cases b i c p) [
    | inr (m, k, e, f, h) ↦
        sym h ∙ br.unique m d k (subst₂ (λ y z. Proposed now y z d) (sym e) (sym f) p')
    | inl old ↦ elim (proposal-cases b i d p') [
      | inl old' ↦ inv.unique b i c d old old'
      | inr (m, k, e, f, h) ↦
          sym (br.unique m c k (subst₂ (λ y z. Proposed now y z c) (sym e) (sym f) p)) ∙ h
    ]
  ]

  safe_now : (b : Ballot) (i : ℕ) (c : Command) → Proposed now b i c → SafeAt voters now b i c
  safe_now b i c p = elim (proposal-cases b i c p) [
    | inl old ↦ SafeAt-later g voters b i c (inv.safe b i c old)
    | inr (m, k, e, f, h) ↦ subst₃ (SafeAt voters now) e f h (br.proposals m k).2
  ]

  rounds_now :
      (b : Ballot) (i : ℕ) (c : Command)
      → Proposed now b i c
      → b.round ≤ (promised now b.node).round
  rounds_now b i c p = elim (proposal-cases b i c p) [
    | inl old ↦ round_later voters g b.node b (inv.rounds b i c old)
    | inr (m, k, e, f, h) ↦
        let (at, le, safe) = br.proposals m k in
        subst (λ (y : Ballot). y.round ≤ (promised now y.node).round) e
          (subst (λ j. m.ballot.round ≤ (promised now j).round) (sym at) le)
  ]

  -- A change that brings what it must keeps the invariant.
  pub at_node-Inv : Inv voters now
  at_node-Inv = record {
    acceptors = λ j. elim (beq-cases j n) [
      | inl p ↦
          subst (λ k. AcceptorOk voters now k (now.acceptor k) (now.seat k)) (sym p) acceptor_here
      | inr q ↦ acceptor_other j q
    ];
    promises = λ m k. elim (In-append_cases (promise m) new s.sent k) [
      | inl h ↦ br.promises m h
      | inr h ↦ PromiseOk-later voters m g (inv.promises m h)
    ];
    requests = λ m k. elim (In-append_cases (prepare m) new s.sent k) [
      | inl h ↦ br.requests m h
      | inr h ↦ omega (arith, inv.requests m h, g.positions m.ballot.node)
    ];
    unique = unique_now;
    safe = safe_now;
    rounds = rounds_now;
    stages = λ j. elim (beq-cases j n) [
      | inl p ↦ subst (λ k. StageOk voters now k (now.seat k).stage) (sym p) stage_here
      | inr q ↦ stage_other j q
    ];
    commits = λ m k. elim (In-append_cases (commit m) new s.sent k) [
      | inl h ↦ br.commits m h
      | inr h ↦ Chosen-later g voters m.slot m.command (inv.commits m h)
    ];
  }
