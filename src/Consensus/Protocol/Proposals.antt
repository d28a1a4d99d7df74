-- ===== src/Consensus/Protocol/Proposals.antt =====
-- The steps that propose commands under a leadership.
use matricxon.Base.{
  ℕ, ◌+◌, ◌≤◌, ◌≡◌, ◌⊎◌, inl, inr, String, List, [], ◌∷◌, false, In, In-append_cases,
  In-append_left, Distinct, nat_eq, string_eq, arith, sym, ap, ◌∙◌, subst, refl,
}
use mathlib.Core.Path.{subst₂}
use matricxon.Base.Dict.{Dict, In-put}
use matricxon.Consensus.Ballot.{Ballot}
use matricxon.Consensus.Command.{Command}
use matricxon.Consensus.Messages.{Accept, Message, prepare, promise, accept, commit}
use matricxon.Consensus.Proposer
use matricxon.Consensus.Proposer.{Leadership}
use matricxon.Consensus.Protocol.{
  leading, Seat, System, at_node, accept_of, accepts_of, propose_each, after_propose,
}
use matricxon.Consensus.Protocol.Facts.{
  promised, Proposed, Voted, has_vote, SafeAt, Grows, Proposed-later, SafeAt-later,
}
use matricxon.Consensus.Protocol.Invariant.{LeadOk, StageOk, Inv, at_node-Inv, round_later}
use matricxon.Consensus.Protocol.Seats.{moved-Allowed, moved-Grows, moved-AcceptorOk}

-- The leadership after a plan: further on, with the plan's slots in flight.
next_free-propose_each :
    (voters : List String) (e : ℕ) (plan : Dict ℕ Command) (l : Leadership)
    → l.next_free_slot ≤ (propose_each voters e plan l).next_free_slot
unfolding propose_each Proposer.propose
next_free-propose_each voters e [] l = omega arith
next_free-propose_each voters e ((i, c) ∷ plan) l =
    omega (arith, next_free-propose_each voters e plan (Proposer.propose i c l))

planned-lt :
    (voters : List String) (e : ℕ) (plan : Dict ℕ Command) (l : Leadership) (i : ℕ) (c : Command)
    → In (i, c) plan
    → i + 1 ≤ (propose_each voters e plan l).next_free_slot
unfolding propose_each Proposer.propose
planned-lt voters e [] l i c m = absurd m
planned-lt voters e ((j, d) ∷ plan) l i c (inl p) = omega (
  arith,
  next_free-propose_each voters e plan (Proposer.propose j d l),
  ap (λ (x : ℕ × Command). x.0) p,
)
planned-lt voters e ((j, d) ∷ plan) l i c (inr m) =
    planned-lt voters e plan (Proposer.propose j d l) i c m

flight-propose_each :
    (voters : List String) (e : ℕ) (plan : Dict ℕ Command) (l : Leadership) (i : ℕ) (c : Command)
    (acks : List String)
    → In (i, (c, acks)) (propose_each voters e plan l).inflight
    → (In (i, c) plan × (acks ≡ [])) ⊎ In (i, (c, acks)) l.inflight
unfolding propose_each Proposer.propose
flight-propose_each voters e [] l i c acks m = inr m
flight-propose_each voters e ((j, d) ∷ plan) l i c acks m =
    elim (flight-propose_each voters e plan (Proposer.propose j d l) i c acks m) [
      | inl (k, p) ↦ inl (inr k, p)
      | inr k ↦ elim (In-put j (d, []) l.inflight i (c, acks) k) [
        | inr old ↦ inr old
        | inl (p, q) ↦ inl (inl (λ t. (p t, (q t).0)), ap (λ (x : Command × List String). x.1) q)
      ]
    ]

same-propose_each :
    (voters : List String) (e : ℕ) (plan : Dict ℕ Command) (l : Leadership)
    → ((propose_each voters e plan l).ballot ≡ l.ballot)
      × ((propose_each voters e plan l).quorum ≡ l.quorum)
unfolding propose_each Proposer.propose
same-propose_each voters e [] l = (refl, refl)
same-propose_each voters e ((i, c) ∷ plan) l =
    same-propose_each voters e plan (Proposer.propose i c l)

In-accepts_of :
    (voters : List String) (e : ℕ) (n : String) (b : Ballot) (plan : Dict ℕ Command) (i : ℕ)
    (c : Command)
    → In (i, c) plan
    → In (accept_of voters e n b i c) (accepts_of voters e n b plan)
unfolding accepts_of
In-accepts_of voters e n b [] i c m = absurd m
In-accepts_of voters e n b ((j, d) ∷ plan) i c (inl p) =
    inl (λ t. accept_of voters e n b (p t).0 (p t).1)
In-accepts_of voters e n b ((j, d) ∷ plan) i c (inr m) = inr (In-accepts_of voters e n b plan i c m)

accepts_of-In :
    (voters : List String) (e : ℕ) (n : String) (b : Ballot) (plan : Dict ℕ Command) (x : Message)
    → In x (accepts_of voters e n b plan)
    → (i : ℕ) × (c : Command) × In (i, c) plan × (x ≡ accept_of voters e n b i c)
unfolding accepts_of
accepts_of-In voters e n b [] x k = absurd k
accepts_of-In voters e n b ((i, c) ∷ plan) x (inl p) = (i, c, inl refl, p)
accepts_of-In voters e n b ((i, c) ∷ plan) x (inr k) =
    let (j, d, m, p) = accepts_of-In voters e n b plan x k in (j, d, inr m, p)

accepts_of-silent :
    (voters : List String) (e : ℕ) (n : String) (b : Ballot) (plan : Dict ℕ Command) (j : String)
    (b' : Ballot) (i : ℕ)
    → has_vote (accepts_of voters e n b plan) j b' i ≡ false
unfolding accepts_of
accepts_of-silent voters e n b [] j b' i = refl
accepts_of-silent voters e n b (x ∷ plan) j b' i = accepts_of-silent voters e n b plan j b' i

of_accept : {a b : Accept} → accept a ≡ accept b → a ≡ b
of_accept h = cc

-- A leader proposes a plan of new slots, each command safe in its slot.
module _ (voters : List String) (e : ℕ) (s : System) (n : String) (l : Leadership)
    (plan : Dict ℕ Command) (inv : Inv voters s) (ok : LeadOk voters s n l)
    (safe : (i : ℕ) (c : Command) → In (i, c) plan → SafeAt voters s l.ballot i c)
    (fresh : (i : ℕ) (c d : Command) → In (i, c) plan → Proposed s l.ballot i d → ⊥)
    (one : (i : ℕ) (c d : Command) → In (i, c) plan → In (i, d) plan → c ≡ d) where
  abbrev l' : Leadership
  l' = propose_each voters e plan l

  abbrev seat : Seat
  seat = record (s.seat n) { stage = leading l' }

  abbrev new : List Message
  new = accepts_of voters e n l.ballot plan

  abbrev t : System
  t = at_node n (s.acceptor n) seat new s

  silent : (j : String) (b : Ballot) (i : ℕ) → has_vote new j b i ≡ false
  silent = accepts_of-silent voters e n l.ballot plan

  g : Grows s t
  g = moved-Grows voters s n seat new inv silent (omega arith) (inv.acceptors n).heard

  Accept-cases :
      (m : Accept)
      → In (accept m) new
      → (i : ℕ) × (c : Command) × In (i, c) plan
        × (m ≡ record { sender = n; epoch = e; ballot = l.ballot; slot = i; command = c })
  Accept-cases m k =
      let (i, c, in_plan, p) = accepts_of-In voters e n l.ballot plan (accept m) k in
      (i, c, in_plan, of_accept p)

  planned-Proposed : (i : ℕ) (c : Command) → In (i, c) plan → Proposed t l.ballot i c
  planned-Proposed i c m = (
    record { sender = n; epoch = e; ballot = l.ballot; slot = i; command = c },
    In-append_left (accept_of voters e n l.ballot i c) new s.sent
        (In-accepts_of voters e n l.ballot plan i c m),
    refl,
    refl,
    refl,
  )

  Proposed-cases :
      (i : ℕ) (c : Command) → Proposed t l.ballot i c → Proposed s l.ballot i c ⊎ In (i, c) plan
  Proposed-cases i c (m, k, p, q, r) = elim (In-append_cases (accept m) new s.sent k) [
    | inr old ↦ inl (m, old, p, q, r)
    | inl h ↦
        let (j, d, in_plan, x) = Accept-cases m h in
        inr (
          subst₂ (λ y z. In (y, z) plan) (sym (ap (λ (y : Accept). y.slot) x) ∙ q)
            (sym (ap (λ (y : Accept). y.command) x) ∙ r) in_plan)
  ]

  lead-LeadOk : LeadOk voters t n l'
  lead-LeadOk = record {
    node = ap (λ (b : Ballot). b.node) (same-propose_each voters e plan l).0 ∙ ok.node;
    round =
        subst (λ (b : Ballot). b.round ≤ (promised t n).round)
          (sym (same-propose_each voters e plan l).0) (round_later voters g n l.ballot ok.round);
    quorum = (same-propose_each voters e plan l).1 ∙ ok.quorum;
    below = λ i c p.
        elim (Proposed-cases i c
          (subst (λ b. Proposed t b i c) (same-propose_each voters e plan l).0 p)) [
            | inl old ↦ omega (arith, ok.below i c old, next_free-propose_each voters e plan l)
            | inr m ↦ planned-lt voters e plan l i c m
          ];
    free = λ i c h.
        subst (λ b. SafeAt voters t b i c) (sym (same-propose_each voters e plan l).0)
          (SafeAt-later g voters l.ballot i c
            (ok.free i c (omega (arith, next_free-propose_each voters e plan l))));
    flight = λ i c acks k.
        subst
          (λ b.
            Proposed t b i c
            × Distinct acks
            × ((a : String) → In a acks → In a voters × Voted t a b i))
          (sym (same-propose_each voters e plan l).0)
          (elim (flight-propose_each voters e plan l i c acks k) [
            | inr old ↦
                let (p, d, each) = ok.flight i c acks old in
                (
                  Proposed-later g l.ballot i c p,
                  d,
                  λ a h. let (m, v) = each a h in (m, g.votes a l.ballot i v),
                )
            | inl (m, p) ↦ (
              planned-Proposed i c m,
              subst Distinct (sym p) tt,
              λ a h. absurd (subst (In a) p h),
            )
          ]);
  }

  propose_unique :
      (m : Accept) (c : Command) → In (accept m) new → Proposed t m.ballot m.slot c → m.command ≡ c
  propose_unique m c k p =
      let (i, d, in_plan, x) = Accept-cases m k in
      let at : Proposed t l.ballot i c =
        subst₂ (λ y z. Proposed t y z c) (ap (λ (y : Accept). y.ballot) x)
          (ap (λ (y : Accept). y.slot) x) p in
      ap (λ (y : Accept). y.command) x ∙ elim (Proposed-cases i c at) [
        | inl old ↦ absurd (fresh i d c in_plan old)
        | inr again ↦ one i d c in_plan again
      ]

  -- The proposals keep the invariant.
  pub propose_plan-Inv : Inv voters t
  propose_plan-Inv =
      at_node-Inv voters s n (s.acceptor n) seat new
        (moved-Allowed voters s n seat new inv silent (omega arith) (inv.acceptors n).heard) inv
        (record {
          acceptor =
              moved-AcceptorOk voters s n seat new inv silent (omega arith) (inv.acceptors n).heard;
          stage = lead-LeadOk;
          promises = λ m k.
              let (i, c, h, p) = accepts_of-In voters e n l.ballot plan (promise m) k in
              absurd (cc);
          requests = λ m k.
              let (i, c, h, p) = accepts_of-In voters e n l.ballot plan (prepare m) k in
              absurd (cc);
          proposals = λ m k.
              let (i, c, h, x) = Accept-cases m k in
              subst
                (λ (y : Accept).
                  (y.ballot.node ≡ n)
                  × (y.ballot.round ≤ (promised t n).round)
                  × SafeAt voters t y.ballot y.slot y.command)
                (sym x)
                (
                  ok.node,
                  round_later voters g n l.ballot ok.round,
                  SafeAt-later g voters l.ballot i c (safe i c h),
                );
          unique = propose_unique;
          commits = λ m k.
              let (i, c, h, p) = accepts_of-In voters e n l.ballot plan (commit m) k in absurd (cc);
        })

next_slot_of :
    (l : Leadership) (c : Command) (i : ℕ) (d : Command)
    → In {A = ℕ × Command} (i, d) ((l.next_free_slot, c) ∷ [])
    → (i ≡ l.next_free_slot) × (d ≡ c)
next_slot_of l c i d (inl p) = (ap (λ (x : ℕ × Command). x.0) p, ap (λ (x : ℕ × Command). x.1) p)
next_slot_of l c i d (inr m) = absurd m

-- A leader's next proposal keeps the invariant.
pub after_propose-Inv :
    (voters : List String) (e : ℕ) (s : System) (n : String) (l : Leadership) (c : Command)
    → Inv voters s
    → (s.seat n).stage ≡ leading l
    → Inv voters (after_propose voters e n l c s)
unfolding after_propose accepts_of propose_each
after_propose-Inv voters e s n l c inv stage =
    propose_plan-Inv voters e s n l ((l.next_free_slot, c) ∷ []) inv ok
      (λ i d m. ok.free i d (omega (arith, (next_slot_of l c i d m).0)))
      (λ i d d' m p. omega (arith, ok.below i d' p, (next_slot_of l c i d m).0))
      (λ i d d' m m'. (next_slot_of l c i d m).1 ∙ sym (next_slot_of l c i d' m').1)
  where
    ok : LeadOk voters s n l
    ok = subst (StageOk voters s n) stage (inv.stages n)
