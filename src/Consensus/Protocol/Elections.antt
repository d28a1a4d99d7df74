-- ===== src/Consensus/Protocol/Elections.antt =====
-- The steps that count a promise: the campaign goes on, or the node becomes the leader.
use matricxon.Base.{
  ℕ, ◌≤◌, ◌≡◌, inl, inr, String, List, [], none, some, Bool, true, In, Bool-cases, Option-cases,
  length, nat_eq, string_eq, arith, sym, ◌∙◌, subst, refl, max, leb, leb→le, not, ◌&&◌,
}
use matricxon.Base.Dict.{Dict, get, put, In-put, Distinct-put}
use matricxon.Base.Sort.{sort-In}
use matricxon.Consensus.Ballot.{Ballot}
use matricxon.Consensus.Command.{Command}
use matricxon.Consensus.Messages.{Promise, promise}
use matricxon.Consensus.Proposer.{Campaign, Leadership, add, best_of, planned, plan}
use matricxon.Consensus.Proposer.Plan.{IsFilled, plan-IsFilled, plan-best_of}
use matricxon.Consensus.Node.Leading.{past_known}
use matricxon.Consensus.Node.Leading.Known.{past_known-chosen, past_known-plan}
use matricxon.Consensus.Protocol.{
  campaigning, Seat, System, at_node, lead, after_promise, first_leadership, sorted_plan,
}
use matricxon.Consensus.Protocol.Facts.{position, SafeAt}
use matricxon.Consensus.Protocol.Safe.{CampaignOk, gap-SafeAt, best-SafeAt}
use matricxon.Consensus.Protocol.Invariant.{LeadOk, StageOk, Inv, CampaignOk-later}
use matricxon.Consensus.Protocol.Seats.{quiet_move, moved-Grows}
use matricxon.Consensus.Protocol.Proposals.{propose_plan-Inv}
use matricxon.Consensus.Proposer

-- A campaign with a quorum of promises becomes a leadership.
module _ (voters : List String) (e : ℕ) (s : System) (n : String) (c : Campaign)
    (chosen : Dict ℕ Command) (inv : Inv voters s) (ok : CampaignOk voters s n c)
    (enough : c.quorum ≤ length c.promises) where
  abbrev from : ℕ
  from = position s n

  planned-SafeAt :
      (i : ℕ) (d : Command) → IsFilled from (best_of c) chosen i d → SafeAt voters s c.ballot i d
  unfolding planned
  planned-SafeAt i d (l, k, p) = elim (Option-cases (get i (best_of c))) [
    | inl none_there ↦ gap-SafeAt voters s n c ok inv.promises enough i l d none_there
    | inr (v, there) ↦
        let same : d ≡ v.1 = p ∙ planned-eq i v there in
        subst (SafeAt voters s c.ballot i) (sym same)
          (best-SafeAt voters s n c ok inv.promises enough i l (λ b f. inv.safe b i f) v there)
  ]
    where
      planned-eq :
          (i : ℕ) (v : Ballot × Command) → get i (best_of c) ≡ some v → planned (best_of c) i ≡ v.1
      planned-eq i v h = rw (h, planned)

  -- No promise reports a slot past the plan.
  past_plan :
      (i : ℕ) → max from (past_known chosen (plan from chosen c)) ≤ i → get i (best_of c) ≡ none
  past_plan i h = elim (Option-cases (get i (best_of c))) [
    | inl q ↦ q
    | inr (v, there) ↦ elim (Bool-cases (leb from i)) [
      | inr low ↦ absurd (ground arith)
      | inl high ↦ elim (plan-best_of from chosen c i v (leb→le from i high) there) [
        | inl known ↦ absurd (omega (arith, past_known-chosen chosen (plan from chosen c) i known))
        | inr m ↦
            absurd (
              omega
                (arith, past_known-plan chosen (plan from chosen c) i (planned (best_of c) i) m))
      ]
    ]
  ]

  first-LeadOk : LeadOk voters s n (first_leadership voters e n c chosen s)
  unfolding Proposer.new_leadership
  first-LeadOk = record {
    node = ok.node;
    round = ok.round;
    quorum = refl;
    below = λ i d p. absurd (ok.fresh i d p);
    free =
        λ i d h. gap-SafeAt voters s n c ok inv.promises enough i (omega arith) d (past_plan i h);
    flight = λ i d acks m. absurd m;
  }

  pub lead-Inv : Inv voters (lead voters e n c chosen s)
  unfolding lead Proposer.new_leadership
  lead-Inv =
      propose_plan-Inv voters e s n (first_leadership voters e n c chosen s)
        (sorted_plan voters e n c chosen s) inv first-LeadOk
        (λ i d m. planned-SafeAt i d (in_plan i d m)) (λ i d f m p. ok.fresh i f p)
        (λ i d f m m'. (in_plan i d m).2 ∙ sym (in_plan i f m').2)
    where
      in_plan :
          (i : ℕ) (d : Command)
          → In (i, d) (sorted_plan voters e n c chosen s)
          → IsFilled from (best_of c) chosen i d
      in_plan i d m =
          plan-IsFilled from chosen c i d
            (sort-In (λ p q. leb p.0 q.0) (i, d) (plan from chosen c) m)

-- A promise is counted.
module _ (voters : List String) (e : ℕ) (s : System) (n : String) (m : Promise) (c : Campaign)
    (chosen : Dict ℕ Command) (inv : Inv voters s) (sent : In (promise m) s.sent)
    (stage : (s.seat n).stage ≡ campaigning c) (same : m.ballot ≡ c.ballot) where
  campaign_ok : CampaignOk voters s n c
  campaign_ok = subst (StageOk voters s n) stage (inv.stages n)

  abbrev grown : Campaign
  grown = record c { promises = put m.sender m.accepted c.promises }

  grown-CampaignOk : CampaignOk voters s n grown
  grown-CampaignOk = record {
    node = campaign_ok.node;
    round = campaign_ok.round;
    quorum = campaign_ok.quorum;
    distinct = Distinct-put m.sender m.accepted c.promises campaign_ok.distinct;
    counted = λ a es k. elim (In-put m.sender m.accepted c.promises a es k) [
      | inl (p, q) ↦ (m, sent, sym p, same, sym q)
      | inr old ↦ campaign_ok.counted a es old
    ];
    fresh = campaign_ok.fresh;
  }

  abbrev goes_on : Seat
  goes_on = record (s.seat n) { stage = campaigning grown }

  grown-Inv : Inv voters (at_node n (s.acceptor n) goes_on [] s)
  grown-Inv = quiet_move voters s n goes_on inv (omega arith) (inv.acceptors n).heard (
      CampaignOk-later voters
        (moved-Grows voters s n goes_on [] inv (λ j b i. refl) (omega arith)
          (inv.acceptors n).heard)
        n grown (λ i d p. p) grown-CampaignOk)

  -- Counting a promise keeps the invariant, whether or not it completes the majority.
  pub after_promise-Inv : Inv voters (after_promise voters e n m c chosen s)
  unfolding after_promise Proposer.add
  after_promise-Inv = elim (Bool-cases complete) [
    | inl h ↦ rw h (lead-Inv voters e s n grown chosen inv grown-CampaignOk (enough h))
    | inr h ↦ rw h grown-Inv
  ]
    where
      complete : Bool
      complete =
          not (leb c.quorum (length c.promises))
          && leb c.quorum (length (put m.sender m.accepted c.promises))

      enough : complete ≡ true → c.quorum ≤ length grown.promises
      enough h = ground arith
