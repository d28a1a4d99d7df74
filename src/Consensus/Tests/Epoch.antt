-- ===== src/Consensus/Tests/Epoch.antt =====
-- One epoch of one voter: it campaigns, leads, proposes a command, accepts it and announces it.
use matricxon.Base.Text.{text_ltb}
use matricxon.Base.Dict.{get, put}
use matricxon.Base.Sort.{sort}
use matricxon.Consensus.Ballot.{ballot_ltb}
use matricxon.Consensus.Node.Leading.{past_known}
use matricxon.Base.{contains, keep, String, List, [], ◌∷◌, ◌≡◌, inl, refl}
use matricxon.Consensus.Messages.{Promise, Accept, Accepted, Commit}
use matricxon.Consensus.Acceptor.{Acceptor}
use matricxon.Consensus.Proposer
use matricxon.Consensus.Acceptor
use matricxon.Consensus.Proposer.{Campaign, Leadership, new_campaign, new_leadership}
use matricxon.Consensus.Protocol.{
  System, Reach, here, next, campaign, hear_promise, propose, hear_accept, hear_accepted,
  after_campaign, after_promise, after_propose, after_accept, after_accepted,
}
use matricxon.Consensus.Protocol.Agreement.{fresh_system, commits-agree}
use matricxon.Consensus.Tests.{first, set_x}

abbrev only_a : List String
only_a = "a" ∷ []

abbrev campaign_a : Campaign
campaign_a = new_campaign first 1

abbrev promise_a : Promise
promise_a = record { sender = "a"; epoch = 0; ballot = first; accepted = [] }

abbrev leader_a : Leadership
leader_a = new_leadership first 1 0

abbrev accept_a : Accept
accept_a = record { sender = "a"; epoch = 0; ballot = first; slot = 0; command = set_x }

abbrev accepted_a : Accepted
accepted_a = record { sender = "a"; epoch = 0; ballot = first; slot = 0 }

abbrev commit_a : Commit
commit_a = record { sender = "a"; epoch = 0; slot = 0; command = set_x }

abbrev leader_a_then : Leadership
leader_a_then = Proposer.propose 0 set_x leader_a

abbrev campaigned : System
campaigned = after_campaign only_a 0 "a" (fresh_system 0)

abbrev elected : System
elected = after_promise only_a 0 "a" promise_a campaign_a [] campaigned

abbrev proposed : System
proposed = after_propose only_a 0 "a" leader_a set_x elected

abbrev voted : System
voted = after_accept only_a 0 "a" accept_a proposed

abbrev announced : System
announced = after_accepted only_a 0 "a" accepted_a leader_a_then voted

announced-Reach : Reach only_a 0 (fresh_system 0) announced
unfolding after_campaign after_promise after_propose after_accept Acceptor.on_prepare ballot_ltb
    Acceptor.report keep sort new_campaign Proposer.add put new_leadership Proposer.plan
    Proposer.best_of past_known Acceptor.on_accept text_ltb get Proposer.propose contains
announced-Reach =
    next
      (next
        (next
          (next (next here (campaign "a" (inl refl)))
            (hear_promise "a" promise_a campaign_a [] (inl refl) refl refl))
          (propose "a" leader_a set_x refl))
        (hear_accept "a" accept_a (inl refl) (inl refl)))
      (hear_accepted "a" accepted_a leader_a_then (inl refl) refl refl)

commits-agree_example : set_x ≡ set_x
unfolding after_accepted Proposer.on_ack get Proposer.propose put contains new_leadership
    Proposer.add_to_set
commits-agree_example =
    commits-agree only_a 0 announced commit_a commit_a announced-Reach (inl refl) (inl refl) refl
