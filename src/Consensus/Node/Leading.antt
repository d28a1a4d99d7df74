-- ===== src/Consensus/Node/Leading.antt =====
-- Campaigning and leading, from app/consensus/roles.py, and the routing of a command from
-- app/consensus/node.py, which a new leader does at once.
pub mod Known
use matricxon.Base.{
  ℕ, ◌+◌, String, List, [], ◌∷◌, none, some, max, if◌then◌else◌, ◌==◌, ◌&&◌, ◌||◌, string_eq,
  nat_eq, contains,
}
use matricxon.Base.Dict.{Dict, get_or}
use matricxon.Base.Sort.{sort_items}
use matricxon.Consensus.Ballot.{Ballot, ballot_ltb, ballot_eq}
use matricxon.Consensus.Command.{Command}
use matricxon.Consensus.Messages.{Prepare, Promise, Accept, Nack, prepare, promise, accept, forward}
use matricxon.Consensus.Acceptor
use matricxon.Consensus.Acceptor.{Acceptor}
use matricxon.Consensus.Proposer
use matricxon.Consensus.Proposer.{Campaign, Leadership}
use matricxon.Consensus.Replica
use matricxon.Consensus.Replica.{Replica, Fault}
use matricxon.Consensus.Quorum
use matricxon.Consensus.Pending
use matricxon.Consensus.Node.{
  Node, candidate, leader, epoch, members, quorum, is_leader, is_candidate, own_ballot, step_down,
  draw, reset_election, send, broadcast, with_acceptor,
}

-- `_start_campaign`
unfoldable pub start_campaign : ℕ → Node → Node
unfolding draw
start_campaign now n =
    let ballot : Ballot = record { round = n.round_seen + 1; node = n.id } in
    let n' =
      broadcast
        (prepare (record {
          sender = n.id;
          epoch = epoch n;
          ballot = ballot;
          from_slot = n.replica.next_slot;
        }))
        (record n {
          round_seen = ballot.round;
          role = candidate;
          leadership = none;
          leader_id = none;
          campaign = some (Proposer.new_campaign ballot (quorum n));
        }) in
    let (d, n'') = draw n' in
    let (watch, wait) = Quorum.next_campaign_wait d n''.watch in
    record n'' { watch = watch; election_deadline = now + wait }

-- `_propose_at`; it is called while leading.
unfoldable pub propose_at : ℕ → Command → Node → Node
propose_at slot command n = elim n.leadership [
  | none ↦ n
  | some l ↦
      broadcast
        (accept (record {
          sender = n.id;
          epoch = epoch n;
          ballot = l.ballot;
          slot = slot;
          command = command;
        }))
        (record n { leadership = some (Proposer.propose slot command l) })
]

propose_plan : Dict ℕ Command → Node → Node
unfolding propose_at
propose_plan [] n = n
propose_plan ((slot, command) ∷ rest) n = propose_plan rest (propose_at slot command n)

-- `_propose`
unfoldable pub propose : Command → Node → Node
unfolding propose_at
propose command n = elim n.leadership [
  | none ↦ n
  | some l ↦
      if Replica.applied command.cmd_id n.replica || contains command.cmd_id l.command_ids
      then n
      else propose_at l.next_free_slot command n
]

-- `_route`
unfoldable pub route : Command → Node → Node
unfolding propose
route command n =
    if Replica.applied command.cmd_id n.replica
    then n
    else if is_leader n.role
    then propose command n
    else elim n.leader_id [
      | none ↦ n
      | some l ↦
          if l == n.id then n else send l (forward (record { sender = n.id; command = command })) n
    ]

route_each : Pending.Pending → Node → Node
unfolding route
route_each [] n = n
route_each ((i, c) ∷ rest) n = route_each rest (route c n)

-- `_route_pending`
unfoldable pub route_pending : Node → Node
unfolding route_each
route_pending n =
    let open_commands = Pending.still_open (λ i. Replica.applied i n.replica) n.pending in
    route_each open_commands (record n { pending = open_commands })

greatest : ℕ → Dict ℕ Command → ℕ
greatest k [] = k
greatest k ((slot, c) ∷ rest) = greatest (max k (slot + 1)) rest

-- One past the last slot of the two dictionaries, 0 when they are empty.
unfoldable pub past_known : Dict ℕ Command → Dict ℕ Command → ℕ
unfolding greatest
past_known chosen plan = greatest (greatest 0 chosen) plan

-- `_become_leader`
unfoldable pub become_leader : Campaign → ℕ → Node → Node
unfolding past_known propose_plan route_pending
become_leader c now n =
    let chosen = get_or n.replica.epoch [] n.replica.chosen in
    let plan = Proposer.plan n.replica.next_slot chosen c in
    let first_free = max n.replica.next_slot (past_known chosen plan) in
    route_pending (
      propose_plan (sort_items plan) (record n {
        leadership = some (Proposer.new_leadership c.ballot (quorum n) first_free);
        role = leader;
        campaign = none;
        leader_id = some n.id;
        leader_ballot = c.ballot;
        watch = Quorum.became_leader now n.watch;
        next_heartbeat = now;
      }))

-- `_on_promise`
unfoldable pub on_promise : Promise → ℕ → Node → Node
unfolding become_leader
on_promise m now n = elim n.campaign [
  | none ↦ n
  | some c ↦
      if is_candidate n.role && m.ballot == c.ballot
      then (let (c', complete) = Proposer.add m.sender m.accepted c in
          let n' = record n { campaign = some c' } in
          if complete then become_leader c' now n' else n')
      else n
]

-- `_on_prepare`
unfoldable pub on_prepare : Prepare → ℕ → Node → Node
unfolding with_acceptor own_ballot reset_election
on_prepare m now n =
    let (a, reply) = Acceptor.on_prepare m n.acceptor in
    let n' = with_acceptor a n in
    send m.sender reply (elim reply [
      | promise _ ↦
          let raised = record n' { round_seen = max n.round_seen m.ballot.round } in
          if m.sender == n.id
          then raised
          else reset_election now
              (if ballot_ltb (own_ballot n) m.ballot then step_down raised else raised)
      | _ ↦ n'
    ])

-- `_on_nack`
unfoldable pub on_nack : Nack → ℕ → Node → Node
unfolding own_ballot step_down reset_election
on_nack m now n =
    let raised = record n { round_seen = max n.round_seen m.promised.round } in
    if m.ballot == own_ballot n then reset_election now (step_down raised) else raised

resend : List String → Accept → List String → Node → Node
resend [] m acks n = n
resend (to ∷ rest) m acks n =
    resend rest m acks (if contains to acks then n else send to (accept m) n)

resend_each : List (ℕ × Command × List String) → Ballot → Node → Node
unfolding resend
resend_each [] b n = n
resend_each ((slot, command, acks) ∷ rest) b n = resend_each rest b (
    resend (members n)
      (record { sender = n.id; epoch = epoch n; ballot = b; slot = slot; command = command }) acks
      n)

-- `_resend_unchosen`
unfoldable pub resend_unchosen : Node → Node
unfolding resend_each
resend_unchosen n = elim n.leadership [
  | none ↦ n
  | some l ↦ if is_leader n.role then resend_each (Proposer.unchosen l) l.ballot n else n
]
