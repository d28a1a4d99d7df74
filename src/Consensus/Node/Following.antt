-- ===== src/Consensus/Node/Following.antt =====
-- Following a leader, from app/consensus/roles.py.
use matricxon.Base.{
  ℕ, String, none, some, Bool, true, false, not, ltb, max, if◌then◌else◌, ◌==◌, ◌||◌, string_eq,
  nat_eq,
}
use matricxon.Consensus.Ballot.{Ballot, ballot_ltb, ballot_eq}
use matricxon.Consensus.Messages.{Accept, Heartbeat, accepted, heartbeat_ack}
use matricxon.Consensus.Acceptor
use matricxon.Consensus.Acceptor.{Acceptor}
use matricxon.Consensus.Quorum
use matricxon.Consensus.Catchup
use matricxon.Consensus.Node.{
  Node, epoch, own_ballot, step_down, reset_election, send, ask_for_log, with_acceptor,
}
use matricxon.Consensus.Node.Leading.{route_pending}

-- `_heard_leader`
unfoldable pub heard_leader : Ballot → String → ℕ → Node → Node
unfolding own_ballot step_down reset_election
heard_leader ballot sender now n =
    if ballot_ltb ballot n.leader_ballot
    then n
    else (let known = record n { leader_ballot = ballot; leader_id = some sender } in
        if sender == n.id
        then known
        else (let met = record known {
          watch =
              let contacted = Quorum.leader_contact now n.watch in
              if changed then Quorum.leader_found contacted else contacted;
        } in
            let followed =
              reset_election now
                (if ballot_ltb (own_ballot met) ballot then step_down met else met) in
            if changed then route_pending followed else followed))
  where
    changed : Bool
    changed = elim n.leader_id [ none ↦ true | some l ↦ not (sender == l) ]

-- `_on_accept`
unfoldable pub on_accept : Accept → ℕ → Node → Node
unfolding with_acceptor heard_leader
on_accept m now n =
    let (a, reply) = Acceptor.on_accept m n.acceptor in
    let n' = with_acceptor a n in
    send m.sender reply (elim reply [
      | accepted _ ↦
          heard_leader m.ballot m.sender now
            (record n' { round_seen = max n.round_seen m.ballot.round })
      | _ ↦ n'
    ])

-- `_on_heartbeat`
unfoldable pub on_heartbeat : Heartbeat → ℕ → Node → Node
unfolding heard_leader
on_heartbeat m now n =
    if not (ballot_ltb m.ballot n.acceptor.state.promised) || m.sender == n.id
    then (let heard = heard_leader m.ballot m.sender now n in
        let answered =
          if m.sender == n.id
          then heard
          else send m.sender
              (heartbeat_ack (record { sender = n.id; epoch = epoch n; ballot = m.ballot }))
              heard in
        if ltb answered.replica.next_slot m.next_slot
        then ask_for_log (some m.sender) now false (record answered {
          catchup = Catchup.note_ahead m.sender m.epoch m.next_slot answered.catchup;
        })
        else answered)
    else n
