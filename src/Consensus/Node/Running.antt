-- ===== src/Consensus/Node/Running.antt =====
-- The outside world's calls, from app/consensus/node.py: a message, a tick of the clock, a command.
use matricxon.Base.{
  ℕ, zero, suc, ◌+◌, ◌/◌, String, [], ◌∷◌, Option, none, some, Bool, true, false, not, ltb, leb,
  if◌then◌else◌, ◌==◌, ◌&&◌, ◌||◌, string_eq, nat_eq,
}
use matricxon.Base.Dict.{Dict, get, put, has}
use matricxon.Consensus.Ballot.{zero_ballot, ballot_eq}
use matricxon.Consensus.Command.{Command, reconfigure}
use matricxon.Consensus.Messages.{
  Forward, Message, prepare, promise, accept, accepted, nack, commit, heartbeat, heartbeat_ack,
  catch_up, snapshot, forward,
}
use matricxon.Consensus.Replica
use matricxon.Consensus.Replica.{Replica, Fault}
use matricxon.Consensus.Quorum
use matricxon.Consensus.Catchup
use matricxon.Consensus.Pending
use matricxon.Consensus.Node.{
  Node, epoch, position, members, quorum, is_voter, is_leader, is_candidate, step_down, draw,
  reset_election, send, broadcast, ask_for_log,
}
use matricxon.Consensus.Node.Leading.{
  start_campaign, propose, route, route_pending, on_prepare, on_promise, on_nack, resend_unchosen,
}
use matricxon.Consensus.Node.Following.{on_accept, on_heartbeat}
use matricxon.Consensus.Node.Snapshots.{compact, on_snapshot}
use matricxon.Consensus.Node.Commits.{on_accepted, on_commit, on_catch_up}

-- `_on_forward`
unfoldable pub on_forward : Forward → Node → Node
unfolding propose
on_forward m n = if is_leader n.role then propose m.command n else n

-- `_tell_it_is_stale`
unfoldable pub tell_it_is_stale : String → ℕ → Node → Node
tell_it_is_stale peer now n =
    if not (peer == n.id)
      && not (Catchup.within now (get peer n.stale_told) (n.config.retry_interval / 4))
    then send peer
        (heartbeat (record {
          sender = n.id;
          epoch = epoch n;
          ballot = zero_ballot;
          next_slot = n.replica.next_slot;
        }))
        (record n { stale_told = put peer now n.stale_told })
    else n

abbrev pub sender_of : Message → String
sender_of (prepare m) = m.sender
sender_of (promise m) = m.sender
sender_of (accept m) = m.sender
sender_of (accepted m) = m.sender
sender_of (nack m) = m.sender
sender_of (commit m) = m.sender
sender_of (heartbeat m) = m.sender
sender_of (heartbeat_ack m) = m.sender
sender_of (catch_up m) = m.sender
sender_of (snapshot m) = m.sender
sender_of (forward m) = m.sender

-- The epoch that a message belongs to: none for a request of the log, a snapshot and a command.
abbrev pub epoch_of : Message → Option ℕ
epoch_of (prepare m) = some m.epoch
epoch_of (promise m) = some m.epoch
epoch_of (accept m) = some m.epoch
epoch_of (accepted m) = some m.epoch
epoch_of (nack m) = some m.epoch
epoch_of (commit m) = some m.epoch
epoch_of (heartbeat m) = some m.epoch
epoch_of (heartbeat_ack m) = some m.epoch
epoch_of _ = none

abbrev is_commit : Message → Bool
is_commit (commit m) = true
is_commit _ = false

-- One handler for each type of message.
unfoldable pub dispatch : Message → ℕ → Node → Node × Option Fault
unfolding on_forward
dispatch (prepare m) now n = (on_prepare m now n, none)
dispatch (promise m) now n = (on_promise m now n, none)
dispatch (accept m) now n = (on_accept m now n, none)
dispatch (accepted m) now n = on_accepted m now n
dispatch (nack m) now n = (on_nack m now n, none)
dispatch (commit m) now n = on_commit m now n
dispatch (heartbeat m) now n = (on_heartbeat m now n, none)
dispatch (heartbeat_ack m) now n = (n, none)
dispatch (catch_up m) now n = (on_catch_up m now n, none)
dispatch (snapshot m) now n = on_snapshot m now n
dispatch (forward m) now n = (on_forward m n, none)

-- The end of `_handle`: a leader notes who it heard from, and the handler runs.
unfoldable pub heard_and_dispatch : Message → ℕ → Node → Node × Option Fault
unfolding dispatch
heard_and_dispatch m now n = dispatch m now (
    if is_leader n.role && has (sender_of m) n.replica.members
    then record n { watch = Quorum.heard_from (sender_of m) now n.watch }
    else n)

-- `_handle`
unfoldable pub handle : Message → ℕ → Node → Node × Option Fault
unfolding heard_and_dispatch tell_it_is_stale
handle m now n = elim (epoch_of m) [
  | none ↦ heard_and_dispatch m now n
  | some e ↦
      if ltb e (epoch n)
      then (tell_it_is_stale (sender_of m) now n, none)
      else if ltb (epoch n) e
      then (
        ask_for_log (some (sender_of m)) now false
            (record n { catchup = Catchup.note_ahead (sender_of m) e 0 n.catchup }),
        none,
      )
      else if not (is_voter n) && not (is_commit m)
      then (n, none)
      else heard_and_dispatch m now n
]

-- `_drain`, on fuel: a fault leaves the rest of the queue where it is.
unfoldable pub drain : ℕ → ℕ → Node → Node × Option Fault
unfolding handle
drain zero now n = (n, none)
drain (suc fuel) now n = elim n.local [
  | [] ↦ (n, none)
  | m ∷ rest ↦
      let (n', fault) = handle m now (record n { local = rest }) in
      elim fault [ some f ↦ (n', some f) | none ↦ drain fuel now n' ]
]

-- `receive`
unfoldable pub receive : ℕ → Message → ℕ → Node → Node × Option Fault
unfolding drain handle
receive fuel m now n =
    let (n', fault) = handle m now n in
    elim fault [ some f ↦ (n', some f) | none ↦ drain fuel now n' ]

-- `start`
unfoldable pub start : ℕ → Node → Node
unfolding reset_election
start now n = reset_election now n

-- `submit`
unfoldable pub submit : ℕ → Command → ℕ → Node → Node × Option Fault
unfolding drain route
submit fuel command now n =
    drain fuel now (route command (record n { pending = Pending.add command n.pending }))

-- `abandon`
unfoldable pub abandon : Command → Node → Node
abandon command n = record n { pending = Pending.discard command.cmd_id n.pending }

-- `reconfigure`; the id of the command, which the source draws at random, is an argument.
unfoldable pub reconfigure_to : ℕ → String → Dict String String → ℕ → Node → Node × Option Fault
unfolding submit
reconfigure_to fuel cmd_id voters now n =
    submit fuel (record { cmd_id = cmd_id; payload = reconfigure (epoch n) voters }) now n

-- The parts of `tick`, in order: a leader without a majority steps down,
lose_leadership : ℕ → Node → Node
unfolding step_down reset_election
lose_leadership now n =
    if is_leader n.role && Quorum.must_step_down n.id (members n) (quorum n) now n.watch
    then reset_election now (step_down n)
    else n

beat : ℕ → Node → Node
beat now n = elim n.leadership [
  | none ↦ n
  | some l ↦
      broadcast
        (heartbeat (record {
          sender = n.id;
          epoch = epoch n;
          ballot = l.ballot;
          next_slot = n.replica.next_slot;
        }))
        (record n { next_heartbeat = now + n.config.heartbeat })
]

-- a leader sends its heartbeat, and a voter that heard no leader campaigns,
beat_or_campaign : ℕ → Node → Node
unfolding beat start_campaign
beat_or_campaign now n =
    if is_leader n.role
    then (if leb n.next_heartbeat now then beat now n else n)
    else if is_voter n && leb n.election_deadline now
    then start_campaign now n
    else n

-- the log is compacted when a snapshot is due,
rotate_log : Node → Node
unfolding compact
rotate_log n =
    let (r, moved) = Replica.rotate n.replica in
    let n' = record n { replica = r } in if moved then compact n' else n'

-- the next part of the log is asked for,
pull_log : ℕ → Node → Node
pull_log now n =
    let (policy, asked) = Catchup.pull now (position n) n.catchup in
    let n' = record n { catchup = policy } in
    elim asked [
      | none ↦ n'
      | some (peer, wanted) ↦ elim wanted [ none ↦ n' | some r ↦ send peer (catch_up r) n' ]
    ]

-- and what was lost is sent again.
retry : ℕ → Node → Node
unfolding draw
retry now n =
    if leb n.next_retry now
    then (let again =
          route_pending
            (resend_unchosen (record n { next_retry = now + n.config.retry_interval })) in
        if not (is_voter again) || is_candidate again.role
        then (let (d, drawn) = draw again in
            ask_for_log (Catchup.random_peer d (members drawn) drawn.seeds drawn.catchup) now false
              drawn)
        else again)
    else n

-- `tick`
unfoldable pub tick : ℕ → ℕ → Node → Node × Option Fault
unfolding lose_leadership beat_or_campaign rotate_log pull_log retry drain
tick fuel now n =
    drain fuel now
      (retry now (pull_log now (rotate_log (beat_or_campaign now (lose_leadership now n)))))
