-- ===== src/Consensus/Node/Commits.antt =====
-- Choosing commands and handing the log over, from app/consensus/node.py and
-- app/consensus/roles.py.
use matricxon.Base.{
  ℕ, ◌+◌, String, List, [], ◌∷◌, Option, none, some, true, not, if◌then◌else◌, ◌==◌, ◌&&◌,
  string_eq, nat_eq,
}
use matricxon.Consensus.Ballot.{ballot_eq}
use matricxon.Consensus.Command.{Command}
use matricxon.Consensus.Messages.{Accepted, Commit, CatchUp, commit}
use matricxon.Consensus.Proposer
use matricxon.Consensus.Proposer.{Campaign, Leadership}
use matricxon.Consensus.Replica
use matricxon.Consensus.Replica.{Replica, Fault}
use matricxon.Consensus.Catchup
use matricxon.Consensus.Node.{
  Node, epoch, members, is_voter, is_leader, reset_election, send, ask_for_log, enter_epoch,
}
use matricxon.Consensus.Node.Leading.{route_pending}
use matricxon.Consensus.Node.Snapshots.{serve_snapshot}

-- `_commit`: an exception of the replica passes through.
unfoldable pub commit_slot : ℕ → ℕ → Command → ℕ → Option String → Node → Node × Option Fault
unfolding enter_epoch reset_election
commit_slot e slot command now peer n =
    let (r, (fault, fresh)) = Replica.commit e slot command n.replica in
    let n' = record n { replica = r } in
    elim fault [
      | some f ↦ (n', some f)
      | none ↦ if epoch n' == epoch n then (n', none) else (
        ask_for_log peer now true (route_pending (reset_election now (enter_epoch n'))),
        none,
      )
    ]

tell : List String → Commit → Node → Node
tell [] m n = n
tell (to ∷ rest) m n = tell rest m (if to == n.id then n else send to (commit m) n)

-- `_on_accepted`
unfoldable pub on_accepted : Accepted → ℕ → Node → Node × Option Fault
unfolding commit_slot tell
on_accepted m now n = elim n.leadership [
  | none ↦ (n, none)
  | some l ↦
      if not (is_leader n.role && m.ballot == l.ballot)
      then (n, none)
      else (let (l', chosen) = Proposer.on_ack m.slot m.sender l in
          let n' = record n { leadership = some l' } in
          elim chosen [
            | none ↦ (n', none)
            | some command ↦
                let (committed, fault) = commit_slot (epoch n) m.slot command now none n' in
                elim fault [
                  | some f ↦ (committed, some f)
                  | none ↦ (
                    tell (members n)
                        (record {
                          sender = n.id;
                          epoch = epoch n;
                          slot = m.slot;
                          command = command;
                        })
                        committed,
                    none,
                  )
                ]
          ])
]

-- `_on_commit`
unfoldable pub on_commit : Commit → ℕ → Node → Node × Option Fault
unfolding commit_slot
on_commit m now n =
    let (n', fault) = commit_slot m.epoch m.slot m.command now (some m.sender) n in
    elim fault [
      | some f ↦ (n', some f)
      | none ↦
          if not (is_voter n') && not (m.sender == n.id)
          then (
            record n' { catchup = Catchup.note_ahead m.sender m.epoch (m.slot + 2) n'.catchup },
            none,
          )
          else (n', none)
    ]

hand_over : List (ℕ × Command) → String → ℕ → Node → Node
hand_over [] to e n = n
hand_over ((slot, command) ∷ rest) to e n =
    hand_over rest to e
      (send to (commit (record { sender = n.id; epoch = e; slot = slot; command = command })) n)

-- `_on_catchup`
unfoldable pub on_catch_up : CatchUp → ℕ → Node → Node
unfolding hand_over serve_snapshot
on_catch_up m now n =
    let (n', served) = serve_snapshot m now n in
    if served
    then n'
    else hand_over (Replica.chosen_from m.epoch m.from_slot n.config.catchup_batch n.replica)
        m.sender m.epoch n'
