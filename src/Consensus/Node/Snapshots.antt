-- ===== src/Consensus/Node/Snapshots.antt =====
-- app/consensus/snapshots.py: compacting the log, and handing a snapshot over.
use matricxon.Base.{
  ℕ, [], ◌∷◌, ◌++◌, Option, none, some, Bool, true, false, not, if◌then◌else◌, ◌==◌, ◌&&◌,
  string_eq, nat_eq,
}
use matricxon.Base.Dict.{Dict, get, put}
use matricxon.Consensus.Ballot.{ballot_eq}
use matricxon.Consensus.Command.{Command}
use matricxon.Consensus.Messages.{CatchUp, Snapshot, snapshot}
use matricxon.Consensus.Storage.{DurableState, epoch_state, set_epoch, prune}
use matricxon.Consensus.Replica
use matricxon.Consensus.Replica.{Replica, Fault}
use matricxon.Consensus.Catchup
use matricxon.Consensus.Node.{
  Node, epoch, reset_election, send, ask_for_log, raise_floor, enter_epoch,
}
use matricxon.Consensus.Node.Leading.{route_pending}

abbrev pub send_every : ℕ
send_every = 5000

keep_chosen : Dict ℕ (Dict ℕ Command) → DurableState → DurableState
keep_chosen [] d = d
keep_chosen ((e, slots) ∷ rest) d =
    keep_chosen rest (set_epoch e (record (epoch_state e d) { chosen = slots }) d)

-- `_compact`: the acceptor's state is a part of the durable state, so pruning that prunes it too.
unfoldable pub compact : Node → Node
unfolding keep_chosen raise_floor
compact n =
    let d = prune (keep_chosen n.replica.chosen (record n.durable { snapshot = n.replica.base })) in
    raise_floor (record n {
      durable = d;
      acceptor = record n.acceptor { state = epoch_state n.acceptor.epoch d };
      compactions = n.compactions ++ (d ∷ []);
    })

-- `_on_snapshot`
unfoldable pub on_snapshot : Snapshot → ℕ → Node → Node × Option Fault
unfolding compact enter_epoch reset_election
on_snapshot m now n =
    if not (m.at_epoch == m.state.epoch && m.at_slot == m.state.slot)
    then (n, none)
    else (let (r, (fault, installed)) = Replica.install m.state n.replica in
        let n' = record n { replica = r } in
        elim fault [
          | some f ↦ (n', some f)
          | none ↦
              if not installed
              then (n', none)
              else (let compacted = compact n' in
                  let entered =
                    if epoch compacted == epoch n
                    then compacted
                    else reset_election now (enter_epoch compacted) in
                  (ask_for_log (some m.sender) now true (route_pending entered), none))
        ])

-- `_serve_snapshot`
unfoldable pub serve_snapshot : CatchUp → ℕ → Node → Node × Bool
serve_snapshot m now n = elim n.replica.base [
  | none ↦ (n, false)
  | some base ↦
      if not (Replica.before_base m.epoch m.from_slot n.replica)
      then (n, false)
      else if Catchup.within now (get m.sender n.snapshot_sent) send_every
      then (n, true)
      else (
        send m.sender
            (snapshot
              (record { sender = n.id; at_epoch = base.epoch; at_slot = base.slot; state = base }))
            (record n { snapshot_sent = put m.sender now n.snapshot_sent }),
        true,
      )
]
