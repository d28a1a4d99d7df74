-- ===== src/Consensus/Node/Starting.antt =====
-- The constructor of a node, app/consensus/node.py.
use matricxon.Base.{ℕ, ◌/◌, String, List, [], ◌∷◌, Option, none, some, string_eq, nat_eq}
use matricxon.Base.Dict.{Dict}
use matricxon.Consensus.Ballot.{zero_ballot}
use matricxon.Consensus.Storage.{Line, DurableState, epoch_state}
use matricxon.Consensus.Replica.{Replica, Fault, new_replica}
use matricxon.Consensus.Machine.{Machine}
use matricxon.Consensus.Quorum.{QuorumWatch}
use matricxon.Consensus.Catchup.{CatchUpPolicy, request, within}
use matricxon.Consensus.Node.{PaxosConfig, default_config, Node, follower, enter_epoch}
use matricxon.Consensus.Catchup
use matricxon.Consensus.Quorum

-- `__init__`, over what `store.load()` returned. The line of a genesis that is saved is the first one;
-- a fault is raised while the replica applies what was stored.
unfoldable pub new_node :
    String
    → DurableState
    → Machine
    → List ℕ
    → Option PaxosConfig
    → Option (Dict String String)
    → List String
    → Node × Option Fault
unfolding enter_epoch
new_node id stored machine draws config genesis seeds = (enter_epoch start, made.1)
  where
    settings : PaxosConfig
    settings = elim config [ none ↦ default_config | some c ↦ c ]

    first_voters : Option (Dict String String)
    first_voters = elim stored.genesis [ none ↦ genesis | some members ↦ none ]

    durable : DurableState
    durable = elim first_voters [
      | none ↦ stored
      | some members ↦ record stored { genesis = some members }
    ]

    made : Replica × Option Fault
    made = new_replica machine settings.snapshot_every durable

    start : Node
    start = record {
      id = id;
      config = settings;
      seeds = seeds;
      durable = durable;
      replica = made.0;
      acceptor = record {
        id = id;
        epoch = made.0.epoch;
        state = epoch_state made.0.epoch durable;
        floor = 0;
        saved = elim first_voters [ none ↦ [] | some members ↦ Line.g members ∷ [] ];
      };
      role = follower;
      leader_id = none;
      local = [];
      outbox = [];
      stale_told = [];
      snapshot_sent = [];
      catchup = Catchup.new_policy id (settings.retry_interval / 4) settings.catchup_batch;
      pending = [];
      watch = Quorum.new_watch settings.election_timeout;
      next_heartbeat = 0;
      next_retry = 0;
      election_deadline = 0;
      round_seen = 0;
      campaign = none;
      leadership = none;
      leader_ballot = zero_ballot;
      draws = draws;
      compactions = [];
    }
