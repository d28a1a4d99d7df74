-- ===== src/Consensus/Tests.antt =====
-- Runs of app/consensus at concrete inputs: three voters, two commands and the messages about them.
pub mod Components
pub mod Epoch
use matricxon.Consensus.Ballot.{zero_ballot}
use matricxon.Consensus.Node.{Node, default_config, follower}
use matricxon.Consensus.Catchup.{new_policy}
use matricxon.Base.{ℕ, String, List, [], ◌∷◌, none, some}
use matricxon.Base.Dict.{Dict}
use matricxon.Consensus.Ballot.{Ballot}
use matricxon.Consensus.Command.{Command, Value, set, text, unknown}
use matricxon.Consensus.Machine.{empty_machine}
use matricxon.Consensus.Messages.{Prepare, Promise, Accept, Image}
use matricxon.Consensus.Storage.{EpochState, DurableState}
use matricxon.Consensus.Acceptor.{Acceptor}
use matricxon.Consensus.Proposer.{Campaign, Leadership}
use matricxon.Consensus.Replica.{Replica}
use matricxon.Consensus.Quorum.{QuorumWatch}
use matricxon.Consensus.Learners.{Sighting, Learners}

abbrev pub first : Ballot
first = record { round = 1; node = "a" }

abbrev pub second : Ballot
second = record { round = 2; node = "b" }

abbrev pub set_x : Command
set_x = record { cmd_id = "1"; payload = set "x" (text "old") }

abbrev pub set_y : Command
set_y = record { cmd_id = "2"; payload = set "y" (text "new") }

abbrev pub voters : List String
voters = "a" ∷ "b" ∷ "c" ∷ []

-- An acceptor that promised the first ballot and accepted a command under it.
abbrev pub promised_first : Acceptor
promised_first = record {
  id = "c";
  epoch = 0;
  state = record { promised = first; accepted = (0, (first, set_x)) ∷ []; chosen = [] };
  floor = 0;
  saved = [];
}

abbrev pub prepare_second : Prepare
prepare_second = record { sender = "b"; epoch = 0; ballot = second; from_slot = 0 }

abbrev pub accept_second : Accept
accept_second = record { sender = "b"; epoch = 0; ballot = second; slot = 1; command = set_y }

-- The second ballot's campaign, with the promises of a majority.
abbrev pub campaign_second : Campaign
campaign_second = record {
  ballot = second;
  quorum = 2;
  promises = ("b", []) ∷ ("c", (0, first, set_x) ∷ (2, first, set_y) ∷ []) ∷ [];
}

abbrev pub leader_second : Leadership
leader_second = record {
  ballot = second;
  quorum = 2;
  next_free_slot = 1;
  inflight = (0, (set_x, "b" ∷ [])) ∷ [];
  command_ids = "1" ∷ [];
}

-- A replica that applied one command and knows a later one.
abbrev pub replica_one : Replica
replica_one = record {
  machine = empty_machine;
  every = 5000;
  epoch = 0;
  next_slot = 1;
  members = ("a", "host") ∷ [];
  addresses = ("a", "host") ∷ [];
  chosen = (0, (0, set_x) ∷ (2, set_y) ∷ []) ∷ [];
  stop_slot = [];
  results = [];
  base = none;
  pending = none;
  pending_total = 0;
  saved = [];
}

abbrev pub base_one : Image
base_one = record {
  epoch = 0;
  slot = 1;
  machine = empty_machine;
  results = [];
  members = [];
  addresses = [];
  stops = [];
}

abbrev pub durable_one : DurableState
durable_one = record {
  genesis = none;
  epochs =
      (
        0,
        record {
          promised = first;
          accepted = (0, (first, set_x)) ∷ [];
          chosen = (0, set_x) ∷ (1, set_y) ∷ [];
        },
      )
      ∷ [];
  snapshot = some base_one;
}

abbrev pub watch_failed : QuorumWatch
watch_failed = record {
  timeout = 300;
  heard = ("b", 5) ∷ [];
  leader_since = 0;
  contact = none;
  failures = 3;
}

abbrev pub learner_d : Learners
learner_d = ("d", record { address = "host"; epoch = 0; next_slot = 7; at = 10 }) ∷ []

abbrev pub node_a : Node
node_a = record {
  id = "a";
  config = default_config;
  seeds = [];
  durable = durable_one;
  replica = replica_one;
  acceptor = promised_first;
  role = follower;
  leader_id = none;
  local = [];
  outbox = [];
  stale_told = [];
  snapshot_sent = [];
  catchup = new_policy "a" 50 100;
  pending = [];
  watch = watch_failed;
  next_heartbeat = 0;
  next_retry = 0;
  election_deadline = 0;
  round_seen = 1;
  campaign = none;
  leadership = none;
  leader_ballot = zero_ballot;
  draws = [];
  compactions = [];
}
