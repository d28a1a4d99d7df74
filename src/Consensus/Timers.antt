-- ===== src/Consensus/Timers.antt =====
-- app/consensus/timers.py: the election and heartbeat timers, in milliseconds.
use matricxon.Base.{ℕ, ◌*◌, ◌/◌, Option, none, some, Bool, leb, if◌then◌else◌, ◌&&◌}
use matricxon.Consensus.Command.{Value, timers}
use matricxon.Consensus.Node.{Node}
use matricxon.Consensus.Quorum
use matricxon.Consensus.Catchup

abbrev sensible : ℕ → ℕ → Bool
sensible election heartbeat =
    leb 500 election
    && leb election 60000
    && leb 50 heartbeat
    && leb heartbeat 5000
    && leb (heartbeat * 3) election

unfoldable pub valid_timers : Value → Option (ℕ × ℕ)
valid_timers (timers election heartbeat) =
    if sensible election heartbeat then some (election, heartbeat) else none
valid_timers _ = none

unfoldable pub apply_timers : ℕ → ℕ → Node → Node
apply_timers election heartbeat n = record n {
  config = record n.config {
    election_timeout = election;
    heartbeat = heartbeat;
    retry_interval = election / 2;
  };
  watch = Quorum.retune election n.watch;
  catchup = Catchup.retune (election / 2 / 4) n.catchup;
}
