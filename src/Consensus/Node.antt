-- ===== src/Consensus/Node.antt =====
-- app/consensus/node.py: the state of one member, and the plumbing that its handlers share. The
-- clock is an argument; the random source is a list of draws in thousandths; what the node sent is
-- kept in order in `outbox`, and what it sent to itself waits in `local`. `compactions` holds
-- the states that the store was rewritten with.
pub mod Starting
pub mod Leading
pub mod Following
pub mod Snapshots
pub mod Commits
pub mod Running
use matricxon.Base.{
  ℕ, zero, suc, ◌+◌, ◌-◌, ◌*◌, ◌/◌, String, List, [], ◌∷◌, ◌++◌, Option, none, some, Bool, true,
  false, not, ltb, leb, length, max, if◌then◌else◌, ◌==◌, ◌&&◌, ◌||◌, string_eq, nat_eq,
}
use matricxon.Base.Dict.{Dict, get, put, has, keys}
use matricxon.Base.Sort.{sort}
use matricxon.Base.Text.{text_ltb}
use matricxon.Consensus.Ballot.{Ballot, zero_ballot}
use matricxon.Consensus.Command.{Command}
use matricxon.Consensus.Messages.{Message, catch_up}
use matricxon.Consensus.Storage.{Line, DurableState, epoch_state, set_epoch}
use matricxon.Consensus.Acceptor.{Acceptor, max_round}
use matricxon.Consensus.Proposer.{Campaign, Leadership}
use matricxon.Consensus.Replica.{Replica, Fault, new_replica}
use matricxon.Consensus.Machine.{Machine}
use matricxon.Consensus.Quorum.{QuorumWatch}
use matricxon.Consensus.Catchup.{CatchUpPolicy, request, within}
use matricxon.Consensus.Pending.{Pending}
use matricxon.Consensus.Catchup
use matricxon.Consensus.Quorum

-- app/consensus/config.py, in milliseconds; the patience is a whole factor.
pub record PaxosConfig : Type 0 where
  pub heartbeat : ℕ
  pub election_timeout : ℕ
  pub election_patience : ℕ
  pub retry_interval : ℕ
  pub catchup_batch : ℕ
  pub snapshot_every : ℕ

abbrev pub default_config : PaxosConfig
default_config = record {
  heartbeat = 50;
  election_timeout = 300;
  election_patience = 1;
  retry_interval = 200;
  catchup_batch = 100;
  snapshot_every = 5000;
}

pub data Role : Type 0 where
  follower candidate leader : Role

pub record Node : Type 0 where
  pub id : String
  pub config : PaxosConfig
  pub seeds : List String
  pub durable : DurableState
  pub replica : Replica
  pub acceptor : Acceptor
  pub role : Role
  pub leader_id : Option String
  pub local : List Message
  pub outbox : List (String × Message)
  pub stale_told : Dict String ℕ
  pub snapshot_sent : Dict String ℕ
  pub catchup : CatchUpPolicy
  pub pending : Pending
  pub watch : QuorumWatch
  pub next_heartbeat : ℕ
  pub next_retry : ℕ
  pub election_deadline : ℕ
  pub round_seen : ℕ
  pub campaign : Option Campaign
  pub leadership : Option Leadership
  pub leader_ballot : Ballot
  pub draws : List ℕ
  pub compactions : List DurableState

abbrev pub epoch : Node → ℕ
epoch n = n.replica.epoch

abbrev pub position : Node → ℕ × ℕ
position n = (n.replica.epoch, n.replica.next_slot)

-- `members`: the voters of the current epoch, sorted.
unfoldable pub members : Node → List String
members n = sort (λ a b. not (text_ltb b a)) (keys n.replica.members)

abbrev pub quorum : Node → ℕ
quorum n = length n.replica.members / 2 + 1

abbrev pub is_voter : Node → Bool
is_voter n = has n.id n.replica.members

abbrev pub is_leader : Role → Bool
is_leader leader = true
is_leader _ = false

abbrev pub is_candidate : Role → Bool
is_candidate candidate = true
is_candidate _ = false

abbrev is_follower : Role → Bool
is_follower follower = true
is_follower _ = false

-- `quorum_status`
unfoldable pub quorum_status : ℕ → Node → Bool × Option ℕ
quorum_status now n =
    if not (is_voter n)
    then (false, none)
    else if is_leader n.role
    then (let heard = Quorum.reachable n.id (members n) now n.watch in
        (leb (quorum n) heard, some heard))
    else (is_follower n.role && Quorum.leader_fresh now n.watch, none)

-- `_own_ballot`
unfoldable pub own_ballot : Node → Ballot
own_ballot n = elim n.campaign [
  | some c ↦ c.ballot
  | none ↦ elim n.leadership [ some l ↦ l.ballot | none ↦ zero_ballot ]
]

-- `_step_down`
unfoldable pub step_down : Node → Node
step_down n = record n { role = follower; campaign = none; leadership = none }

-- `rng.random()`: the next draw.
unfoldable pub draw : Node → ℕ × Node
draw n = elim n.draws [ [] ↦ (0, n) | d ∷ ds ↦ (d, record n { draws = ds }) ]

-- `_reset_election`
unfoldable pub reset_election : ℕ → Node → Node
unfolding draw
reset_election now n =
    let (d, n') = draw n in
    let timeout = n.config.election_timeout * n.config.election_patience in
    record n' { election_deadline = now + timeout * (1000 + d) / 1000 }

-- `_send`
unfoldable pub send : String → Message → Node → Node
send to m n =
    if to == n.id
    then record n { local = n.local ++ (m ∷ []) }
    else record n { outbox = n.outbox ++ ((to, m) ∷ []) }

unfoldable pub send_all : List String → Message → Node → Node
unfolding send
send_all [] m n = n
send_all (to ∷ rest) m n = send_all rest m (send to m n)

-- `_broadcast`
unfoldable pub broadcast : Message → Node → Node
unfolding send_all members
broadcast m n = send_all (members n) m n

-- `_ask_for_log`
unfoldable pub ask_for_log : Option String → ℕ → Bool → Node → Node
unfolding send
ask_for_log none now force n = n
ask_for_log (some peer) now force n =
    if peer == ""
    then n
    else (let (policy, asked) = request peer now force (position n) n.catchup in
        let n' = record n { catchup = policy } in
        elim asked [ none ↦ n' | some r ↦ send peer (catch_up r) n' ])

-- `_raise_floor` of snapshots.py
unfoldable pub raise_floor : Node → Node
raise_floor n = record n { acceptor = record n.acceptor { floor = floor } }
  where
    floor : ℕ
    floor = elim n.replica.base [
      | none ↦ 0
      | some b ↦ if b.epoch == n.replica.epoch then b.slot else 0
    ]

-- The acceptor shares its epoch's state with the durable state: a write through one is one to both.
unfoldable pub with_acceptor : Acceptor → Node → Node
with_acceptor a n = record n { acceptor = a; durable = set_epoch a.epoch a.state n.durable }

-- `_enter_epoch`: a fresh Paxos instance.
unfoldable pub enter_epoch : Node → Node
unfolding raise_floor with_acceptor
enter_epoch n =
    let fresh : Acceptor = record {
      id = n.id;
      epoch = n.replica.epoch;
      state = epoch_state n.replica.epoch n.durable;
      floor = 0;
      saved = n.acceptor.saved;
    } in
    let n' = raise_floor (with_acceptor fresh n) in
    record n' {
      round_seen = max_round n'.acceptor;
      campaign = none;
      leadership = none;
      leader_ballot = zero_ballot;
      leader_id = none;
      role = follower;
    }
