-- ===== src/Consensus/Messages.antt =====
-- app/consensus/messages.py: one record for each type of message, and the union of them.
use matricxon.Base.{ℕ, String, List, Bool}
use matricxon.Base.Dict.{Dict}
use matricxon.Consensus.Ballot.{Ballot}
use matricxon.Consensus.Command.{Command}
use matricxon.Consensus.Machine.{Machine}

-- What an acceptor accepted: the slot, the ballot and the command.
abbrev pub Entry : Type 0
Entry = ℕ × Ballot × Command

pub record Prepare : Type 0 where
  pub sender : String
  pub epoch : ℕ
  pub ballot : Ballot
  pub from_slot : ℕ

pub record Promise : Type 0 where
  pub sender : String
  pub epoch : ℕ
  pub ballot : Ballot
  pub accepted : List Entry

pub record Accept : Type 0 where
  pub sender : String
  pub epoch : ℕ
  pub ballot : Ballot
  pub slot : ℕ
  pub command : Command

pub record Accepted : Type 0 where
  pub sender : String
  pub epoch : ℕ
  pub ballot : Ballot
  pub slot : ℕ

pub record Nack : Type 0 where
  pub sender : String
  pub epoch : ℕ
  pub ballot : Ballot
  pub promised : Ballot

pub record Commit : Type 0 where
  pub sender : String
  pub epoch : ℕ
  pub slot : ℕ
  pub command : Command

pub record Heartbeat : Type 0 where
  pub sender : String
  pub epoch : ℕ
  pub ballot : Ballot
  pub next_slot : ℕ

pub record HeartbeatAck : Type 0 where
  pub sender : String
  pub epoch : ℕ
  pub ballot : Ballot

pub record CatchUp : Type 0 where
  pub sender : String
  pub epoch : ℕ
  pub from_slot : ℕ

-- The dictionary that `Replica._capture` builds.
pub record Image : Type 0 where
  pub epoch : ℕ
  pub slot : ℕ
  pub machine : Machine
  pub results : Dict String Bool
  pub members : Dict String String
  pub addresses : Dict String String
  pub stops : Dict ℕ ℕ

pub record Snapshot : Type 0 where
  pub sender : String
  pub at_epoch : ℕ
  pub at_slot : ℕ
  pub state : Image

pub record Forward : Type 0 where
  pub sender : String
  pub command : Command

pub data Message : Type 0 where
  prepare : Prepare → Message
  promise : Promise → Message
  accept : Accept → Message
  accepted : Accepted → Message
  nack : Nack → Message
  commit : Commit → Message
  heartbeat : Heartbeat → Message
  heartbeat_ack : HeartbeatAck → Message
  catch_up : CatchUp → Message
  snapshot : Snapshot → Message
  forward : Forward → Message
