-- ===== src/Consensus.antt =====
-- app/consensus: the replicated log that the cluster agrees on.
pub mod Ballot
pub mod Command
pub mod Machine
pub mod Messages
pub mod Storage
pub mod Acceptor
pub mod Proposer
pub mod Replica
pub mod Node
pub mod Protocol
pub mod Pending
pub mod Keeper
pub mod Timers
pub mod Lease
pub mod Tests
pub mod Learners
pub mod Catchup
pub mod Quorum
