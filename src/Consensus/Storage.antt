-- ===== src/Consensus/Storage.antt =====
-- app/consensus/storage.py: what a node must not forget, and the store that keeps it. A save is one
-- entry of the journal; `MemoryStore` and `FileStore` differ in where the entries go, and a load
-- replays them.
pub mod Pruning
use matricxon.Base.{◌==◌}
use matricxon.Base.{if◌then◌else◌}
use matricxon.Base.{
  ℕ, String, List, [], ◌∷◌, ◌++◌, Option, none, some, ltb, leb, nat_eq, keep, length, ◌+◌, ◌*◌,
}
use matricxon.Base.Dict.{Dict, put, get_or}
use matricxon.Base.Sort.{sort_items}
use matricxon.Consensus.Ballot.{Ballot, zero_ballot}
use matricxon.Consensus.Command.{Command}
use matricxon.Consensus.Messages.{Image}

pub record EpochState : Type 0 where
  pub promised : Ballot
  pub accepted : Dict ℕ (Ballot × Command)
  pub chosen : Dict ℕ Command

abbrev pub empty_epoch : EpochState
empty_epoch = record { promised = zero_ballot; accepted = []; chosen = [] }

pub record DurableState : Type 0 where
  pub genesis : Option (Dict String String)
  pub epochs : Dict ℕ EpochState
  pub snapshot : Option Image

abbrev pub empty_state : DurableState
empty_state = record { genesis = none; epochs = []; snapshot = none }

-- `epoch(number)`: the state of an epoch, a fresh one if there is none yet.
unfoldable pub epoch_state : ℕ → DurableState → EpochState
epoch_state e d = get_or e empty_epoch d.epochs

-- `epoch(number)` with a write through the reference that it returns.
unfoldable pub set_epoch : ℕ → EpochState → DurableState → DurableState
set_epoch e s d = record d { epochs = put e s d.epochs }

-- The entries of a log from a slot on.
unfoldable pub from_slot_on : {V : Type 0} → ℕ → Dict ℕ V → Dict ℕ V
from_slot_on slot = keep (λ p. leb slot p.0)

prune_first : ℕ → ℕ → Dict ℕ EpochState → Dict ℕ EpochState
prune_first first slot [] = []
prune_first first slot ((n, s) ∷ epochs) =
    (
      n,
      if n == first
          then record s {
            accepted = from_slot_on slot s.accepted;
            chosen = from_slot_on slot s.chosen;
          }
          else s,
    )
    ∷ prune_first first slot epochs

unfoldable pub prune : DurableState → DurableState
unfolding prune_first from_slot_on
prune d = elim d.snapshot [
  | none ↦ d
  | some base ↦ record d {
    epochs = prune_first base.epoch base.slot (from_slot_on base.epoch d.epochs);
  }
]

-- One line of the journal, by its "k".
pub data Line : Type 0 where
  g : Dict String String → Line
  s : Image → Line
  p : ℕ → Ballot → Line
  a : ℕ → ℕ → Ballot → Command → Line
  c : ℕ → ℕ → Command → Line

-- What a save does to the state of `MemoryStore`, and a line to the state that `load` rebuilds.
unfoldable pub write : DurableState → Line → DurableState
unfolding set_epoch epoch_state
write d (g members) = record d { genesis = some members }
write d (s base) = record d { snapshot = some base }
write d (p e b) = set_epoch e (record (epoch_state e d) { promised = b }) d
write d (a e slot b command) =
    set_epoch e
      (record (epoch_state e d) { accepted = put slot (b, command) (epoch_state e d).accepted }) d
write d (c e slot command) =
    set_epoch e (record (epoch_state e d) { chosen = put slot command (epoch_state e d).chosen }) d

unfoldable pub replay : DurableState → List Line → DurableState
replay d [] = d
replay d (l ∷ lines) = replay (write d l) lines

accepted_lines : ℕ → Dict ℕ (Ballot × Command) → List Line
accepted_lines e [] = []
accepted_lines e ((slot, (b, command)) ∷ rest) = a e slot b command ∷ accepted_lines e rest

chosen_lines : ℕ → Dict ℕ Command → List Line
chosen_lines e [] = []
chosen_lines e ((slot, command) ∷ rest) = c e slot command ∷ chosen_lines e rest

epoch_lines : Dict ℕ EpochState → List Line
unfolding accepted_lines chosen_lines
epoch_lines [] = []
epoch_lines ((e, st) ∷ rest) =
    (p e st.promised
      ∷ (accepted_lines e (sort_items st.accepted) ++ chosen_lines e (sort_items st.chosen)))
    ++ epoch_lines rest

-- `_rewrite`: one line for each fact.
unfoldable pub rewrite : DurableState → List Line
unfolding epoch_lines
rewrite d =
    (elim d.genesis [ none ↦ [] | some m ↦ g m ∷ [] ])
    ++ ((elim d.snapshot [ none ↦ [] | some base ↦ s base ∷ [] ])
        ++ epoch_lines (sort_items d.epochs))

facts : Dict ℕ EpochState → ℕ
facts [] = 0
facts ((e, st) ∷ rest) = 1 + length st.accepted + length st.chosen + facts rest

unfoldable pub distinct : DurableState → ℕ
unfolding facts
distinct d = 1 + facts d.epochs

abbrev pub compact_slack : ℕ
compact_slack = 1000

-- `FileStore.load`: the state, and the lines of the file afterwards.
unfoldable pub load : List Line → DurableState × List Line
unfolding replay prune distinct rewrite
load lines =
    let d = prune (replay empty_state lines) in
    (d, if ltb (2 * distinct d + compact_slack) (length lines) then rewrite d else lines)
