-- ===== src/Consensus/Acceptor.antt =====
-- app/consensus/acceptor.py. The acceptor holds its epoch's durable state and writes each change of
-- it to the store; the lines that it saved are kept in order, so "before it replies" can be stated.
pub mod Reports
pub mod Replies
pub mod Durable
use matricxon.Base.{
  ℕ, String, List, [], ◌∷◌, ◌++◌, Option, none, some, Bool, false, ltb, leb, nat_eq, keep, max,
  if◌then◌else◌, ◌==◌, ◌&&◌,
}
use matricxon.Base.Dict.{Dict, get, put}
use matricxon.Base.Sort.{sort_items}
use matricxon.Consensus.Ballot.{Ballot, ballot_ltb, ballot_eq}
use matricxon.Consensus.Command.{Command, command_eq}
use matricxon.Consensus.Messages.{Entry, Prepare, Accept, Message, promise, accepted, nack}
use matricxon.Consensus.Storage.{EpochState, Line}

pub record Acceptor : Type 0 where
  pub id : String
  pub epoch : ℕ
  pub state : EpochState
  pub floor : ℕ
  pub saved : List Line

rounds_max : ℕ → Dict ℕ (Ballot × Command) → ℕ
rounds_max n [] = n
rounds_max n ((slot, (b, c)) ∷ rest) = rounds_max (max n b.round) rest

unfoldable pub max_round : Acceptor → ℕ
unfolding rounds_max
max_round a = rounds_max a.state.promised.round a.state.accepted

-- `_promise`
unfoldable pub raise_promise : Ballot → Acceptor → Acceptor
raise_promise b a =
    if ballot_ltb a.state.promised b
    then record a {
      state = record a.state { promised = b };
      saved = a.saved ++ (Line.p a.epoch b ∷ []);
    }
    else a

entries : Dict ℕ (Ballot × Command) → List Entry
entries [] = []
entries ((slot, (b, c)) ∷ rest) = (slot, b, c) ∷ entries rest

-- What a promise reports: the accepted entries from a slot on, in the order of the slots.
unfoldable pub report : ℕ → Dict ℕ (Ballot × Command) → List Entry
unfolding entries
report from_slot votes = keep (λ e. leb from_slot e.0) (entries (sort_items votes))

-- Phase 1b.
unfoldable pub on_prepare : Prepare → Acceptor → Acceptor × Message
unfolding raise_promise
on_prepare m a =
    if ballot_ltb m.ballot a.state.promised
    then (
      a,
      nack (record {
        sender = a.id;
        epoch = a.epoch;
        ballot = m.ballot;
        promised = a.state.promised;
      }),
    )
    else (
      raise_promise m.ballot a,
      promise (record {
        sender = a.id;
        epoch = a.epoch;
        ballot = m.ballot;
        accepted = report m.from_slot a.state.accepted;
      }),
    )

same_entry : Option (Ballot × Command) → Ballot → Command → Bool
same_entry none b c = false
same_entry (some (b', c')) b c = b' == b && c' == c

-- The write of a new entry, saved.
unfoldable pub record_entry : ℕ → Ballot → Command → Acceptor → Acceptor
record_entry slot b c a = record a {
  state = record a.state { accepted = put slot (b, c) a.state.accepted };
  saved = a.saved ++ (Line.a a.epoch slot b c ∷ []);
}

-- Phase 2b.
unfoldable pub on_accept : Accept → Acceptor → Acceptor × Message
unfolding raise_promise record_entry same_entry
on_accept m a =
    if ltb m.slot a.floor
    then (a, refused)
    else if ballot_ltb m.ballot a.state.promised
    then (a, refused)
    else if same_entry (get m.slot a.state.accepted) m.ballot m.command
    then (raise_promise m.ballot a, agreed)
    else (record_entry m.slot m.ballot m.command (raise_promise m.ballot a), agreed)
  where
    refused : Message
    refused =
        nack (record {
          sender = a.id;
          epoch = a.epoch;
          ballot = m.ballot;
          promised = a.state.promised;
        })

    agreed : Message
    agreed = accepted (record { sender = a.id; epoch = a.epoch; ballot = m.ballot; slot = m.slot })
