-- ===== src/Consensus/Proposer.antt =====
-- app/consensus/proposer.py: the two phases of one ballot at the node that leads it.
use matricxon.Base.{
  true, ℕ, zero, suc, ◌+◌, ◌-◌, String, List, [], ◌∷◌, Option, none, some, Bool, not, ltb, leb,
  nat_eq, string_eq, length, max, if◌then◌else◌, ◌&&◌, contains,
}
use matricxon.Base.Dict.{Dict, get, put, remove, has}
use matricxon.Base.Sort.{sort_items}
use matricxon.Consensus.Ballot.{Ballot, ballot_ltb}
use matricxon.Consensus.Command.{Command, noop}
use matricxon.Consensus.Messages.{Entry}
pub mod Best
pub mod Plan
pub mod Reported
pub mod Acks
pub mod Once

-- Phase 1: the promises of one ballot.
pub record Campaign : Type 0 where
  pub ballot : Ballot
  pub quorum : ℕ
  pub promises : Dict String (List Entry)

unfoldable pub new_campaign : Ballot → ℕ → Campaign
new_campaign b q = record { ballot = b; quorum = q; promises = [] }

-- `add`: true exactly when this promise completes the majority.
unfoldable pub add : String → List Entry → Campaign → Campaign × Bool
add sender accepted c =
    let before = leb c.quorum (length c.promises) in
    let promises = put sender accepted c.promises in
    (record c { promises = promises }, not before && leb c.quorum (length promises))

-- `slot not in best or ballot > best[slot][0]`
unfoldable pub replaces : Option (Ballot × Command) → Ballot → Bool
replaces none b = true
replaces (some old) b = ballot_ltb old.0 b

-- The best entry for each slot so far, updated with one entry.
unfoldable pub better : Dict ℕ (Ballot × Command) → Entry → Dict ℕ (Ballot × Command)
unfolding replaces
better best (slot, b, c) = if replaces (get slot best) b then put slot (b, c) best else best

best_entries : Dict ℕ (Ballot × Command) → List Entry → Dict ℕ (Ballot × Command)
best_entries best [] = best
best_entries best (e ∷ es) = best_entries (better best e) es

best_promises : Dict ℕ (Ballot × Command) → Dict String (List Entry) → Dict ℕ (Ballot × Command)
best_promises best [] = best
best_promises best ((sender, accepted) ∷ rest) = best_promises (best_entries best accepted) rest

-- The first loop of `plan`.
unfoldable pub best_of : Campaign → Dict ℕ (Ballot × Command)
unfolding better best_entries best_promises
best_of c = best_promises [] c.promises

unfoldable pub last_slot : ℕ → Dict ℕ (Ballot × Command) → ℕ
last_slot n [] = n
last_slot n ((slot, e) ∷ rest) = last_slot (max n slot) rest

-- `best[slot][1] if slot in best else NOOP`
unfoldable pub planned : Dict ℕ (Ballot × Command) → ℕ → Command
planned best slot = elim (get slot best) [ none ↦ noop | some e ↦ e.1 ]

-- The comprehension of `plan`, over `count` slots from `slot` on.
unfoldable pub fill : ℕ → ℕ → Dict ℕ (Ballot × Command) → Dict ℕ Command → Dict ℕ Command
fill zero slot best chosen = []
fill (suc count) slot best chosen =
    let rest = fill count (slot + 1) best chosen in
    if has slot chosen then rest else (slot, planned best slot) ∷ rest

unfoldable pub plan_of : Dict ℕ (Ballot × Command) → ℕ → Dict ℕ Command → Dict ℕ Command
unfolding last_slot fill planned
plan_of [] from_slot chosen = []
plan_of (e ∷ es) from_slot chosen =
    fill (last_slot 0 (e ∷ es) + 1 - from_slot) from_slot (e ∷ es) chosen

unfoldable pub plan : ℕ → Dict ℕ Command → Campaign → Dict ℕ Command
unfolding plan_of
plan from_slot chosen c = plan_of (best_of c) from_slot chosen

-- Phase 2: the slots that a leader has proposed and who accepted each.
pub record Leadership : Type 0 where
  pub ballot : Ballot
  pub quorum : ℕ
  pub next_free_slot : ℕ
  pub inflight : Dict ℕ (Command × List String)
  pub command_ids : List String

unfoldable pub new_leadership : Ballot → ℕ → ℕ → Leadership
new_leadership b q first = record {
  ballot = b;
  quorum = q;
  next_free_slot = first;
  inflight = [];
  command_ids = [];
}

-- `s.add(x)` of a set, kept as a list of distinct elements.
unfoldable pub add_to_set : String → List String → List String
add_to_set x xs = if contains x xs then xs else x ∷ xs

unfoldable pub propose : ℕ → Command → Leadership → Leadership
unfolding add_to_set
propose slot command l = record l {
  inflight = put slot (command, []) l.inflight;
  next_free_slot = max l.next_free_slot (slot + 1);
  command_ids = add_to_set command.cmd_id l.command_ids;
}

unfoldable pub next_slot_for : Command → Leadership → Leadership × ℕ
unfolding propose
next_slot_for command l = (propose l.next_free_slot command l, l.next_free_slot)

ack_entry : Option (Command × List String) → ℕ → String → Leadership → Leadership × Option Command
unfolding add_to_set
ack_entry none slot sender l = (l, none)
ack_entry (some (command, acks)) slot sender l =
    if ltb (length (add_to_set sender acks)) l.quorum
    then (record l { inflight = put slot (command, add_to_set sender acks) l.inflight }, none)
    else (record l { inflight = remove slot l.inflight }, some command)

-- `accepted`: the command, once a majority accepted the slot (only the first time).
unfoldable pub on_ack : ℕ → String → Leadership → Leadership × Option Command
unfolding ack_entry
on_ack slot sender l = ack_entry (get slot l.inflight) slot sender l

unchosen_of : Dict ℕ (Command × List String) → List (ℕ × Command × List String)
unchosen_of [] = []
unchosen_of ((slot, (command, acks)) ∷ rest) = (slot, command, acks) ∷ unchosen_of rest

unfoldable pub unchosen : Leadership → List (ℕ × Command × List String)
unfolding unchosen_of
unchosen l = unchosen_of (sort_items l.inflight)
