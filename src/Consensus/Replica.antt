-- ===== src/Consensus/Replica.antt =====
-- app/consensus/replica.py: the chosen log of each epoch and the state machine that it drives.
-- An exception leaves what was written before it, so a fault comes back beside the replica.
pub mod Log
pub mod Progress
use matricxon.Base.{
  ℕ, zero, suc, ◌+◌, ◌-◌, String, List, [], ◌∷◌, ◌++◌, Option, none, some, Bool, true, false, ltb,
  leb, nat_eq, string_eq, length, take, drop, keep, if◌then◌else◌, ◌==◌, ◌&&◌, ◌||◌,
}
use matricxon.Base.Dict.{Dict, get, put, has, get_or, update}
use matricxon.Base.Sort.{sort_items}
use matricxon.Consensus.Command.{Command, Payload, reconfigure, noop, command_eq}
use matricxon.Consensus.Machine.{Machine, apply}
use matricxon.Consensus.Messages.{Image}
use matricxon.Consensus.Storage.{DurableState, EpochState, Line, from_slot_on}

-- `SafetyViolation`, and the `ValueError` of the state machine.
pub data Fault : Type 0 where
  safety_violation bad_payload : Fault

pub record Replica : Type 0 where
  pub machine : Machine
  pub every : ℕ
  pub epoch : ℕ
  pub next_slot : ℕ
  pub members : Dict String String
  pub addresses : Dict String String
  pub chosen : Dict ℕ (Dict ℕ Command)
  pub stop_slot : Dict ℕ ℕ
  pub results : Dict String Bool
  pub base : Option Image
  pub pending : Option Image
  pub pending_total : ℕ
  pub saved : List Line

abbrev pub max_remembered_results : ℕ
max_remembered_results = 10000

-- `address_of`, where an empty text is as good as none.
or_else : Option String → Option String → Option String
or_else none other = other
or_else (some a) other = if a == "" then other else some a

unfoldable pub address_of : String → Dict String String → Replica → Option String
unfolding or_else
address_of n configured r =
    or_else (get n r.members) (or_else (get n configured) (get n r.addresses))

-- `self.chosen.get(epoch, {}).get(slot)`
unfoldable pub chosen_at : ℕ → ℕ → Dict ℕ (Dict ℕ Command) → Option Command
chosen_at e slot chosen = get slot (get_or e [] chosen)

-- `self.chosen.setdefault(epoch, {})[slot] = command`
unfoldable pub choose : ℕ → ℕ → Command → Dict ℕ (Dict ℕ Command) → Dict ℕ (Dict ℕ Command)
choose e slot c chosen = put e (put slot c (get_or e [] chosen)) chosen

-- `(e, s) < (e', s')`
abbrev pub before : ℕ → ℕ → ℕ → ℕ → Bool
before e s e' s' = ltb e e' || (e == e' && ltb s s')

trim : Dict String Bool → Dict String Bool
trim d = if ltb max_remembered_results (length d) then drop 1 d else d

unfoldable pub remember : Command → Bool → Replica → Replica
unfolding trim
remember c result r = record r { results = trim (put c.cmd_id result r.results) }

abbrev pub skip_slot : Replica → Replica
skip_slot r = record r { next_slot = r.next_slot + 1 }

-- `_reconfigure`: seals the epoch, unless the command is about another one.
unfoldable pub seal : Command → ℕ → Dict String String → Replica → Replica
unfolding remember
seal c e members r =
    if e == r.epoch
    then (let r' = remember c true r in
        record r' {
          stop_slot = put r'.epoch r'.next_slot r'.stop_slot;
          members = members;
          addresses = update r'.addresses members;
          epoch = r'.epoch + 1;
          next_slot = 0;
        })
    else skip_slot (remember c false r)

run_payload : Command → Payload → Replica → Option Replica
unfolding seal remember
run_payload c (reconfigure e members) r = some (seal c e members r)
run_payload c p r = elim (apply r.machine p) [
  | none ↦ none
  | some (m, result) ↦ some (skip_slot (remember c result (record r { machine = m })))
]

-- The body of the loop of `_advance`: `none` is the state machine's exception.
unfoldable pub apply_next : Command → Replica → Option Replica
unfolding run_payload
apply_next c r =
    if has c.cmd_id r.results || c == noop then some (skip_slot r) else run_payload c c.payload r

-- `_advance`, on fuel.
unfoldable pub advance : ℕ → Replica → Replica × Option Fault
advance zero r = (r, none)
advance (suc n) r = elim (chosen_at r.epoch r.next_slot r.chosen) [
  | none ↦ (r, none)
  | some c ↦ elim (apply_next c r) [ none ↦ (r, some bad_payload) | some r' ↦ advance n r' ]
]

-- The number of chosen commands, which bounds the rounds of `_advance`.
unfoldable pub total_chosen : Dict ℕ (Dict ℕ Command) → ℕ
total_chosen [] = 0
total_chosen ((e, d) ∷ rest) = length d + total_chosen rest

unfoldable pub advance_all : Replica → Replica × Option Fault
advance_all r = advance (suc (total_chosen r.chosen)) r

-- `commit`: whether the command is new, or the fault.
unfoldable pub commit : ℕ → ℕ → Command → Replica → Replica × (Option Fault × Bool)
commit e slot c r = elim (chosen_at e slot r.chosen) [
  | some known ↦ if known == c then (r, (none, false)) else (r, (some safety_violation, false))
  | none ↦
      if before e slot r.epoch r.next_slot
      then (r, (none, false))
      else (let (r', fault) = advance_all (record r {
        saved = r.saved ++ (Line.c e slot c ∷ []);
        chosen = choose e slot c r.chosen;
      }) in
          (r', (fault, true)))
]

sum_stops : ℕ → Dict ℕ ℕ → ℕ
sum_stops zero stops = 0
sum_stops (suc e) stops = get_or e 0 stops + sum_stops e stops

unfoldable pub applied_total : Replica → ℕ
unfolding sum_stops
applied_total r = sum_stops r.epoch r.stop_slot + r.next_slot

unfoldable pub applied : String → Replica → Bool
applied cmd_id r = has cmd_id r.results

-- `chosen_from`: up to the command that sealed the epoch.
unfoldable pub chosen_from : ℕ → ℕ → ℕ → Replica → List (ℕ × Command)
chosen_from e slot limit r = take limit (keep wanted (sort_items (get_or e [] r.chosen)))
  where
    wanted : ℕ × Command → Bool
    wanted p = leb slot p.0 && elim (get e r.stop_slot) [ none ↦ true | some last ↦ leb p.0 last ]

-- Snapshots: the log before the base is gone.

unfoldable pub before_base : ℕ → ℕ → Replica → Bool
before_base e slot r = elim r.base [ none ↦ false | some b ↦ before e slot b.epoch b.slot ]

unfoldable pub capture : Replica → Image
capture r = record {
  epoch = r.epoch;
  slot = r.next_slot;
  machine = r.machine;
  results = r.results;
  members = r.members;
  addresses = r.addresses;
  stops = r.stop_slot;
}

unfoldable pub restore : Image → Replica → Replica
restore i r = record r {
  machine = i.machine;
  results = i.results;
  epoch = i.epoch;
  next_slot = i.slot;
  members = i.members;
  addresses = update r.addresses i.addresses;
  stop_slot = i.stops;
}

drop_slots : ℕ → ℕ → Dict ℕ (Dict ℕ Command) → Dict ℕ (Dict ℕ Command)
drop_slots e slot [] = []
drop_slots e slot ((n, d) ∷ rest) =
    (n, if n == e then from_slot_on slot d else d) ∷ drop_slots e slot rest

unfoldable pub drop_below : Image → Replica → Replica
unfolding drop_slots from_slot_on
drop_below i r = record r { chosen = drop_slots i.epoch i.slot (from_slot_on i.epoch r.chosen) }

-- `rotate`: true when the base moved.
unfoldable pub rotate : Replica → Replica × Bool
unfolding applied_total capture drop_below
rotate r =
    let total = applied_total r in
    if ltb (total - r.pending_total) r.every then (r, false) else elim r.pending [
      | none ↦ (record r { pending = some (capture r); pending_total = total }, false)
      | some base ↦
          let r' = drop_below base (record r { base = some base }) in
          (record r' { pending = some (capture r'); pending_total = total }, true)
    ]

-- `install`: jumps to a peer's snapshot, if it is ahead.
unfoldable pub install : Image → Replica → Replica × (Option Fault × Bool)
unfolding restore drop_below applied_total
install i r =
    if before r.epoch r.next_slot i.epoch i.slot
    then (let (r', fault) =
          advance_all (drop_below i (record (restore i r) { base = some i; pending = none })) in
        elim fault [
          | none ↦ (record r' { pending_total = applied_total r' }, (none, true))
          | some f ↦ (r', (some f, false))
        ])
    else (r, (none, false))

load_chosen : Dict ℕ EpochState → Dict ℕ (Dict ℕ Command)
load_chosen [] = []
load_chosen ((e, st) ∷ rest) = elim st.chosen [
  | [] ↦ load_chosen rest
  | p ∷ ps ↦ (e, sort_items (p ∷ ps)) ∷ load_chosen rest
]

-- The constructor, from what the store kept.
unfoldable pub new_replica : Machine → ℕ → DurableState → Replica × Option Fault
unfolding restore load_chosen applied_total
new_replica m every d =
    let r = record start { chosen = load_chosen (sort_items d.epochs) } in
    let (r', fault) = advance_all (elim d.snapshot [ none ↦ r | some i ↦ restore i r ]) in
    (record r' { pending_total = applied_total r' }, fault)
  where
    genesis : Dict String String
    genesis = elim d.genesis [ none ↦ [] | some members ↦ members ]

    start : Replica
    start = record {
      machine = m;
      every = every;
      epoch = 0;
      next_slot = 0;
      members = genesis;
      addresses = genesis;
      chosen = [];
      stop_slot = [];
      results = [];
      base = d.snapshot;
      pending = none;
      pending_total = 0;
      saved = [];
    }
