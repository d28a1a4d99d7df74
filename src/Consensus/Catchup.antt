-- ===== src/Consensus/Catchup.antt =====
-- app/consensus/catchup.py: when and whom a node asks for the commands that it is missing. The
-- position of the replica is an argument; a time that was never set is `none`.
pub mod Due
pub mod Asking
use matricxon.Base.{
  ℕ, zero, suc, ◌+◌, ◌*◌, ◌/◌, String, List, [], ◌∷◌, Option, none, some, Bool, true, false, not,
  ltb, leb, length, keep, if◌then◌else◌, ◌==◌, ◌&&◌, ◌||◌, string_eq, nat_eq, contains,
}
use matricxon.Base.Sort.{sort}
use matricxon.Base.Text.{text_ltb}
use matricxon.Consensus.Messages.{CatchUp}
use matricxon.Consensus.Replica.{before}

abbrev pub Position : Type 0
Position = ℕ × ℕ

pub record CatchUpPolicy : Type 0 where
  pub id : String
  pub interval : ℕ
  pub batch : ℕ
  pub seen : Option Position
  pub moved_at : Option ℕ
  pub last : Option ℕ
  pub ahead : Option (String × Position)
  pub asked_at : Option Position

abbrev pub pull_retry : ℕ
pull_retry = 1000

abbrev pub new_policy : String → ℕ → ℕ → CatchUpPolicy
new_policy id interval batch = record {
  id = id;
  interval = interval;
  batch = batch;
  seen = none;
  moved_at = none;
  last = none;
  ahead = none;
  asked_at = none;
}

abbrev pub retune : ℕ → CatchUpPolicy → CatchUpPolicy
retune interval p = record p { interval = interval }

-- `now - at < span`
abbrev pub within : ℕ → Option ℕ → ℕ → Bool
within now none span = false
within now (some at) span = ltb now (at + span)

unfoldable pub note_ahead : String → ℕ → ℕ → CatchUpPolicy → CatchUpPolicy
note_ahead peer e slot p = elim p.ahead [
  | none ↦ record p { ahead = some (peer, (e, slot)) }
  | some (q, (e', slot')) ↦
      if before e slot e' slot' then p else record p { ahead = some (peer, (e, slot)) }
]

unfoldable pub request :
    String → ℕ → Bool → Position → CatchUpPolicy → CatchUpPolicy × Option CatchUp
request peer now force here p =
    if peer == p.id || (not force && within now p.last p.interval) then (p, none) else (
      record p { last = some now },
      some (record { sender = p.id; epoch = here.0; from_slot = here.1 }),
    )

same_position : Option Position → Position → Bool
same_position none here = false
same_position (some (e, s)) (e', s') = e == e' && s == s'

-- The batch that was asked for has been taken in.
taken_in : Position → Position → ℕ → Bool
taken_in here asked batch = ltb asked.0 here.0 || leb (asked.1 + batch) here.1

pub moved : ℕ → Position → CatchUpPolicy → CatchUpPolicy
unfolding same_position
moved now here p =
    if same_position p.seen here then p else record p { seen = some here; moved_at = some now }

pub waits : ℕ → Position → CatchUpPolicy → Bool
unfolding taken_in
waits now here p = elim p.asked_at [
  | none ↦ false
  | some asked ↦ not (taken_in here asked p.batch) && within now p.moved_at pull_retry
]

-- The source returns `peer, self.request(…)`: the request is absent when the peer is this node.
unfoldable pub pull :
    ℕ → Position → CatchUpPolicy → CatchUpPolicy × Option (String × Option CatchUp)
unfolding moved waits request
pull now here p = elim p.ahead [
  | none ↦ (p, none)
  | some (peer, (e, slot)) ↦
      if before here.0 here.1 e slot
      then (let p' = moved now here p in
          if waits now here p'
          then (p', none)
          else (let (p'', asked) =
                request peer now true here (record p' { asked_at = some here }) in
              (p'', some (peer, asked))))
      else (record p { ahead = none }, none)
]

union : List String → List String → List String
union [] ys = ys
union (x ∷ xs) ys = let rest = union xs ys in if contains x rest then rest else x ∷ rest

nth : ℕ → List String → Option String
nth i [] = none
nth zero (x ∷ xs) = some x
nth (suc i) (x ∷ xs) = nth i xs

-- `rng.choice(sorted(peers))`, with the draw in thousandths.
unfoldable pub random_peer : ℕ → List String → List String → CatchUpPolicy → Option String
unfolding union nth
random_peer draw members seeds p =
    let peers =
      sort (λ a b. not (text_ltb b a)) (keep (λ q. not (q == p.id)) (union members seeds)) in
    nth (draw * length peers / 1000) peers
