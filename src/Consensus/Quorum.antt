-- ===== src/Consensus/Quorum.antt =====
-- app/consensus/quorum.py. Times are whole milliseconds. A voter never heard from, which the source
-- dates a thousand million seconds back, has no entry. A draw is a random number in thousandths.
pub mod Bounds
use matricxon.Base.{
  ℕ, ◌+◌, ◌-◌, ◌*◌, ◌/◌, ◌^◌, String, List, [], Option, none, some, Bool, false, not, ltb, leb, min,
  ◌==◌, ◌&&◌, string_eq, count_by,
}
use matricxon.Base.Dict.{Dict, get, put}

pub record QuorumWatch : Type 0 where
  pub timeout : ℕ
  pub heard : Dict String ℕ
  pub leader_since : ℕ
  pub contact : Option ℕ
  pub failures : ℕ

abbrev pub max_backoff : ℕ
max_backoff = 4

abbrev pub new_watch : ℕ → QuorumWatch
new_watch timeout = record {
  timeout = timeout;
  heard = [];
  leader_since = 0;
  contact = none;
  failures = 0;
}

abbrev pub retune : ℕ → QuorumWatch → QuorumWatch
retune timeout w = record w { timeout = timeout }

unfoldable pub became_leader : ℕ → QuorumWatch → QuorumWatch
became_leader now w = record w { heard = []; leader_since = now; failures = 0 }

unfoldable pub heard_from : String → ℕ → QuorumWatch → QuorumWatch
heard_from voter now w = record w { heard = put voter now w.heard }

unfoldable pub heard_within : String → ℕ → QuorumWatch → Bool
heard_within voter now w = elim (get voter w.heard) [
  | none ↦ false
  | some at ↦ ltb now (at + w.timeout)
]

unfoldable pub reachable : String → List String → ℕ → QuorumWatch → ℕ
unfolding heard_within
reachable me voters now w = 1 + count_by (λ v. not (v == me) && heard_within v now w) voters

unfoldable pub must_step_down : String → List String → ℕ → ℕ → QuorumWatch → Bool
unfolding reachable
must_step_down me voters quorum now w =
    leb (w.leader_since + w.timeout) now && ltb (reachable me voters now w) quorum

unfoldable pub leader_contact : ℕ → QuorumWatch → QuorumWatch
leader_contact now w = record w { contact = some now }

unfoldable pub leader_found : QuorumWatch → QuorumWatch
leader_found w = record w { failures = 0 }

unfoldable pub leader_fresh : ℕ → QuorumWatch → Bool
leader_fresh now w = elim w.contact [ none ↦ false | some at ↦ ltb now (at + 2 * w.timeout) ]

-- One to two timeouts, doubling after each failure.
unfoldable pub next_campaign_wait : ℕ → QuorumWatch → QuorumWatch × ℕ
next_campaign_wait draw w =
    let failures = w.failures + 1 in
    let factor = min (2 ^ (failures - 1)) max_backoff in
    (record w { failures = failures }, w.timeout * (1000 + draw) * factor / 1000)
